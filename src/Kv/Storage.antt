-- ===== src/Kv/Storage.antt =====
-- internal/storage: the store over diskv, and the format of its keys. `Diskv` is
-- github.com/peterbourgon/diskv at the calls that the code makes, over a state `D`.
use nekoq_bootstrap.Base.{
  Bool, List, Option, Outcome, Text, [], and_then, codes, err, false, if◌then◌else◌,
  key_format_invalid, leb, nat_key, nat_same, none, not, ok, some, text_key, true, ℕ, ◌&&◌, ◌==◌,
  ◌||◌, ◌∷◌,
}
use nekoq_bootstrap.Base.Io.{Io}
use nekoq_bootstrap.Base.Maps.{is_empty}
use nekoq_bootstrap.Wal.Names.{SequenceId}

pub record Diskv (D : Type 0) : Type 0 where
  pub write : Text → Text → Io D (Unit {0})
  -- `none` is an error that os.IsNotExist recognises.
  pub read : D → Text → Outcome (Option Text)
  pub keys : D → List Text

-- storage.VersionKeyString
abbrev pub version_key : Text
version_key = codes "____sequence_id____"

abbrev pub valid_char : ℕ → Bool
valid_char ch =
    leb b'0' ch && leb ch b'9'
    || leb b'a' ch && leb ch b'z'
    || leb b'A' ch && leb ch b'Z'
    || nat_same ch b'_'

-- A byte above 127 belongs to a rune that is refused, so the loop may go by bytes.
unfoldable pub validate_key_format : Text → Bool
validate_key_format [] = true
validate_key_format (ch ∷ key) =
    let rest = validate_key_format key in if valid_char ch then rest else false

-- iface.Snapshot, whose metadata the code never fills.
pub record Entry : Type 0 where
  pub k : Text
  pub v : Text

pub record Snapshot : Type 0 where
  pub sequence_id : SequenceId
  pub entries : List Entry

abbrev pub empty_sequence_id : SequenceId
empty_sequence_id = record { term = 0; collection = 0; seq = 0 }

-- The loop over the keys, up to an empty one.
unfoldable pub key_list : List Text → List Text
key_list [] = []
key_list (key ∷ keys) = let rest = key_list keys in if is_empty key then [] else key ∷ rest

abbrev pub with_entry : Text → Option Text → List Entry → List Entry
with_entry key none es = es
with_entry key (some v) es = record { k = key; v = v } ∷ es

module _ {D : Type 0} (diskv : Diskv D) where
  unfoldable pub storage_put : Text → Text → Io D (Unit {0})
  storage_put key v d =
      if not (validate_key_format key) then (d, err key_format_invalid) else diskv.write key v d

  unfoldable pub storage_get : D → Text → Outcome (Option Text)
  storage_get d key =
      if not (validate_key_format key) then err key_format_invalid else diskv.read d key

  unfoldable pub snapshot_entries : D → List Text → Outcome (List Entry)
  snapshot_entries d [] = ok []
  snapshot_entries d (key ∷ keys) =
      let rest = snapshot_entries d keys in
      if key == version_key
      then rest
      else and_then (storage_get d key) (λ v. and_then rest (λ es. ok (with_entry key v es)))

  unfoldable pub latest_snapshot_data : D → ℕ → Outcome Snapshot
  latest_snapshot_data d term =
      and_then (snapshot_entries d (key_list (diskv.keys d)))
        (λ es. ok (record { sequence_id = empty_sequence_id; entries = es }))
