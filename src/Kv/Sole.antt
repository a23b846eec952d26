-- ===== src/Kv/Sole.antt =====
-- `KVStorageAdvImpl` of internal/service/solestorage.go: a store behind the write-ahead log. `Cbor` is
-- github.com/fxamacker/cbor at the types that the code marshals.
use nekoq_bootstrap.Base.{
  Bool, Option, Outcome, Text, and_then, false, if◌then◌else◌, nat_same, none, ok, some, ℕ, ◌&&◌,
}
use nekoq_bootstrap.Base.Io.{Io, continue, ◌>>=◌, ◌>>◌}
use nekoq_bootstrap.Kv.Storage.{
  Diskv, Snapshot, empty_sequence_id, latest_snapshot_data, storage_get, storage_put, version_key,
}
use nekoq_bootstrap.Wal.Disk.{DiskWal}
use nekoq_bootstrap.Wal.Names.{SequenceId}
use nekoq_bootstrap.Wal.Read.{initialize}
use nekoq_bootstrap.Wal.Replay.{on_state, on_wal, replay_incomplete, start_wal_sequence}
use nekoq_bootstrap.Wal.Write.{write_entry}

-- The field D, a deletion, is never set.
pub record WalEntry : Type 0 where
  pub key : Text
  pub value : Text
  pub deletion : Bool

pub record Cbor : Type 0 where
  pub marshal_entry : WalEntry → Outcome Text
  pub unmarshal_entry : Text → Outcome WalEntry
  pub marshal_sequence : SequenceId → Outcome Text
  pub unmarshal_sequence : Text → Outcome SequenceId

-- The state of the log and of the store.
abbrev pub Sole : Type 0 → Type 0
Sole D = DiskWal × D

abbrev pub or_start : Option SequenceId → SequenceId
or_start none = start_wal_sequence
or_start (some seq) = seq

abbrev pub or_empty : Option SequenceId → SequenceId
or_empty none = empty_sequence_id
or_empty (some seq) = seq

abbrev is_unstamped : SequenceId → Bool
is_unstamped s = nat_same s.term 0 && nat_same s.collection 0 && nat_same s.seq 0

-- A snapshot without a sequence id takes the version of the store.
abbrev pub stamped : Option SequenceId → Snapshot → Snapshot
stamped ver snapshot =
    if is_unstamped snapshot.sequence_id
    then record snapshot { sequence_id = or_empty ver }
    else snapshot

module _ {D : Type 0} (diskv : Diskv D) (cbor : Cbor) where
  unfoldable pub read_version : D → Outcome (Option SequenceId)
  read_version d = and_then (storage_get diskv d version_key) (elim [
    | none ↦ ok none
    | some dat ↦ and_then (cbor.unmarshal_sequence dat) (λ seq. ok (some seq))
  ])

  unfoldable pub write_version : SequenceId → Io D (Unit {0})
  write_version seq d =
      continue (cbor.marshal_sequence seq) (λ dat. storage_put diskv version_key dat) d

  -- The callback of the replay; it takes no notice of deletions.
  unfoldable pub recover_fn : Text → Io D (Unit {0})
  recover_fn buf d =
      continue (cbor.unmarshal_entry buf) (λ entry. storage_put diskv entry.key entry.value) d

  -- Initialize, after the log has been initialised.
  unfoldable pub recover : Io (Sole D) (Unit {0})
  recover (w, d) =
      continue (read_version d)
        (λ found. do
          seq ← replay_incomplete (or_start found) recover_fn
          on_state (write_version seq))
        (w, d)

  unfoldable pub sole_initialize : Io (Sole D) (Unit {0})
  sole_initialize = do on_wal initialize; recover

  unfoldable pub write_wal_entry : WalEntry → Io DiskWal SequenceId
  write_wal_entry entry w = continue (cbor.marshal_entry entry) (λ dat. write_entry dat) w

  unfoldable pub sole_put : Text → Text → Io (Sole D) (Unit {0})
  sole_put key val = do
    seq ← on_wal (write_wal_entry (record { key = key; value = val; deletion = false }))
    on_state (storage_put diskv key val)
    on_state (write_version seq)

  unfoldable pub sole_get : Sole D → Text → Outcome (Option Text)
  sole_get (w, d) key = storage_get diskv d key

  unfoldable pub sole_latest_snapshot_data : Sole D → ℕ → Outcome Snapshot
  sole_latest_snapshot_data (w, d) term =
      and_then (read_version d) (λ ver.
        and_then (latest_snapshot_data diskv d term) (λ snapshot. ok (stamped ver snapshot)))

  unfoldable pub current_position : Sole D → Outcome SequenceId
  current_position (w, d) = and_then (read_version d) (λ ver. ok (or_empty ver))
