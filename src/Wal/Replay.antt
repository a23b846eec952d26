-- ===== src/Wal/Replay.antt =====
-- `ReplayIncomplete` and `replayFile` of internal/wal/wal.go. The callback has a state of its own, `S`.
use Prim.Native.Nat.{Ordering}
use nekoq_bootstrap.Base.{
  Bool, List, Option, Text, [], err, false, if◌then◌else◌, insufficient_history, length, nat_same,
  newer_wal_than_history, none, ok, some, suc, true, ℕ, ◌&&◌, ◌∷◌,
}
use nekoq_bootstrap.Base.Io.{Io, continue, each, raise, ◌>>=◌, ◌>>◌}
use nekoq_bootstrap.Wal.Disk.{DiskWal, contents, open_file}
use nekoq_bootstrap.Wal.Names.{SequenceId, compare_sequence, filename}
use nekoq_bootstrap.Wal.Order.{text_lt}
use nekoq_bootstrap.Wal.Page.{RecordInfo, page_records_info}
use nekoq_bootstrap.Wal.Read.{at_position, each_page, list_wal_files}
use nekoq_bootstrap.Wal.Write.{cur_position}

abbrev pub on_wal {ℓ} : {S : Type ℓ} {A : Type 0} → Io DiskWal A → Io (DiskWal × S) A
on_wal m (w, s) = let (w', o) = m w in ((w', s), o)

abbrev pub on_state {ℓ} : {S : Type ℓ} {A : Type 0} → Io S A → Io (DiskWal × S) A
on_state m (w, s) = let (s', o) = m s in ((w, s'), o)

-- The body of the loop over the pages: every record of the page goes to the callback.
unfoldable pub replay_page {ℓ} : {S : Type ℓ} → (Text → Io S (Unit {0})) → Text → Io S (Unit {0})
replay_page fn page s =
    continue (page_records_info page) (λ records. each (λ (r : RecordInfo). fn r.content) records) s

unfoldable pub replay_content {ℓ} :
    {S : Type ℓ} → ℕ → (Text → Io S (Unit {0})) → Text → Io S (Unit {0})
replay_content size fn content = each_page (suc (length content)) size (replay_page fn) content

unfoldable pub replay_file {ℓ} :
    {S : Type ℓ} → (Text → Io S (Unit {0})) → Text → Io (DiskWal × S) (Unit {0})
replay_file fn name = do
  on_wal (open_file name)
  (λ ws. on_state (replay_content ws.0.max_page_size fn (contents name ws.0.files)) ws)

-- The loop that finds `idx`, as the files from `files[idx]` on; `none` where `idx` stays -1.
unfoldable pub files_from : Text → List Text → Option (List Text)
files_from target [] = none
files_from target (v ∷ files) =
    let later = files_from target files in
    if text_lt target v then none else (elim later [ none ↦ some (v ∷ files) | some fs ↦ some fs ])

abbrev pub same_position : SequenceId → DiskWal → Bool
same_position from w =
    nat_same w.cur_term from.term
    && nat_same w.cur_collection from.collection
    && nat_same w.cur_seq from.seq

abbrev pub no_wal : DiskWal → Bool
no_wal w = nat_same w.cur_term 1 && nat_same w.cur_collection 0 && nat_same w.cur_seq 0

abbrev pub start_wal_sequence : SequenceId
start_wal_sequence = record { term = 1; collection = 1; seq = 1 }

abbrev pub is_newer : SequenceId → SequenceId → Bool
is_newer from to = elim (compare_sequence from to) [ Ordering.gt ↦ true | _ ↦ false ]

abbrev pub replay_files {ℓ} :
    {S : Type ℓ} → (Text → Io S (Unit {0})) → Option (List Text) → Io (DiskWal × S) SequenceId
replay_files fn none = raise insufficient_history
replay_files fn (some files) = do each (replay_file fn) files; on_wal at_position

unfoldable pub replay_incomplete {ℓ} :
    {S : Type ℓ} → SequenceId → (Text → Io S (Unit {0})) → Io (DiskWal × S) SequenceId
replay_incomplete from fn (w, s) =
    if same_position from w
    then ((w, s), ok from)
    else if no_wal w
    then ((w, s), ok start_wal_sequence)
    else if is_newer from (cur_position w)
    then ((w, s), err newer_wal_than_history)
    else (do
      files ← on_wal list_wal_files
      replay_files fn (files_from (filename from.term from.collection from.seq) files))
        (w, s)
