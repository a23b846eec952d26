-- ===== src/Wal/Resume.antt =====
-- Where a log goes on after a restart (`readWalFileInfo`, `seekWalFileWritePoint` and `Initialize` of
-- internal/wal/wal.go).
use nekoq_bootstrap.Base.{
  List, Option, Outcome, Text, [], ap, length, length-append, nat_key, none, ok, some, text_key, ℕ,
  ◌++◌, ◌+◌, ◌<◌, ◌^◌, ◌∙◌, ◌∷◌, ◌≡◌, ◌≤◌,
}
use nekoq_bootstrap.Base.Io.{Io, continue, ◌>>◌}
use nekoq_bootstrap.Base.Maps.{insert, lookup-insert_self}
use nekoq_bootstrap.Wal.Disk.{Answer, DiskWal, closed_outcome, contents, opened}
use nekoq_bootstrap.Wal.EmptyFile.{next_answer-success, open_file-success, scan_and_finish}
use nekoq_bootstrap.Wal.Names.{SequenceId, filename, int64_limit, walfilename}
use nekoq_bootstrap.Wal.NamesRoundTrip.{walfilename-filename}
use nekoq_bootstrap.Wal.Order.{sort_names}
use nekoq_bootstrap.Wal.Page.{EntryType, record_header_size}
use nekoq_bootstrap.Wal.Read.{
  WalFileInfo, at_position, initialize, last_name, list_wal_files, located, make_folder,
  read_wal_file_info, resume, resume_last, seek_wal_file_write_point, sequence_of, wal_names,
}
use nekoq_bootstrap.Wal.ReplayPages.{AllFit}
use nekoq_bootstrap.Wal.Scanning.{
  IsClosed, count_seek, count_seek-closed, info_of, scan_and_finish-closed,
}
use nekoq_bootstrap.Wal.Write.{current_sequence}

abbrev touched_wal : Text → DiskWal → DiskWal
touched_wal name w = record w { files = insert name (contents name w.files) w.files }

touched_wal-IsClosed :
    (name : Text) (size : ℕ) (dats : List (EntryType × Text)) (p : EntryType × Text) (w : DiskWal)
    → IsClosed name size dats p w
    → IsClosed name size dats p (touched_wal name w)
touched_wal-IsClosed name size dats p w c = record {
  no_failure = c.no_failure;
  page_size = c.page_size;
  content_there =
      ap (λ (o : Option Text). elim o [ none ↦ [] | some bytes ↦ bytes ])
        (lookup-insert_self name (contents name w.files) w.files)
      ∙ c.content_there;
  at_end = c.at_end;
}

-- What `resume` does after the scan.
abbrev go_on : Text → WalFileInfo → Io DiskWal SequenceId
go_on name info = do
  located info (sequence_of (walfilename name))
  seek_wal_file_write_point name
  at_position

abbrev opened_at : Text → Io DiskWal (Unit {0})
opened_at name w = (record w { cur_file = some (opened name) }, ok tt)

module _ (name : Text) (size : ℕ) (dats : List (EntryType × Text)) (p : EntryType × Text)
    (h : record_header_size ≤ size) (lt : size < 2 ^ 16) (fits : AllFit size (dats ++ p ∷ [])) where
  read_wal_file_info-closed :
      (w : DiskWal)
      → IsClosed name size dats p w
      → read_wal_file_info name w ≡ (touched_wal name w, ok (info_of (length dats + 1)))
  unfolding read_wal_file_info
  read_wal_file_info-closed w c =
      ap (λ (r : DiskWal × Outcome (Unit {0})). continue r.1 (λ _. scan_and_finish name) r.0)
        (open_file-success name w c.no_failure)
      ∙ scan_and_finish-closed name size dats p h lt fits (touched_wal name w)
          (touched_wal-IsClosed name size dats p w c)

  seek-closed :
      (w : DiskWal)
      → IsClosed name size dats p w
      → seek_wal_file_write_point name w ≡ (
        record (touched_wal name w) {
          page_occupied = w.page_occupied + length (dats ++ p ∷ []);
          cur_file = some (opened name);
        },
        ok tt,
      )
  unfolding seek_wal_file_write_point
  seek-closed w c =
      ap
        (λ (r : DiskWal × Outcome (Unit {0})).
          continue r.1
            (λ _ v. continue (count_seek name v).1 (λ _. opened_at name) (count_seek name v).0) r.0)
        (open_file-success name w c.no_failure)
      ∙ ap (λ (r : DiskWal × Outcome (Unit {0})). continue r.1 (λ _. opened_at name) r.0)
          (count_seek-closed name size dats p h lt fits (touched_wal name w)
            (touched_wal-IsClosed name size dats p w c))

abbrev placed : SequenceId → ℕ → DiskWal → DiskWal
placed at n w = record w { cur_seq = n; cur_term = at.term; cur_collection = at.collection }

-- The log after it has taken its place in a file with `n` pages.
abbrev pub resumed : Text → SequenceId → ℕ → ℕ → DiskWal → DiskWal
resumed name at n pages w = record (touched_wal name (placed at n w)) {
  page_occupied = w.page_occupied + pages;
  cur_file = some (opened name);
}

make_folder-success : (w : DiskWal) → w.answers ≡ [] → make_folder w ≡ (w, ok tt)
make_folder-success w a =
    ap (λ (r : Answer × DiskWal). (r.1, closed_outcome r.0)) (next_answer-success w a)

list_wal_files-success :
    (w : DiskWal) → w.answers ≡ [] → list_wal_files w ≡ (w, ok (sort_names (wal_names w.files)))
unfolding list_wal_files
list_wal_files-success w a =
    ap
      (λ (r : Answer × DiskWal).
        continue (closed_outcome r.0) (λ _ w''. (w'', ok (sort_names (wal_names w''.files)))) r.1)
      (next_answer-success w a)

module _ (name : Text) (at : SequenceId) (size : ℕ) (dats : List (EntryType × Text))
    (p : EntryType × Text) (h : record_header_size ≤ size) (lt : size < 2 ^ 16)
    (fits : AllFit size (dats ++ p ∷ [])) (named : walfilename name ≡ ok (name, at)) where
  abbrev position_there : SequenceId
  position_there = record { term = at.term; collection = at.collection; seq = length dats + 1 }

  go_on-closed :
      (w : DiskWal)
      → IsClosed name size dats p w
      → go_on name (info_of (length dats + 1)) w
        ≡ (resumed name at (length dats + 1) (length dats + 1) w, ok position_there)
  go_on-closed w c =
      let c' : IsClosed name size dats p (placed at (length dats + 1) w) = record {
        no_failure = c.no_failure;
        page_size = c.page_size;
        content_there = c.content_there;
        at_end = c.at_end;
      } in
      ap
        (λ (o : Outcome (Text × SequenceId)).
          continue (seek_wal_file_write_point name (placed (sequence_of o) (length dats + 1) w)).1
            (λ _. at_position)
            (seek_wal_file_write_point name (placed (sequence_of o) (length dats + 1) w)).0)
        named
      ∙ ap (λ (r : DiskWal × Outcome (Unit {0})). continue r.1 (λ _. at_position) r.0)
          (seek-closed name size dats p h lt fits (placed at (length dats + 1) w) c')
      ∙ ap (λ pages. (resumed name at (length dats + 1) pages w, ok position_there))
          (length-append dats (p ∷ []))

  resume-closed :
      (w : DiskWal)
      → IsClosed name size dats p w
      → resume name w ≡ (
        resumed name at (length dats + 1) (length dats + 1) (touched_wal name w),
        ok position_there,
      )
  unfolding resume
  resume-closed w c =
      ap (λ (r : DiskWal × Outcome WalFileInfo). continue r.1 (go_on name) r.0)
        (read_wal_file_info-closed name size dats p h lt fits w c)
      ∙ go_on-closed (touched_wal name w) (touched_wal-IsClosed name size dats p w c)

  initialize-closed :
      (first : Text) (rest : List Text) (w : DiskWal)
      → IsClosed name size dats p w
      → sort_names (wal_names w.files) ≡ first ∷ rest
      → last_name first rest ≡ name
      → initialize w ≡ (
        resumed name at (length dats + 1) (length dats + 1) (touched_wal name w),
        ok position_there,
      )
  unfolding initialize
  initialize-closed first rest w c sorted last =
      ap
        (λ (r : DiskWal × Outcome (Unit {0})).
          continue r.1 (λ _ v. continue (list_wal_files v).1 resume_last (list_wal_files v).0) r.0)
        (make_folder-success w c.no_failure)
      ∙ ap (λ (r : DiskWal × Outcome (List Text)). continue r.1 resume_last r.0)
          (list_wal_files-success w c.no_failure)
      ∙ ap (λ names. resume_last names w) sorted
      ∙ ap (λ last_one. resume last_one w) last
      ∙ resume-closed w c

-- Where the last of the log files has the name of a term and a collection that are positive and fit an
-- int64, is made of pages of data that fits, at least one, and does not end in the middle of an
-- entry, and no call of the disk fails, Initialize goes on in that file, at the number of its pages,
-- and counts them as occupied.
pub initialize-resumes :
    (term collection seq size : ℕ) (dats : List (EntryType × Text)) (p : EntryType × Text)
    (first : Text) (rest : List Text) (w : DiskWal)
    → 0 < term
    → 0 < collection
    → term < int64_limit
    → collection < int64_limit
    → record_header_size ≤ size
    → size < 2 ^ 16
    → AllFit size (dats ++ p ∷ [])
    → IsClosed (filename term collection seq) size dats p w
    → sort_names (wal_names w.files) ≡ first ∷ rest
    → last_name first rest ≡ filename term collection seq
    → ((initialize w).1
        ≡ ok (record { term = term; collection = collection; seq = length dats + 1 }))
      × (current_sequence (initialize w).0
          ≡ record { term = term; collection = collection; seq = length dats + 1 })
      × ((initialize w).0.cur_file ≡ some (opened (filename term collection seq)))
      × ((initialize w).0.page_occupied ≡ w.page_occupied + (length dats + 1))
unfolding current_sequence
initialize-resumes term collection seq size dats p first rest w pt pc lt lc h lt' fits c sorted
      last =
    let at : SequenceId = record { term = term; collection = collection; seq = 0 } in
    let e =
      initialize-closed (filename term collection seq) at size dats p h lt' fits
        (walfilename-filename term collection seq pt pc lt lc) first rest w c sorted last in
    (
      ap (λ (r : DiskWal × Outcome SequenceId). r.1) e,
      ap (λ (r : DiskWal × Outcome SequenceId). current_sequence r.0) e,
      ap (λ (r : DiskWal × Outcome SequenceId). r.0.cur_file) e,
      ap (λ (r : DiskWal × Outcome SequenceId). r.0.page_occupied) e,
    )
