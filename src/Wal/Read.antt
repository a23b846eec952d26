-- ===== src/Wal/Read.antt =====
-- Reading log files: `readWalFileInfo`, `seekWalFileWritePoint`, `listWalFiles` and `Initialize` of
-- internal/wal/wal.go. The folder holds no directories, so the walk meets its files.
use nekoq_bootstrap.Base.{
  Bool, List, Outcome, Text, [], drop, err, false, if◌then◌else◌, leb, length, ltb, nat_same, ok,
  panic, some, suc, take, true, unexpected_eof, zero, ℕ, ◌+◌, ◌∷◌,
}
use nekoq_bootstrap.Base.Io.{Io, continue, pure, ◌>>=◌, ◌>>◌}
use nekoq_bootstrap.Base.Maps.{Map, is_empty}
use nekoq_bootstrap.MemStore.PeerData.{names}
use nekoq_bootstrap.Wal.Disk.{
  DiskWal, append_file, closed_outcome, contents, next_answer, open_file, opened,
}
use nekoq_bootstrap.Wal.Names.{SequenceId, walfilename}
use nekoq_bootstrap.Wal.Order.{sort_names}
use nekoq_bootstrap.Wal.Page.{
  RecordInfo, broken_end, entry_type_code, middle, page_records_info, prepare_data_buf_by_page,
}
use nekoq_bootstrap.Wal.Write.{cur_position}

-- The loop of io.ReadFull over the pages of a file, with a body that may return. Fuel
-- `suc (length content)` is enough.
unfoldable pub each_page {ℓ} :
    {S : Type ℓ} → ℕ → ℕ → (Text → Io S (Unit {0})) → Text → Io S (Unit {0})
each_page zero size body content s = (s, panic)
each_page (suc fuel) size body content s =
    if is_empty content
    then (s, ok tt)
    else if ltb (length content) size
    then (s, err unexpected_eof)
    else (body (take size content) >> each_page fuel size body (drop size content)) s

pub record WalFileInfo : Type 0 where
  pub total_pages : ℕ
  pub total_valid_seq : ℕ
  pub clean : Bool

-- What the loop of readWalFileInfo keeps: the result so far and the records of the last page.
pub record Scan : Type 0 where
  pub info : WalFileInfo
  pub last_records : List RecordInfo

abbrev scanned : List RecordInfo → Scan → Scan
scanned records s = record {
  info = record {
    total_pages = s.info.total_pages + 1;
    total_valid_seq = s.info.total_valid_seq + length records;
    clean = s.info.clean;
  };
  last_records = records;
}

unfoldable pub scan_page : Text → Io Scan (Unit {0})
scan_page page s = continue (page_records_info page) (λ records s'. (scanned records s', ok tt)) s

abbrev pub empty_scan : Scan
empty_scan = record {
  info = record { total_pages = 0; total_valid_seq = 0; clean = false };
  last_records = [];
}

-- lastRecordsInfo[len(lastRecordsInfo)-1].Type; an index of -1 panics.
unfoldable pub last_code : List RecordInfo → Outcome ℕ
last_code [] = panic
last_code (r ∷ []) = ok r.code
last_code (r ∷ q ∷ rest) = last_code (q ∷ rest)

-- The end of readWalFileInfo, after the loop over the pages.
unfoldable pub finish_info : Text → Scan → Io DiskWal WalFileInfo
unfolding last_code
finish_info file s w =
    if leb w.max_page_size 0
    then (w, ok (record { total_pages = 0; total_valid_seq = 0; clean = true }))
    else continue (last_code s.last_records)
        (λ code.
          if nat_same code (entry_type_code middle)
          then (do
            append_file file (prepare_data_buf_by_page w.max_page_size [] broken_end)
            pure (record {
              total_pages = s.info.total_pages + 1;
              total_valid_seq = s.info.total_valid_seq + 1;
              clean = s.info.clean;
            }))
          else pure s.info)
        w

unfoldable pub read_wal_file_info : Text → Io DiskWal WalFileInfo
unfolding finish_info
read_wal_file_info file = do
  open_file file
  (λ w.
      let content = contents file w.files in
      let (s, o) = each_page (suc (length content)) w.max_page_size scan_page content empty_scan in
      continue o (λ _. finish_info file s) w)

-- The body of the loop of seekWalFileWritePoint.
unfoldable pub count_page : Text → Io DiskWal (Unit {0})
count_page page w = (record w { page_occupied = w.page_occupied + 1 }, ok tt)

unfoldable pub seek_wal_file_write_point : Text → Io DiskWal (Unit {0})
seek_wal_file_write_point name = do
  open_file name
  (λ w.
      let content = contents name w.files in
      each_page (suc (length content)) w.max_page_size count_page content w)
  (λ w. (record w { cur_file = some (opened name) }, ok tt))

abbrev is_ok {ℓ} : {A : Type ℓ} → Outcome A → Bool
is_ok (ok a) = true
is_ok (err e) = false
is_ok panic = false

-- The names of log files among the names of a folder.
unfoldable pub wal_names : Map Text Text → List Text
wal_names [] = []
wal_names ((name, content) ∷ files) =
    let rest = wal_names files in if is_ok (walfilename name) then name ∷ rest else rest

-- afero.Walk, which may fail before it has met a file.
unfoldable pub list_wal_files : Io DiskWal (List Text)
list_wal_files w =
    let (a, w') = next_answer w in
    continue (closed_outcome a) (λ _ w''. (w'', ok (sort_names (wal_names w''.files)))) w'

unfoldable pub last_name : Text → List Text → Text
last_name name [] = name
last_name name (n ∷ ns) = last_name n ns

abbrev pub sequence_of : Outcome (Text × SequenceId) → SequenceId
sequence_of (ok (name, seq)) = seq
sequence_of (err e) = record { term = 0; collection = 0; seq = 0 }
sequence_of panic = record { term = 0; collection = 0; seq = 0 }

abbrev pub located : WalFileInfo → SequenceId → Io DiskWal (Unit {0})
located info seq w = (
  record w { cur_seq = info.total_valid_seq; cur_term = seq.term; cur_collection = seq.collection },
  ok tt,
)

abbrev pub at_position : Io DiskWal SequenceId
at_position w = (w, ok (cur_position w))

-- Initialize with log files in the folder, of which this is the last.
unfoldable pub resume : Text → Io DiskWal SequenceId
resume name = do
  info ← read_wal_file_info name
  located info (sequence_of (walfilename name))
  seek_wal_file_write_point name
  at_position

abbrev pub make_folder : Io DiskWal (Unit {0})
make_folder w = let (a, w') = next_answer w in (w', closed_outcome a)

abbrev pub reset_position : Io DiskWal (Unit {0})
reset_position w = (record w { cur_term = 1; cur_collection = 0; cur_seq = 0 }, ok tt)

abbrev pub resume_last : List Text → Io DiskWal SequenceId
resume_last [] = do reset_position; at_position
resume_last (name ∷ rest) = resume (last_name name rest)

unfoldable pub initialize : Io DiskWal SequenceId
initialize = do make_folder; names ← list_wal_files; resume_last names

-- One turn of the background loop that Initialize starts.
unfoldable pub background_sync : DiskWal → DiskWal
background_sync w = record w { dirty = false }
