-- ===== src/Wal/EmptyFile.antt =====
-- How `Initialize` of internal/wal/wal.go meets a last file without pages.
use nekoq_bootstrap.Base.{
  List, Option, Outcome, Text, [], ap, false, leb, length, nat_key, none, ok, panic, refl, some,
  suc, text_key, ◌∙◌, ◌∷◌, ◌≡◌,
}
use nekoq_bootstrap.Base.Io.{Io, continue}
use nekoq_bootstrap.Base.Maps.{insert, lookup-insert_self}
use nekoq_bootstrap.Wal.Disk.{Answer, DiskWal, contents, next_answer, open_file, success, touched}
use nekoq_bootstrap.Wal.Read.{
  WalFileInfo, each_page, empty_scan, finish_info, last_code, read_wal_file_info, scan_page,
}

pub next_answer-success : (w : DiskWal) → w.answers ≡ [] → next_answer w ≡ (success, w)
unfolding next_answer
next_answer-success w a =
    ap
      (λ (answers : List Answer). elim answers [
        | [] ↦ (success, w)
        | a ∷ rest ↦ (a, record w { answers = rest })
      ])
      a

pub open_file-success :
    (name : Text) (w : DiskWal)
    → w.answers ≡ []
    → open_file name w ≡ (record w { files = insert name (contents name w.files) w.files }, ok tt)
unfolding open_file
open_file-success name w a =
    ap (λ (r : Answer × DiskWal). touched r.0 name r.1) (next_answer-success w a)

module _ (name : Text) (w : DiskWal) where
  -- The end of the scan of a file without pages asks for the record at index -1.
  finish_info-nothing :
      leb w.max_page_size 0 ≡ false
      → (finish_info name
          (record {
            info = record { total_pages = 0; total_valid_seq = 0; clean = false };
            last_records = [];
          })
          w).1
        ≡ panic
  unfolding finish_info last_code
  finish_info-nothing h = rw h refl

abbrev pub scan_and_finish : Text → Io DiskWal WalFileInfo
scan_and_finish name v =
    let content = contents name v.files in
    let (s, o) = each_page (suc (length content)) v.max_page_size scan_page content empty_scan in
    continue o (λ _. finish_info name s) v

scan_and_finish-nothing :
    (name : Text) (v : DiskWal)
    → contents name v.files ≡ []
    → leb v.max_page_size 0 ≡ false
    → (scan_and_finish name v).1 ≡ panic
unfolding each_page
scan_and_finish-nothing name v e h = rw e (finish_info-nothing name v h)

-- Scanning a log file without content panics instead of reporting that it has no pages, where pages
-- have a size and every call of the disk succeeds.
pub read_wal_file_info-empty :
    (name : Text) (w : DiskWal)
    → contents name w.files ≡ []
    → w.answers ≡ []
    → leb w.max_page_size 0 ≡ false
    → (read_wal_file_info name w).1 ≡ panic
unfolding read_wal_file_info
read_wal_file_info-empty name w e a h =
    let v : DiskWal = record w { files = insert name (contents name w.files) w.files } in
    let still : contents name v.files ≡ [] =
      ap (λ (o : Option Text). elim o [ none ↦ [] | some bytes ↦ bytes ])
        (lookup-insert_self name (contents name w.files) w.files)
      ∙ e in
    ap (λ (r : DiskWal × Outcome (Unit {0})). (continue r.1 (λ _. scan_and_finish name) r.0).1)
      (open_file-success name w a)
    ∙ scan_and_finish-nothing name v still h
