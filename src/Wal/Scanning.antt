-- ===== src/Wal/Scanning.antt =====
-- What the two scans of a log file at a restart count (`readWalFileInfo` and `seekWalFileWritePoint` of
-- internal/wal/wal.go).
use mathlib.Core.Path.{ap₂}
use nekoq_bootstrap.Base.{
  List, Outcome, Text, [], ap, arith, false, leb, length, nat_same, ok, refl, suc, ℕ, ◌++◌, ◌+◌,
  ◌-◌, ◌<◌, ◌^◌, ◌∙◌, ◌∷◌, ◌≡◌, ◌≤◌,
}
use nekoq_bootstrap.Base.Io.{Io, continue, each}
use nekoq_bootstrap.Wal.Disk.{DiskWal, contents}
use nekoq_bootstrap.Wal.EmptyFile.{scan_and_finish}
use nekoq_bootstrap.Wal.Page.{
  EntryType, RecordInfo, entry_type_code, middle, prepare_data_buf_by_page, record_header_size,
}
use nekoq_bootstrap.Wal.PageRoundTrip.{page_records_info-prepare}
use nekoq_bootstrap.Wal.Read.{
  Scan, WalFileInfo, count_page, each_page, empty_scan, finish_info, last_code, scan_page,
}
use nekoq_bootstrap.Wal.ReplayPages.{AllFit, each_page-pages_of, pages_of}

abbrev record_of : EntryType × Text → RecordInfo
record_of (t, dat) = record { content = dat; code = entry_type_code t }

abbrev seen : EntryType × Text → Scan → Scan
seen p s = record {
  info = record {
    total_pages = s.info.total_pages + 1;
    total_valid_seq = s.info.total_valid_seq + 1;
    clean = s.info.clean;
  };
  last_records = record_of p ∷ [];
}

scan_page-prepare :
    (size : ℕ) (dat : Text) (t : EntryType) (s : Scan)
    → record_header_size ≤ size
    → size < 2 ^ 16
    → length dat ≤ size - record_header_size
    → scan_page (prepare_data_buf_by_page size dat t) s ≡ (seen (t, dat) s, ok tt)
unfolding scan_page
scan_page-prepare size dat t s h lt fits = rw (page_records_info-prepare size dat t h lt fits) refl

abbrev ended : ℕ → ℕ → EntryType × Text → Scan → Scan
ended n k p s = record {
  info = record { total_pages = n; total_valid_seq = k; clean = s.info.clean };
  last_records = record_of p ∷ [];
}

-- The scan after some pages and one more.
abbrev scan_end : List (EntryType × Text) → EntryType × Text → Scan → Scan
scan_end dats p s = record {
  info = record {
    total_pages = s.info.total_pages + (length dats + 1);
    total_valid_seq = s.info.total_valid_seq + (length dats + 1);
    clean = s.info.clean;
  };
  last_records = record_of p ∷ [];
}

each-seen :
    (dats : List (EntryType × Text)) (p : EntryType × Text) (s : Scan)
    → each (λ q s'. (seen q s', ok tt)) (dats ++ p ∷ []) s ≡ (scan_end dats p s, ok tt)
unfolding each
each-seen [] p s = refl
each-seen (q ∷ dats) p s =
    each-seen dats p (seen q s) ∙ ap₂ (λ n k. (ended n k p s, ok tt)) (omega arith) (omega arith)

each-count :
    (dats : List (EntryType × Text)) (w : DiskWal)
    → each (λ q w'. (record w' { page_occupied = w'.page_occupied + 1 }, ok tt)) dats w
      ≡ (record w { page_occupied = w.page_occupied + length dats }, ok tt)
unfolding each
each-count [] w = ap (λ n. (record w { page_occupied = n }, ok tt)) (omega arith)
each-count (q ∷ dats) w =
    each-count dats (record w { page_occupied = w.page_occupied + 1 })
    ∙ ap (λ n. (record w { page_occupied = n }, ok tt)) (omega arith)

abbrev pub count_seek : Text → Io DiskWal (Unit {0})
count_seek name w =
    each_page (suc (length (contents name w.files))) w.max_page_size count_page
      (contents name w.files) w

abbrev pub info_of : ℕ → WalFileInfo
info_of n = record { total_pages = n; total_valid_seq = n; clean = false }

-- A file of the folder is made of such pages, of which the last does not break off an entry, and the
-- disk will not fail.
pub record IsClosed (name : Text) (size : ℕ) (dats : List (EntryType × Text)) (p : EntryType × Text)
    (w : DiskWal) : Type 0 where
  pub no_failure : w.answers ≡ []
  pub page_size : w.max_page_size ≡ size
  pub content_there : contents name w.files ≡ pages_of size (dats ++ p ∷ [])
  pub at_end : nat_same (entry_type_code p.0) (entry_type_code middle) ≡ false

module _ (name : Text) (size : ℕ) (dats : List (EntryType × Text)) (p : EntryType × Text)
    (h : record_header_size ≤ size) (lt : size < 2 ^ 16) (fits : AllFit size (dats ++ p ∷ [])) where
  scan-pages_of :
      each_page
        (suc (length (pages_of size (dats ++ p ∷ []))))
        size
        scan_page
        (pages_of size (dats ++ p ∷ []))
        empty_scan
      ≡ (scan_end dats p empty_scan, ok tt)
  scan-pages_of =
      each_page-pages_of size scan_page (λ q s. (seen q s, ok tt))
        (λ dat t s fit. scan_page-prepare size dat t s h lt fit)
        (suc (length (pages_of size (dats ++ p ∷ [])))) (dats ++ p ∷ []) empty_scan h fits
        (omega arith)
      ∙ each-seen dats p empty_scan

  count-pages_of :
      (w : DiskWal)
      → each_page
          (suc (length (pages_of size (dats ++ p ∷ []))))
          size
          count_page
          (pages_of size (dats ++ p ∷ []))
          w
        ≡ (record w { page_occupied = w.page_occupied + length (dats ++ p ∷ []) }, ok tt)
  count-pages_of w =
      each_page-pages_of size count_page
        (λ q w'. (record w' { page_occupied = w'.page_occupied + 1 }, ok tt))
        (λ dat t s fit. unfold count_page in refl) (suc (length (pages_of size (dats ++ p ∷ []))))
        (dats ++ p ∷ []) w h fits (omega arith)
      ∙ each-count (dats ++ p ∷ []) w

  finish_info-closed :
      (v : DiskWal)
      → IsClosed name size dats p v
      → finish_info name (scan_end dats p empty_scan) v ≡ (v, ok (info_of (length dats + 1)))
  unfolding finish_info last_code
  finish_info-closed v c =
      let large : leb v.max_page_size 0 ≡ false = ap (λ n. leb n 0) c.page_size ∙ ground arith in
      rw large (rw c.at_end (ap (λ n. (v, ok (info_of n))) (omega arith)))

  pub scan_and_finish-closed :
      (v : DiskWal)
      → IsClosed name size dats p v
      → scan_and_finish name v ≡ (v, ok (info_of (length dats + 1)))
  scan_and_finish-closed v c =
      ap (λ (r : Scan × Outcome (Unit {0})). continue r.1 (λ _. finish_info name r.0) v)
        (ap₂ (λ content size'. each_page (suc (length content)) size' scan_page content empty_scan)
            c.content_there c.page_size
          ∙ scan-pages_of)
      ∙ finish_info-closed v c

  pub count_seek-closed :
      (v : DiskWal)
      → IsClosed name size dats p v
      → count_seek name v
        ≡ (record v { page_occupied = v.page_occupied + length (dats ++ p ∷ []) }, ok tt)
  count_seek-closed v c =
      ap₂ (λ content size'. each_page (suc (length content)) size' count_page content v)
        c.content_there c.page_size
      ∙ count-pages_of v
