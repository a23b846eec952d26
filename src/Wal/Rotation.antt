-- ===== src/Wal/Rotation.antt =====
-- A log over all its files (`guaranteePage`, `writeDataPage` of internal/wal/wal.go), on a disk that does
-- not fail.
use nekoq_bootstrap.Base.{
  List, Text, [], ap, arith, length, length-append, nat_key, ok, refl, some, sym, text_key, ℕ, ◌++◌,
  ◌+◌, ◌<◌, ◌∙◌, ◌∷◌, ◌≡◌,
}
use nekoq_bootstrap.Base.Maps.{insert}
use nekoq_bootstrap.Wal.Disk.{
  Answer, DiskWal, close_cur_file, closed, closed_outcome, contents, opened,
}
use nekoq_bootstrap.Wal.Durable.{pages_of-snoc, write_cur_file-opened}
use nekoq_bootstrap.Wal.EmptyFile.{next_answer-success, open_file-success}
use nekoq_bootstrap.Wal.Files.{
  Page, contents-absent, contents-found, files_of, files_of-snoc, insert-absent, insert-last,
  lookup-files_of, lookup-last, name_of,
}
use nekoq_bootstrap.Wal.Names.{filename, int64_limit}
use nekoq_bootstrap.Wal.Page.{EntryType, prepare_data_buf_by_page}
use nekoq_bootstrap.Wal.ReplayPages.{pages_of}
use nekoq_bootstrap.Wal.Write.{open_cur_file, rotate, write_data_page}

-- The files before the current one hold `older`, and the current one holds `cur`.
pub record Logged (size : ℕ) (older : List (List Page)) (cur : List Page) (w : DiskWal)
    : Type 0 where
  pub files_there : w.files ≡ files_of size 1 (older ++ cur ∷ [])
  pub handle : w.cur_file ≡ some (opened (name_of (1 + length older)))
  pub no_failure : w.answers ≡ []
  pub page_size : w.max_page_size ≡ size
  pub term : w.cur_term ≡ 1
  pub collection : w.cur_collection ≡ 1 + length older
  pub sequence : w.cur_seq ≡ length cur

close_cur_file-success :
    (name : Text) (w : DiskWal)
    → w.cur_file ≡ some (opened name)
    → w.answers ≡ []
    → close_cur_file w ≡ (record w { cur_file = some (closed name) }, ok tt)
unfolding close_cur_file
close_cur_file-success name w f a =
    rw (close_cur_file, f)
      (ap
        (λ (r : Answer × DiskWal).
          (record r.1 { cur_file = some (closed name) }, closed_outcome r.0))
        (next_answer-success w a))

-- The files with the page at the end of the last one.
page_appended :
    (size : ℕ) (older : List (List Page)) (cur : List Page) (t : EntryType) (dat : Text)
    → 1 + length older < int64_limit
    → let files = files_of size 1 (older ++ cur ∷ []) in
      let name = name_of (1 + length older) in
      insert name (contents name files ++ prepare_data_buf_by_page size dat t) files
      ≡ files_of size 1 (older ++ (cur ++ (t, dat) ∷ []) ∷ [])
page_appended size older cur t dat limit =
    let files = files_of size 1 older in
    let name = name_of (1 + length older) in
    let page = prepare_data_buf_by_page size dat t in
    let absent = lookup-files_of size 1 older (1 + length older) (omega arith) limit in
    rw (files_of-snoc size 1 older cur) (
      rw
        (contents-found name (pages_of size cur) (files ++ (name, pages_of size cur) ∷ [])
          (lookup-last name (pages_of size cur) files absent))
        (insert-last name (pages_of size cur) (pages_of size cur ++ page) files absent
          ∙ ap (λ c. files ++ (name, c) ∷ []) (sym (pages_of-snoc size cur t dat))
          ∙ sym (files_of-snoc size 1 older (cur ++ (t, dat) ∷ []))))

-- A new file after the last one.
file_added :
    (size : ℕ) (older : List (List Page)) (cur : List Page)
    → 2 + length older < int64_limit
    → let files = files_of size 1 (older ++ cur ∷ []) in
      let name = name_of (2 + length older) in
      insert name (contents name files) files ≡ files_of size 1 ((older ++ cur ∷ []) ++ [] ∷ [])
unfolding pages_of
file_added size older cur limit =
    let all = older ++ cur ∷ [] in
    let more : 1 + length all ≡ 2 + length older = omega (arith, length-append older (cur ∷ [])) in
    let absent = lookup-files_of size 1 all (2 + length older) (omega arith) limit in
    rw (contents-absent (name_of (2 + length older)) (files_of size 1 all) absent) (
      insert-absent (name_of (2 + length older)) [] (files_of size 1 all) absent
      ∙ ap (λ c. files_of size 1 all ++ (name_of c, []) ∷ []) (sym more)
      ∙ sym (files_of-snoc size 1 all []))

-- The log with a new file of the next collection.
abbrev pub next_file : DiskWal → DiskWal
next_file w =
    let name = filename w.cur_term (w.cur_collection + 1) 0 in
    record w {
      cur_collection = w.cur_collection + 1;
      cur_seq = 0;
      page_occupied = 0;
      cur_file = some (opened name);
      files = insert name (contents name w.files) w.files;
    }

pub rotate-success :
    (name : Text) (w : DiskWal)
    → w.cur_file ≡ some (opened name)
    → w.answers ≡ []
    → rotate w ≡ (next_file w, ok tt)
unfolding rotate open_cur_file filename
rotate-success name w f a = rw (close_cur_file-success name w f a) (
    rw
      (open_file-success (filename w.cur_term (w.cur_collection + 1) 0)
        (record w {
          cur_collection = w.cur_collection + 1;
          cur_seq = 0;
          page_occupied = 0;
          cur_file = some (closed name);
        })
        a)
      refl)

pub next_file-Logged :
    (size : ℕ) (older : List (List Page)) (cur : List Page) (w : DiskWal)
    → 2 + length older < int64_limit
    → Logged size older cur w
    → Logged size (older ++ cur ∷ []) [] (next_file w)
next_file-Logged size older cur w limit l =
    let count : w.cur_collection + 1 ≡ 2 + length older = (let c = l.collection in omega arith) in
    let more : 2 + length older ≡ 1 + length (older ++ cur ∷ []) =
      omega (arith, length-append older (cur ∷ [])) in
    let name : filename w.cur_term (w.cur_collection + 1) 0 ≡ name_of (2 + length older) =
      ap (λ t. filename t (w.cur_collection + 1) 0) l.term ∙ ap name_of count in
    record {
      files_there =
          ap (λ n. insert n (contents n w.files) w.files) name
          ∙ ap
              (λ m. insert (name_of (2 + length older)) (contents (name_of (2 + length older)) m) m)
              l.files_there
          ∙ file_added size older cur limit;
      handle = ap (λ n. some (opened n)) (name ∙ ap name_of more);
      no_failure = l.no_failure;
      page_size = l.page_size;
      term = l.term;
      collection = count ∙ more;
      sequence = refl;
    }

pub write_data_page-Logged :
    (size : ℕ) (older : List (List Page)) (cur : List Page) (t : EntryType) (dat : Text)
    (w : DiskWal)
    → 1 + length older < int64_limit
    → Logged size older cur w
    → (w' : DiskWal) × (write_data_page dat t w ≡ (w', ok tt))
      × Logged size older (cur ++ (t, dat) ∷ []) w'
unfolding write_data_page
write_data_page-Logged size older cur t dat w limit l =
    let name = name_of (1 + length older) in
    (
      record w {
        files =
            insert name (contents name w.files ++ prepare_data_buf_by_page w.max_page_size dat t)
              w.files;
        cur_seq = w.cur_seq + 1;
        page_occupied = w.page_occupied + 1;
      },
      rw
          (write_cur_file-opened name (prepare_data_buf_by_page w.max_page_size dat t) w l.handle
            l.no_failure)
          refl,
      record {
        files_there =
            ap
              (λ z. insert name (contents name w.files ++ prepare_data_buf_by_page z dat t) w.files)
              l.page_size
            ∙ ap (λ m. insert name (contents name m ++ prepare_data_buf_by_page size dat t) m)
                l.files_there
            ∙ page_appended size older cur t dat limit;
        handle = l.handle;
        no_failure = l.no_failure;
        page_size = l.page_size;
        term = l.term;
        collection = l.collection;
        sequence = (let s = l.sequence in omega (arith, s, length-append cur ((t, dat) ∷ [])));
      },
    )
