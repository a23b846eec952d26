-- ===== src/Wal/Durable.antt =====
-- What a replay of the current file finds of the entries that were written to it
-- (`WriteEntry` and `replayFile` of internal/wal/wal.go).
use nekoq_bootstrap.Base.{
  Bool, List, Option, Outcome, Text, [], ap, append_assoc, append_nil, arith, err, false,
  file_closed, if◌then◌else◌, length, ltb, nat_key, none, ok, refl, some, suc, sym, text_key, true,
  ℕ, ◌*◌, ◌++◌, ◌+◌, ◌-◌, ◌<◌, ◌^◌, ◌∙◌, ◌∷◌, ◌≡◌, ◌≤◌,
}
use nekoq_bootstrap.Base.Io.{Io, continue, each}
use nekoq_bootstrap.Base.Maps.{insert, lookup-insert_self}
use nekoq_bootstrap.Wal.Bounds.{fit_or_rotate, guarantee_page-cases}
use nekoq_bootstrap.Wal.Chunks.{
  all_fit, entry_chunks, entry_chunks-joined, write_chunks, write_entry-entry_chunks,
}
use nekoq_bootstrap.Wal.Disk.{
  Answer, DiskWal, Handle, append_file, appended, closed, contents, opened, write_cur_file,
}
use nekoq_bootstrap.Wal.EmptyFile.{next_answer-success}
use nekoq_bootstrap.Wal.Page.{EntryType, prepare_data_buf_by_page, record_header_size}
use nekoq_bootstrap.Wal.Replay.{replay_content}
use nekoq_bootstrap.Wal.ReplayPages.{AllFit, pages_of, replay_content-pages_of}
use nekoq_bootstrap.Wal.Write.{
  cur_position, current_sequence, guarantee_page, put_page, record_max, rotate, write_data_page,
  write_entry,
}

-- The file `name` is open with this content, has room for `n` more pages, and the disk will not fail.
pub record IsWriting (name : Text) (size : ℕ) (content : Text) (n : ℕ) (w : DiskWal) : Type 0 where
  pub open_handle : w.cur_file ≡ some (opened name)
  pub no_failure : w.answers ≡ []
  pub page_size : w.max_page_size ≡ size
  pub content_there : contents name w.files ≡ content
  pub room : (w.page_occupied + n) * size ≤ w.max_file_size

-- The file after a page.
abbrev pub with_page : Text → Text → DiskWal → DiskWal
with_page name page w = record w {
  files = insert name (contents name w.files ++ page) w.files;
  cur_seq = w.cur_seq + 1;
  page_occupied = w.page_occupied + 1;
}

fits_one : (a n size limit : ℕ) → (a + suc n) * size ≤ limit → ltb limit ((a + 1) * size) ≡ false
fits_one a n size limit h = let less : (a + 1) * size ≤ limit = omega arith in not_beyond less
  where
    not_beyond : {x y : ℕ} → x ≤ y → ltb y x ≡ false
    not_beyond h = ground arith

guarantee_page-room :
    {name content : Text} {size n : ℕ} (w : DiskWal)
    → IsWriting name size content (suc n) w
    → guarantee_page 1 w ≡ (w, ok tt)
guarantee_page-room {size = size} {n} w h =
    let small : ltb w.max_file_size ((w.page_occupied + 1) * size) ≡ false =
      fits_one w.page_occupied n size w.max_file_size h.room in
    let small' : ltb w.max_file_size ((w.page_occupied + 1) * w.max_page_size) ≡ false =
      ap (λ z. ltb w.max_file_size ((w.page_occupied + 1) * z)) h.page_size ∙ small in
    guarantee_page-cases w
    ∙ ap (fit_or_rotate w) h.open_handle
    ∙ ap (λ (b : Bool). if b then rotate w else (w, ok tt)) small'

pub write_cur_file-opened :
    (name buf : Text) (w : DiskWal)
    → w.cur_file ≡ some (opened name)
    → w.answers ≡ []
    → write_cur_file buf w
      ≡ (record w { files = insert name (contents name w.files ++ buf) w.files }, ok tt)
unfolding write_cur_file append_file
write_cur_file-opened name buf w f a =
    ap
      (λ (o : Option Handle). elim o [
        | none ↦ (w, err file_closed)
        | some (closed name) ↦ (w, err file_closed)
        | some (opened name) ↦ append_file name buf w
      ])
      f
    ∙ ap (λ (r : Answer × DiskWal). appended r.0 name buf r.1) (next_answer-success w a)

pub put_page-IsWriting :
    {name content : Text} {size n : ℕ} (dat : Text) (t : EntryType) (w : DiskWal)
    → IsWriting name size content (suc n) w
    → put_page dat t w ≡ (with_page name (prepare_data_buf_by_page size dat t) w, ok tt)
unfolding put_page write_data_page
put_page-IsWriting {name} {size = size} dat t w h =
    ap (λ (r : DiskWal × Outcome (Unit {0})). continue r.1 (λ _. write_data_page dat t) r.0)
      (guarantee_page-room w h)
    ∙ ap
        (λ (r : DiskWal × Outcome (Unit {0})).
          continue r.1
            (λ _ (w' : DiskWal).
              (record w' { cur_seq = w'.cur_seq + 1; page_occupied = w'.page_occupied + 1 }, ok tt))
            r.0)
        (write_cur_file-opened name (prepare_data_buf_by_page w.max_page_size dat t) w h.open_handle
          h.no_failure)
    ∙ ap (λ z. (with_page name (prepare_data_buf_by_page z dat t) w, ok tt)) h.page_size

pub with_page-IsWriting :
    {name content : Text} {size n : ℕ} (page : Text) (w : DiskWal)
    → IsWriting name size content (suc n) w
    → IsWriting name size (content ++ page) n (with_page name page w)
with_page-IsWriting {name} {content} {size} {n} page w h = record {
  open_handle = h.open_handle;
  no_failure = h.no_failure;
  page_size = h.page_size;
  content_there =
      ap (λ (o : Option Text). elim o [ none ↦ [] | some bytes ↦ bytes ])
        (lookup-insert_self name (contents name w.files ++ page) w.files)
      ∙ ap (λ c. c ++ page) h.content_there;
  room = let r = h.room in omega arith;
}

-- Pages for which there is room are written one after the other.
each-put_page :
    {name : Text} {size : ℕ} (pages : List (EntryType × Text)) (content : Text) (w : DiskWal)
    → IsWriting name size content (length pages) w
    → ((each (λ (p : EntryType × Text). put_page p.1 p.0) pages w).1 ≡ ok tt)
      × IsWriting name size
          (content ++ pages_of size pages)
          0
          (each (λ (p : EntryType × Text). put_page p.1 p.0) pages w).0
unfolding each pages_of
each-put_page [] content w h = (refl, rw (append_nil content) h)
each-put_page {name} {size} ((t, dat) ∷ pages) content w h =
    let page = prepare_data_buf_by_page size dat t in
    let next = with_page-IsWriting page w h in
    let (done, there) = each-put_page pages (content ++ page) (with_page name page w) next in
    rw (put_page-IsWriting dat t w h)
      (done, rw (← append_assoc content page (pages_of size pages)) there)

pub pages_of-append :
    (size : ℕ) (old new : List (EntryType × Text))
    → pages_of size (old ++ new) ≡ pages_of size old ++ pages_of size new
unfolding pages_of
pages_of-append size [] new = refl
pages_of-append size ((t, dat) ∷ old) new =
    ap (λ rest. prepare_data_buf_by_page size dat t ++ rest) (pages_of-append size old new)
    ∙ sym
        (append_assoc (prepare_data_buf_by_page size dat t) (pages_of size old) (pages_of size new))

pub AllFit-append :
    (size : ℕ) (old new : List (EntryType × Text))
    → AllFit size old
    → all_fit (size - record_header_size) new ≡ true
    → AllFit size (old ++ new)
unfolding all_fit
AllFit-append size [] [] fits fit = tt
AllFit-append size [] ((t, dat) ∷ new) fits fit =
    (ground arith, AllFit-append size [] new tt (ground arith))
AllFit-append size ((t, dat) ∷ old) new (this, fits) fit =
    (this, AllFit-append size old new fits fit)

pub AllFit-snoc :
    (size : ℕ) (ps : List (EntryType × Text)) (t : EntryType) (dat : Text)
    → AllFit size ps
    → length dat ≤ size - record_header_size
    → AllFit size (ps ++ (t, dat) ∷ [])
AllFit-snoc size [] t dat fits h = (h, tt)
AllFit-snoc size (p ∷ ps) t dat (this, fits) h = (this, AllFit-snoc size ps t dat fits h)

pub pages_of-snoc :
    (size : ℕ) (ps : List (EntryType × Text)) (t : EntryType) (dat : Text)
    → pages_of size (ps ++ (t, dat) ∷ []) ≡ pages_of size ps ++ prepare_data_buf_by_page size dat t
pages_of-snoc size ps t dat =
    pages_of-append size ps ((t, dat) ∷ [])
    ∙ ap (λ page. pages_of size ps ++ page)
        (unfold pages_of in append_nil (prepare_data_buf_by_page size dat t))

pub write_chunks-done :
    (pages : List (EntryType × Text)) (w : DiskWal)
    → (each (λ (p : EntryType × Text). put_page p.1 p.0) pages w).1 ≡ ok tt
    → write_chunks pages w ≡ (
        let v = (each (λ (p : EntryType × Text). put_page p.1 p.0) pages w).0 in
        (record v { dirty = true }, ok (cur_position v)))
unfolding write_chunks
write_chunks-done pages w e = rw (write_chunks, e) refl

module _ {ℓ} {S : Type ℓ} (fn : Text → Io S (Unit {0})) where
  -- Where the current file is open with pages that fit, has room for the pages of an entry, and the
  -- disk does not fail, writing the entry succeeds with the current position, and replaying the
  -- file hands the earlier data and then that of the pages of the entry to the callback, in order,
  -- up to the first error. Pages are longer than their header and shorter than 65536 bytes.
  pub write_entry-replay :
      (name bytes : Text) (size : ℕ) (old : List (EntryType × Text)) (w : DiskWal) (s : S)
      → record_header_size < size
      → size < 2 ^ 16
      → AllFit size old
      → IsWriting name size
          (pages_of size old)
          (length (entry_chunks (size - record_header_size) bytes))
          w
      → ((write_entry bytes w).1 ≡ ok (current_sequence (write_entry bytes w).0))
        × (replay_content size fn (contents name (write_entry bytes w).0.files) s
            ≡ each
                (λ (p : EntryType × Text). fn p.1)
                (old ++ entry_chunks (size - record_header_size) bytes)
                s)
  unfolding current_sequence
  write_entry-replay name bytes size old w s h lt fits writing =
      let max = size - record_header_size in
      let pages = entry_chunks max bytes in
      let same : record_max w ≡ max = ap (λ z. z - record_header_size) writing.page_size in
      let v = (each (λ (p : EntryType × Text). put_page p.1 p.0) pages w).0 in
      let (done, there) = each-put_page pages (pages_of size old) w writing in
      let whole_entry : write_entry bytes w ≡ (record v { dirty = true }, ok (cur_position v)) =
        write_entry-entry_chunks bytes w (rw same (omega arith))
        ∙ ap (λ z. write_chunks (entry_chunks z bytes) w) same
        ∙ write_chunks-done pages w done in
      let content : contents name v.files ≡ pages_of size (old ++ pages) =
        there.content_there ∙ sym (pages_of-append size old pages) in
      let fit = AllFit-append size old pages fits (entry_chunks-joined max bytes (omega arith)).1 in
      rw whole_entry (
        refl,
        ap (λ c. replay_content size fn c s) content
            ∙ replay_content-pages_of fn size (old ++ pages) s (omega arith) lt fit,
      )
