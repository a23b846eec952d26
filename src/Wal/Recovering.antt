-- ===== src/Wal/Recovering.antt =====
-- What is recovered of a log that was written from its start, over all its files (`WriteEntry` and
-- `ReplayIncomplete` of internal/wal/wal.go).
use nekoq_bootstrap.Base.{
  List, Text, [], ap, append_assoc, append_nil, arith, length, length-append, ok, refl, subst, true,
  ℕ, ◌++◌, ◌+◌, ◌-◌, ◌<◌, ◌∙◌, ◌∷◌, ◌≡◌,
}
use nekoq_bootstrap.Base.Io.{Io, each, ◌>>◌}
use nekoq_bootstrap.Wal.Chunks.{entry_chunks, write_chunks, write_entry-entry_chunks}
use nekoq_bootstrap.Wal.Disk.{DiskWal}
use nekoq_bootstrap.Wal.Durable.{write_chunks-done}
use nekoq_bootstrap.Wal.Files.{Page}
use nekoq_bootstrap.Wal.Names.{int64_limit}
use nekoq_bootstrap.Wal.Page.{record_header_size}
use nekoq_bootstrap.Wal.WholeLog.{Holds, put_page-Holds}
use nekoq_bootstrap.Wal.Write.{cur_position, put_page, record_max, write_entry}

-- Entries written one after the other, up to the first error.
unfoldable pub write_all : List Text → Io DiskWal (Unit {0})
write_all texts = each (λ bytes. do write_entry bytes; (λ w. (w, ok tt))) texts

-- The pages of some entries.
abbrev pub all_chunks : ℕ → List Text → List Page
all_chunks size [] = []
all_chunks size (bytes ∷ texts) =
    entry_chunks (size - record_header_size) bytes ++ all_chunks size texts

put_pages-Holds :
    (size : ℕ) (pages done : List Page) (w : DiskWal)
    → 2 + length (done ++ pages) < int64_limit
    → Holds size done w
    → (w' : DiskWal) × (each (λ (p : Page). put_page p.1 p.0) pages w ≡ (w', ok tt))
      × Holds size (done ++ pages) w'
unfolding each
put_pages-Holds size [] done w limit h = (w, refl, rw (append_nil done) h)
put_pages-Holds size ((t, dat) ∷ pages) done w limit h =
    let (w1, put, h1) =
      put_page-Holds size done t dat w (omega (arith, length-append done ((t, dat) ∷ pages))) h in
    let same = append_assoc done ((t, dat) ∷ []) pages in
    let (w2, all_put, h2) =
      put_pages-Holds size pages (done ++ (t, dat) ∷ []) w1 (rw same limit) h1 in
    (w2, rw put all_put, subst (λ ps. Holds size ps w2) same h2)

Holds-dirty :
    (size : ℕ) (done : List Page) (w : DiskWal)
    → Holds size done w
    → Holds size done (record w { dirty = true })
Holds-dirty size [] w h = record {
  no_files = h.no_files;
  no_handle = h.no_handle;
  no_failure = h.no_failure;
  page_size = h.page_size;
  term = h.term;
  collection = h.collection;
}
Holds-dirty size (p ∷ done) w (older, cur, l, same, short) = (
  older,
  cur,
  record {
    files_there = l.files_there;
    handle = l.handle;
    no_failure = l.no_failure;
    page_size = l.page_size;
    term = l.term;
    collection = l.collection;
    sequence = l.sequence;
  },
  same,
  short,
)

Holds-page_size :
    (size : ℕ) (done : List Page) (w : DiskWal) → Holds size done w → w.max_page_size ≡ size
Holds-page_size size [] w h = h.page_size
Holds-page_size size (p ∷ done) w (older, cur, l, same, short) = l.page_size

pub write_entry-Holds :
    (size : ℕ) (bytes : Text) (done : List Page) (w : DiskWal)
    → record_header_size < size
    → 2 + length (done ++ entry_chunks (size - record_header_size) bytes) < int64_limit
    → Holds size done w
    → (w' : DiskWal) × (write_entry bytes w ≡ (w', ok (cur_position w')))
      × Holds size (done ++ entry_chunks (size - record_header_size) bytes) w'
write_entry-Holds size bytes done w lt limit h =
    let max = size - record_header_size in
    let pages = entry_chunks max bytes in
    let room : record_max w ≡ max =
      ap (λ z. z - record_header_size) (Holds-page_size size done w h) in
    let (w', all_put, h') = put_pages-Holds size pages done w limit h in
    (
      record w' { dirty = true },
      write_entry-entry_chunks bytes w (rw room (omega arith))
          ∙ ap (λ z. write_chunks (entry_chunks z bytes) w) room
          ∙ (write_chunks-done pages w (ap (λ r. r.1) all_put)
              ∙ ap (λ (v : DiskWal). (record v { dirty = true }, ok (cur_position v)))
                  (ap (λ r. r.0) all_put)),
      Holds-dirty size (done ++ pages) w' h',
    )

pub write_all-Holds :
    (size : ℕ) (texts : List Text) (done : List Page) (w : DiskWal)
    → record_header_size < size
    → 2 + length (done ++ all_chunks size texts) < int64_limit
    → Holds size done w
    → (w' : DiskWal) × (write_all texts w ≡ (w', ok tt))
      × Holds size (done ++ all_chunks size texts) w'
unfolding write_all each
write_all-Holds size [] done w lt limit h = (w, refl, rw (append_nil done) h)
write_all-Holds size (bytes ∷ texts) done w lt limit h =
    let chunks = entry_chunks (size - record_header_size) bytes in
    let same = append_assoc done chunks (all_chunks size texts) in
    let (w1, wrote, h1) =
      write_entry-Holds size bytes done w lt
        (omega (
          arith,
          length-append done chunks,
          length-append done (chunks ++ all_chunks size texts),
          length-append chunks (all_chunks size texts),
        ))
        h in
    let (w2, wrote_all, h2) =
      write_all-Holds size texts (done ++ chunks) w1 lt (rw same limit) h1 in
    (w2, rw wrote wrote_all, subst (λ ps. Holds size ps w2) same h2)
