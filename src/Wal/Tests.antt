-- ===== src/Wal/Tests.antt =====
-- Examples of the log at small pages and files.
use nekoq_bootstrap.Base.{
  List, Option, Text, [], and_then, ap, arith, codes, err, false, file_closed, inr, length, ltb,
  nat_key, nat_same, none, ok, panic, refl, some, text_key, text_same, true, ◌&&◌, ◌++◌, ◌+◌, ◌||◌,
  ◌∷◌, ◌≡◌,
}
use nekoq_bootstrap.Base.Io.{Io, each}
use nekoq_bootstrap.Base.Maps.{lookup, lookup-singleton}
use nekoq_bootstrap.Wal.Bounds.{IsBounded, write_entry-IsBounded}
use nekoq_bootstrap.Wal.Chunks.{
  all_fit, chunks, entry_chunks, joined, write_chunks, write_entry-chunks,
}
use nekoq_bootstrap.Wal.Disk.{DiskWal, contents, failure, opened, os_error, success}
use nekoq_bootstrap.Wal.Durable.{IsWriting, write_entry-replay}
use nekoq_bootstrap.Wal.EmptyFile.{read_wal_file_info-empty}
use nekoq_bootstrap.Wal.Files.{Page}
use nekoq_bootstrap.Wal.Names.{filename, walfilename}
use nekoq_bootstrap.Wal.NamesOrder.{text_lt-filename}
use nekoq_bootstrap.Wal.NamesRoundTrip.{walfilename-filename}
use nekoq_bootstrap.Wal.Order.{insert_name, sort_names, text_lt}
use nekoq_bootstrap.Wal.Page.{
  EntryType, entry_type_code, middle, page_records_info, prepare_data_buf_by_page, whole,
}
use nekoq_bootstrap.Wal.PageRoundTrip.{page_records_info-prepare}
use nekoq_bootstrap.Wal.Read.{initialize, last_name, read_wal_file_info, wal_names}
use nekoq_bootstrap.Wal.Recovering.{all_chunks, write_all}
use nekoq_bootstrap.Wal.Replay.{replay_content, replay_incomplete, start_wal_sequence}
use nekoq_bootstrap.Wal.ReplayPages.{pages_of, replay_content-pages_of}
use nekoq_bootstrap.Wal.Resume.{initialize-resumes}
use nekoq_bootstrap.Wal.Scanning.{IsClosed}
use nekoq_bootstrap.Wal.Stuck.{write_entry-rotation_fails}
use nekoq_bootstrap.Wal.WholeLog.{IsNew}
use nekoq_bootstrap.Wal.WholeReplay.{write_all-replay_incomplete}
use nekoq_bootstrap.Wal.Write.{current_sequence, record_max, write_entry}

abbrev small_wal : DiskWal
small_wal = record {
  cur_term = 1;
  cur_collection = 0;
  cur_seq = 0;
  page_occupied = 0;
  max_file_size = 32;
  max_page_size = 12;
  cur_file = none;
  dirty = false;
  files = [];
  answers = [];
}

abbrev hello : Text
hello = codes "hello"

page_records_info-prepare_example :
    page_records_info (prepare_data_buf_by_page 16 hello middle)
    ≡ ok (record { content = hello; code = entry_type_code middle } ∷ [])
page_records_info-prepare_example =
    page_records_info-prepare 16 hello middle (omega arith) (omega arith) (omega arith)

abbrev keep : Text → Io (List Text) (Unit {0})
keep dat seen = (dat ∷ seen, ok tt)

abbrev two_pages : List (EntryType × Text)
two_pages = (whole, hello) ∷ (whole, codes "you") ∷ []

replay_content-pages_of_example :
    replay_content 16 keep (pages_of 16 two_pages) []
    ≡ each (λ (p : EntryType × Text). keep p.1) two_pages []
replay_content-pages_of_example =
    replay_content-pages_of keep 16 two_pages [] (omega arith) (omega arith)
      (omega arith, (omega arith, tt))

write_entry-chunks_example :
    (pages : List (EntryType × Text)) × (joined pages ≡ hello)
    × (all_fit (record_max small_wal) pages ≡ true)
    × (write_entry hello small_wal ≡ write_chunks pages small_wal)
write_entry-chunks_example = write_entry-chunks hello small_wal (omega arith)

small-IsBounded : IsBounded small_wal
small-IsBounded = record { fits = omega arith; one = omega arith; unopened = λ _. refl }

write_entry-IsBounded_example : IsBounded (write_entry hello small_wal).0
write_entry-IsBounded_example = write_entry-IsBounded hello small_wal small-IsBounded

walfilename-filename_example :
    walfilename (filename 1 2 3) ≡ ok (filename 1 2 3, record { term = 1; collection = 2; seq = 0 })
walfilename-filename_example =
    walfilename-filename 1 2 3 (omega arith) (omega arith) (omega arith) (omega arith)

empty_there : contents (codes "f") small_wal.files ≡ []
unfolding lookup
empty_there = refl

read_wal_file_info-empty_example : (read_wal_file_info (codes "f") small_wal).1 ≡ panic
read_wal_file_info-empty_example =
    read_wal_file_info-empty (codes "f") small_wal empty_there refl refl

abbrev open_wal : DiskWal
open_wal = record {
  cur_term = 1;
  cur_collection = 1;
  cur_seq = 0;
  page_occupied = 0;
  max_file_size = 64;
  max_page_size = 16;
  cur_file = some (opened (codes "f"));
  dirty = false;
  files = (codes "f", []) ∷ [];
  answers = [];
}

one_page : entry_chunks 8 hello ≡ (whole, hello) ∷ []
unfolding entry_chunks
one_page = refl

open-IsWriting : IsWriting (codes "f") 16 (pages_of 16 []) 1 open_wal
unfolding lookup pages_of text_same
open-IsWriting = record {
  open_handle = refl;
  no_failure = refl;
  page_size = refl;
  content_there = refl;
  room = omega arith;
}

write_entry-replay_example :
    ((write_entry hello open_wal).1 ≡ ok (current_sequence (write_entry hello open_wal).0))
    × (replay_content 16 keep (contents (codes "f") (write_entry hello open_wal).0.files) []
        ≡ each (λ (p : EntryType × Text). keep p.1) ([] ++ entry_chunks 8 hello) [])
unfolding entry_chunks
write_entry-replay_example =
    write_entry-replay keep (codes "f") hello 16 [] open_wal [] (omega arith) (omega arith) tt
      open-IsWriting

text_lt-filename_example :
    text_lt (filename 1 15 7) (filename 1 16 0) ≡ (ltb 1 1 || (nat_same 1 1 && ltb 15 16))
text_lt-filename_example =
    text_lt-filename 1 15 7 1 16 0 (omega arith) (omega arith) (omega arith) (omega arith)

abbrev full_wal : DiskWal
full_wal = record open_wal { page_occupied = 4; answers = success ∷ failure 0 ∷ [] }

write_entry-rotation_fails_example :
    ((write_entry hello full_wal).1 ≡ err os_error)
    × (write_entry hello (write_entry hello full_wal).0
        ≡ ((write_entry hello full_wal).0, err file_closed))
write_entry-rotation_fails_example =
    write_entry-rotation_fails (codes "f") hello hello 0 [] full_wal refl (omega arith) (inr refl)

abbrev first_file : Text
first_file = filename 1 1 0

abbrev restarted : DiskWal
restarted = record open_wal {
  cur_file = none;
  files = (first_file, pages_of 16 ([] ++ (whole, hello) ∷ [])) ∷ [];
}

restarted-IsClosed : IsClosed first_file 16 [] (whole, hello) restarted
restarted-IsClosed = record {
  no_failure = refl;
  page_size = refl;
  content_there =
      ap (λ (o : Option Text). elim o [ none ↦ [] | some bytes ↦ bytes ])
        (lookup-singleton first_file (pages_of 16 ([] ++ (whole, hello) ∷ [])));
  at_end = refl;
}

first_sorted : sort_names (wal_names restarted.files) ≡ first_file ∷ []
unfolding sort_names insert_name wal_names
first_sorted =
    rw (walfilename-filename 1 1 0 (omega arith) (omega arith) (omega arith) (omega arith)) refl

last_first : last_name first_file [] ≡ filename 1 1 0
unfolding last_name
last_first = refl

initialize-resumes_example :
    ((initialize restarted).1 ≡ ok (record { term = 1; collection = 1; seq = 1 }))
    × (current_sequence (initialize restarted).0 ≡ record { term = 1; collection = 1; seq = 1 })
    × ((initialize restarted).0.cur_file ≡ some (opened first_file))
    × ((initialize restarted).0.page_occupied ≡ 0 + (length {A = EntryType × Text} [] + 1))
initialize-resumes_example =
    initialize-resumes 1 1 0 16 [] (whole, hello) first_file [] restarted (omega arith)
      (omega arith) (omega arith) (omega arith) (omega arith) (omega arith) (omega arith, tt)
      restarted-IsClosed first_sorted last_first

abbrev new_wal : DiskWal
new_wal = record {
  cur_term = 1;
  cur_collection = 0;
  cur_seq = 0;
  page_occupied = 0;
  max_file_size = 32;
  max_page_size = 16;
  cur_file = none;
  dirty = false;
  files = [];
  answers = [];
}

new_wal-IsNew : IsNew 16 new_wal
new_wal-IsNew = record {
  no_files = refl;
  no_handle = refl;
  no_failure = refl;
  page_size = refl;
  term = refl;
  collection = refl;
}

-- Two files: the second entry takes two pages, and a file has room for two.
abbrev two_entries : List Text
two_entries = codes "one" ∷ codes "of two pages" ∷ []

three_pages : length (all_chunks 16 two_entries) ≡ 3
unfolding entry_chunks chunks
three_pages = refl

abbrev gather : Text → Io (List Text) (Unit {0})
gather dat seen = (seen ++ dat ∷ [], ok tt)

write_all-replay_incomplete_example :
    (w' : DiskWal) × (write_all two_entries new_wal ≡ (w', ok tt))
    × (replay_incomplete start_wal_sequence gather (w', []) ≡ (
      (w', (each (λ (p : Page). gather p.1) (all_chunks 16 two_entries) []).0),
      and_then
          (each (λ (p : Page). gather p.1) (all_chunks 16 two_entries) []).1
          (λ _. ok (current_sequence w')),
    ))
write_all-replay_incomplete_example =
    write_all-replay_incomplete gather 16 two_entries new_wal [] (omega arith) (omega arith)
      (omega (arith, three_pages)) (omega (arith, three_pages)) new_wal-IsNew
