-- ===== src/Wal/Listing.antt =====
-- Finding the files of a log from its start (`listWalFiles` and `ReplayIncomplete` of
-- internal/wal/wal.go).
use nekoq_bootstrap.Base.{
  List, Text, [], ap, arith, false, length, ltb, none, ok, refl, some, ℕ, ◌+◌, ◌<◌, ◌∙◌, ◌∷◌, ◌≡◌,
}
use nekoq_bootstrap.Wal.Disk.{DiskWal}
use nekoq_bootstrap.Wal.EmptyFile.{next_answer-success}
use nekoq_bootstrap.Wal.Files.{Page, files_of, name_of, text_lt-name_of}
use nekoq_bootstrap.Wal.Names.{filename, int64_limit}
use nekoq_bootstrap.Wal.NamesRoundTrip.{walfilename-filename}
use nekoq_bootstrap.Wal.Order.{insert_name, sort_names}
use nekoq_bootstrap.Wal.Read.{list_wal_files, wal_names}
use nekoq_bootstrap.Wal.Replay.{files_from}

-- The names of files, from a collection on.
abbrev pub names_from : ℕ → List (List Page) → List Text
names_from c [] = []
names_from c (f ∷ fs) = name_of c ∷ names_from (c + 1) fs

wal_names-files_of :
    (size c : ℕ) (fs : List (List Page))
    → 0 < c
    → c + length fs < int64_limit
    → wal_names (files_of size c fs) ≡ names_from c fs
unfolding wal_names files_of
wal_names-files_of size c [] p limit = refl
wal_names-files_of size c (f ∷ fs) p limit =
    rw (walfilename-filename 1 c 0 (omega arith) p (omega arith) (omega arith)) (
      ap (λ names. name_of c ∷ names)
        (wal_names-files_of size (c + 1) fs (omega arith) (omega arith)))

not_before : {a b : ℕ} → a < b → ltb b a ≡ false
not_before lt = ground arith

insert_name-names_from :
    (c : ℕ) (fs : List (List Page))
    → c + 1 + length fs < int64_limit
    → insert_name (name_of c) (names_from (c + 1) fs) ≡ name_of c ∷ names_from (c + 1) fs
unfolding insert_name
insert_name-names_from c [] limit = refl
insert_name-names_from c (f ∷ fs) limit =
    rw
      (text_lt-name_of (c + 1) c (omega arith) (omega arith)
        ∙ not_before {a = c} {b = c + 1} (omega arith))
      refl

sort_names-names_from :
    (c : ℕ) (fs : List (List Page))
    → c + length fs < int64_limit
    → sort_names (names_from c fs) ≡ names_from c fs
unfolding sort_names
sort_names-names_from c [] limit = refl
sort_names-names_from c (f ∷ fs) limit =
    ap (insert_name (name_of c)) (sort_names-names_from (c + 1) fs (omega arith))
    ∙ insert_name-names_from c fs (omega arith)

pub list_wal_files-files_of :
    (size : ℕ) (fs : List (List Page)) (w : DiskWal)
    → 1 + length fs < int64_limit
    → w.files ≡ files_of size 1 fs
    → w.answers ≡ []
    → list_wal_files w ≡ (w, ok (names_from 1 fs))
unfolding list_wal_files
list_wal_files-files_of size fs w limit there a = rw (next_answer-success w a) (
    ap (λ names. (w, ok names))
      (ap (λ m. sort_names (wal_names m)) there
        ∙ ap sort_names (wal_names-files_of size 1 fs (omega arith) limit)
        ∙ sort_names-names_from 1 fs limit))

files_from-later :
    (c : ℕ) (fs : List (List Page))
    → 1 < c
    → c + length fs < int64_limit
    → files_from (name_of 1) (names_from c fs) ≡ none
unfolding files_from
files_from-later c [] lt limit = refl
files_from-later c (f ∷ fs) lt limit =
    rw (text_lt-name_of 1 c (omega arith) (omega arith)) (ground arith)

-- From the start of the log on, these are all its files.
pub files_from-start :
    (f : List Page) (fs : List (List Page))
    → 2 + length fs < int64_limit
    → files_from (filename 1 1 1) (names_from 1 (f ∷ fs)) ≡ some (names_from 1 (f ∷ fs))
unfolding files_from filename
files_from-start f fs limit =
    rw (text_lt-name_of 1 1 (omega arith) (omega arith))
      (rw (files_from-later 2 fs (omega arith) (omega arith)) refl)
