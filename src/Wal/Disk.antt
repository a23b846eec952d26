-- ===== src/Wal/Disk.antt =====
-- The state of `DiskWal` (internal/wal/wal.go) and the calls of the operating system that it makes.
-- The folder is a map from names to contents. Each call takes the next answer of `answers`; once the
-- list has run out every call succeeds. The counters stay far below the limits of their types.
use nekoq_bootstrap.Base.{
  Bool, Error, List, Option, Outcome, Text, [], codes, err, external, false, file_closed, nat_key,
  none, ok, some, take, text_key, ℕ, ◌*◌, ◌++◌, ◌∷◌,
}
use nekoq_bootstrap.Base.Io.{Io}
use nekoq_bootstrap.Base.Maps.{Map, insert, lookup}

-- A write that fails has written so many bytes.
pub data Answer : Type 0 where
  success : Answer
  failure : ℕ → Answer

-- An *os.File of the log folder, by its name.
pub data Handle : Type 0 where
  opened closed : Text → Handle

pub record DiskWal : Type 0 where
  pub cur_term : ℕ
  pub cur_collection : ℕ
  pub cur_seq : ℕ
  pub page_occupied : ℕ
  pub max_file_size : ℕ
  pub max_page_size : ℕ
  pub cur_file : Option Handle
  pub dirty : Bool
  pub files : Map Text Text
  pub answers : List Answer

-- NewDiskWal, at a folder with these files.
unfoldable pub new_disk_wal : Map Text Text → List Answer → DiskWal
new_disk_wal files answers = record {
  cur_term = 1;
  cur_collection = 0;
  cur_seq = 0;
  page_occupied = 0;
  max_file_size = 1 * 1024 * 1024 * 1024;
  max_page_size = 4 * 1024;
  cur_file = none;
  dirty = false;
  files = files;
  answers = answers;
}

abbrev pub os_error : Error
os_error = external (codes "os")

unfoldable pub next_answer : DiskWal → Answer × DiskWal
next_answer w = elim w.answers [ [] ↦ (success, w) | a ∷ rest ↦ (a, record w { answers = rest }) ]

abbrev pub contents : Text → Map Text Text → Text
contents name files = elim (lookup name files) [ none ↦ [] | some bytes ↦ bytes ]

abbrev pub touched : Answer → Text → Io DiskWal (Unit {0})
touched success name w = (record w { files = insert name (contents name w.files) w.files }, ok tt)
touched (failure n) name w = (w, err os_error)

-- os.OpenFile(name, O_APPEND|O_CREATE|O_RDWR, 0664)
unfoldable pub open_file : Text → Io DiskWal (Unit {0})
unfolding next_answer
open_file name w = let (a, w') = next_answer w in touched a name w'

abbrev pub appended : Answer → Text → Text → Io DiskWal (Unit {0})
appended success name buf w =
    (record w { files = insert name (contents name w.files ++ buf) w.files }, ok tt)
appended (failure n) name buf w =
    (record w { files = insert name (contents name w.files ++ take n buf) w.files }, err os_error)

-- A write at the end of an open file.
unfoldable pub append_file : Text → Text → Io DiskWal (Unit {0})
unfolding next_answer
append_file name buf w = let (a, w') = next_answer w in appended a name buf w'

-- d.curFile.Write(buf); a write to a closed file fails.
unfoldable pub write_cur_file : Text → Io DiskWal (Unit {0})
write_cur_file buf w = elim w.cur_file [
  | none ↦ (w, err file_closed)
  | some (closed name) ↦ (w, err file_closed)
  | some (opened name) ↦ append_file name buf w
]

abbrev pub closed_outcome : Answer → Outcome (Unit {0})
closed_outcome success = ok tt
closed_outcome (failure n) = err os_error

-- d.curFile.Close(): the file is closed also where the call reports an error.
unfoldable pub close_cur_file : Io DiskWal (Unit {0})
unfolding next_answer
close_cur_file w = elim w.cur_file [
  | none ↦ (w, err file_closed)
  | some (closed name) ↦ (w, err file_closed)
  | some (opened name) ↦
      let (a, w') = next_answer w in (record w' { cur_file = some (closed name) }, closed_outcome a)
]
