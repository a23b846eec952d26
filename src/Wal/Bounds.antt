-- ===== src/Wal/Bounds.antt =====
-- How far a log file grows (`guaranteePage` and the writes of internal/wal/wal.go).
use nekoq_bootstrap.Base.{
  Bool-cases, Option, Outcome, Text, arith, if◌then◌else◌, inl, inr, leb, length, ltb, nat_same,
  none, ok, refl, some, suc, true, zero, ℕ, ◌*◌, ◌+◌, ◌-◌, ◌∙◌, ◌≡◌, ◌≤◌,
}
use nekoq_bootstrap.Base.Io.{
  Ends, Ends-always, Ends-continue, Ends-state, Ends-weaken, Io, continue-keeps,
}
use nekoq_bootstrap.Wal.Disk.{
  DiskWal, Handle, append_file, close_cur_file, open_file, opened, write_cur_file,
}
use nekoq_bootstrap.Wal.Page.{EntryType, end, middle, prepare_data_buf_by_page, start, whole}
use nekoq_bootstrap.Wal.Write.{
  cur_name, cur_position, guarantee_page, open_cur_file, open_first, put_page, record_max, rotate,
  sub_slice, write_data_page, write_entry, write_entry_with_full_page, write_pages,
}

-- The pages counted in the current file fit into its greatest size, and before there is one none is
-- counted.
pub record IsBounded (w : DiskWal) : Type 0 where
  pub fits : w.page_occupied * w.max_page_size ≤ w.max_file_size
  pub one : w.max_page_size ≤ w.max_file_size
  pub unopened : w.cur_file ≡ none → w.page_occupied ≡ 0

-- One more page fits.
record HasRoom (w : DiskWal) : Type 0 where
  room : (w.page_occupied + 1) * w.max_page_size ≤ w.max_file_size
  opened_file : w.cur_file ≡ none → ⊥

-- What the calls of the operating system leave alone.
record SameCounters (w w' : DiskWal) : Type 0 where
  pages : w'.page_occupied ≡ w.page_occupied
  page_size : w'.max_page_size ≡ w.max_page_size
  file_size : w'.max_file_size ≡ w.max_file_size
  handle : w'.cur_file ≡ none → w.cur_file ≡ none

open_file-SameCounters : (name : Text) (w : DiskWal) → SameCounters w (open_file name w).0
unfolding open_file
open_file-SameCounters name w = record {
  pages = ground arith;
  page_size = ground arith;
  file_size = ground arith;
  handle = λ h. ground arith;
}

write_cur_file-SameCounters : (buf : Text) (w : DiskWal) → SameCounters w (write_cur_file buf w).0
unfolding write_cur_file append_file
write_cur_file-SameCounters buf w = record {
  pages = ground arith;
  page_size = ground arith;
  file_size = ground arith;
  handle = λ h. ground arith;
}

close_cur_file-SameCounters : (w : DiskWal) → SameCounters w (close_cur_file w).0
unfolding close_cur_file
close_cur_file-SameCounters w = record {
  pages = ground arith;
  page_size = ground arith;
  file_size = ground arith;
  handle = λ h. ground arith;
}

IsBounded-same : {w w' : DiskWal} → SameCounters w w' → IsBounded w → IsBounded w'
IsBounded-same e b = record {
  fits = rw (e.pages, e.page_size, e.file_size) b.fits;
  one = rw (e.page_size, e.file_size) b.one;
  unopened = λ h. e.pages ∙ b.unopened (e.handle h);
}

HasRoom-same : {w w' : DiskWal} → SameCounters w w' → HasRoom w → HasRoom w'
HasRoom-same e b = record {
  room = rw (e.pages, e.page_size, e.file_size) b.room;
  opened_file = λ h. b.opened_file (e.handle h);
}

HasRoom-IsBounded : (w : DiskWal) → HasRoom w → IsBounded w
HasRoom-IsBounded w b = record {
  fits = (let h = b.room in omega arith);
  one = (let h = b.room in omega arith);
  unopened = λ h. absurd (b.opened_file h);
}

abbrev Fits : DiskWal → Type 0
Fits w = IsBounded w × ((w.page_occupied + 1) * w.max_page_size ≤ w.max_file_size)

-- Opening the file of a position whose next page fits.
open_cur_file-HasRoom :
    (w : DiskWal)
    → IsBounded w
    → (w.page_occupied + 1) * w.max_page_size ≤ w.max_file_size
    → Ends HasRoom IsBounded (open_cur_file w)
unfolding open_cur_file
open_cur_file-HasRoom w b room =
    let name = cur_name w in
    let same = open_file-SameCounters name w in
    let kept : IsBounded (open_file name w).0 = IsBounded-same same b in
    Ends-continue Fits HasRoom IsBounded (open_file name w)
      (λ _ w'. (record w' { cur_file = some (opened name) }, ok tt))
      (Ends-weaken Fits Fits IsBounded (open_file name w) (λ w' (h : Fits w'). h.0)
        (Ends-always Fits (open_file name w)
          (kept, rw (same.pages, same.page_size, same.file_size) room)))
      (λ _ w' (h : Fits w'). record { room = h.1; opened_file = λ n. cc })

rotate-HasRoom : (w : DiskWal) → IsBounded w → Ends HasRoom IsBounded (rotate w)
unfolding rotate
rotate-HasRoom w b =
    Ends-continue IsBounded HasRoom IsBounded (close_cur_file w) _
      (Ends-always IsBounded (close_cur_file w) (IsBounded-same (close_cur_file-SameCounters w) b))
      (λ _ w' b'.
        open_cur_file-HasRoom
          (record w' { cur_collection = w'.cur_collection + 1; cur_seq = 0; page_occupied = 0 })
          (record { fits = omega arith; one = b'.one; unopened = λ _. refl })
          (let h = b'.one in omega arith))

abbrev pub fit_or_rotate : DiskWal → Option Handle → DiskWal × Outcome (Unit {0})
fit_or_rotate w none = open_first w
fit_or_rotate w (some file) =
    if ltb w.max_file_size ((w.page_occupied + 1) * w.max_page_size) then rotate w else (w, ok tt)

pub guarantee_page-cases : (w : DiskWal) → guarantee_page 1 w ≡ fit_or_rotate w w.cur_file
unfolding guarantee_page
guarantee_page-cases w = ground arith

open_first-HasRoom :
    (w : DiskWal) → w.cur_file ≡ none → IsBounded w → Ends HasRoom IsBounded (open_first w)
unfolding open_first
open_first-HasRoom w e b =
    let empty = b.unopened e in
    let one = b.one in
    open_cur_file-HasRoom (record w { cur_collection = w.cur_collection + 1; cur_seq = 0 })
      (record { fits = b.fits; one = one; unopened = b.unopened }) (rw empty (omega arith))

fit_or_rotate-HasRoom :
    (w : DiskWal) (file : Option Handle)
    → w.cur_file ≡ file
    → IsBounded w
    → Ends HasRoom IsBounded (fit_or_rotate w file)
fit_or_rotate-HasRoom w none e b = open_first-HasRoom w e b
fit_or_rotate-HasRoom w (some file) e b =
    elim (Bool-cases (ltb w.max_file_size ((w.page_occupied + 1) * w.max_page_size))) [
      | inl t ↦ rw t (rotate-HasRoom w b)
      | inr t ↦ rw t (record { room = ground arith; opened_file = λ h. cc })
    ]

guarantee_page-HasRoom : (w : DiskWal) → IsBounded w → Ends HasRoom IsBounded (guarantee_page 1 w)
guarantee_page-HasRoom w b = rw (guarantee_page-cases w) (fit_or_rotate-HasRoom w w.cur_file refl b)

write_data_page-IsBounded :
    (dat : Text) (t : EntryType) (w : DiskWal) → HasRoom w → IsBounded (write_data_page dat t w).0
unfolding write_data_page
write_data_page-IsBounded dat t w b =
    let buf = prepare_data_buf_by_page w.max_page_size dat t in
    Ends-state IsBounded IsBounded _ (λ _ h. h)
      (Ends-continue HasRoom IsBounded IsBounded (write_cur_file buf w) _
        (Ends-weaken HasRoom HasRoom IsBounded (write_cur_file buf w) HasRoom-IsBounded (
          Ends-always HasRoom (write_cur_file buf w)
            (HasRoom-same (write_cur_file-SameCounters buf w) b)))
        (λ _ w' b'. record {
          fits = b'.room;
          one = (HasRoom-IsBounded w' b').one;
          unopened = λ h. absurd (b'.opened_file h);
        }))

put_page-IsBounded :
    (dat : Text) (t : EntryType) (w : DiskWal) → IsBounded w → IsBounded (put_page dat t w).0
unfolding put_page
put_page-IsBounded dat t w b =
    Ends-state IsBounded IsBounded _ (λ _ h. h)
      (Ends-continue HasRoom IsBounded IsBounded (guarantee_page 1 w) (λ _. write_data_page dat t)
        (guarantee_page-HasRoom w b)
        (λ _ w' b'.
          Ends-always IsBounded (write_data_page dat t w') (write_data_page-IsBounded dat t w' b')))

write_pages-IsBounded :
    (fuel max offset : ℕ) (bytes : Text) (w : DiskWal)
    → IsBounded w
    → IsBounded (write_pages fuel max bytes offset w).0
unfolding write_pages
write_pages-IsBounded zero max offset bytes w b = b
write_pages-IsBounded (suc fuel) max offset bytes w b =
    let last = leb (length bytes) (offset + max) in
    let n = if last then length bytes - offset else max in
    let t = if last then end else if nat_same offset 0 then start else middle in
    let r = put_page (sub_slice bytes offset n) t w in
    let put = put_page-IsBounded (sub_slice bytes offset n) t w b in
    let rest = write_pages fuel max bytes (offset + n) r.0 in
    continue-keeps IsBounded r
      (λ _ w'. if leb (length bytes) (offset + n) then (w', ok tt) else rest) put
      (λ _ w' b'. elim (Bool-cases (leb (length bytes) (offset + n))) [
        | inl e ↦ rw e b'
        | inr e ↦ rw e (write_pages-IsBounded fuel max (offset + n) bytes r.0 put)
      ])

-- Writing an entry keeps the counted pages of the current file within the greatest size of a file,
-- whatever the disk answers, from a state where they are, where one page fits, and where no page is
-- counted before a file is open.
pub write_entry-IsBounded :
    (bytes : Text) (w : DiskWal) → IsBounded w → IsBounded (write_entry bytes w).0
unfolding write_entry write_entry_with_full_page
write_entry-IsBounded bytes w b =
    let max = record_max w in
    let m : Io DiskWal (Unit {0}) =
      if leb (length bytes) max
      then put_page bytes whole
      else write_pages (length bytes) max bytes 0 in
    let written : IsBounded (m w).0 = elim (Bool-cases (leb (length bytes) max)) [
      | inl e ↦ rw e (put_page-IsBounded bytes whole w b)
      | inr e ↦ rw e (write_pages-IsBounded (length bytes) max 0 bytes w b)
    ] in
    continue-keeps IsBounded (m w) (λ _ w'. (record w' { dirty = true }, ok (cur_position w')))
      written (λ _ w' b'. record { fits = b'.fits; one = b'.one; unopened = b'.unopened })
