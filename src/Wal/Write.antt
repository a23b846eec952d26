-- ===== src/Wal/Write.antt =====
-- Writing entries: `guaranteePage`, `writeDataPage`, `WriteEntryWithFullPage` and `WriteEntry` of
-- internal/wal/wal.go. The lock is held through the call.
use nekoq_bootstrap.Base.{
  Text, drop, if◌then◌else◌, leb, length, ltb, nat_same, none, ok, panic, some, suc, take, true,
  zero, ℕ, ◌*◌, ◌+◌, ◌-◌,
}
use nekoq_bootstrap.Base.Io.{Io, continue, ◌>>=◌, ◌>>◌}
use nekoq_bootstrap.Wal.Disk.{DiskWal, close_cur_file, open_file, opened, write_cur_file}
use nekoq_bootstrap.Wal.Names.{SequenceId, filename}
use nekoq_bootstrap.Wal.Page.{
  EntryType, end, middle, prepare_data_buf_by_page, record_header_size, start, whole,
}

abbrev pub cur_position : DiskWal → SequenceId
cur_position w = record { term = w.cur_term; collection = w.cur_collection; seq = w.cur_seq }

abbrev pub cur_name : DiskWal → Text
cur_name w = filename w.cur_term w.cur_collection w.cur_seq

abbrev modify : (DiskWal → DiskWal) → Io DiskWal (Unit {0})
modify f w = (f w, ok tt)

abbrev gets {ℓ} : {A : Type ℓ} → (DiskWal → A) → Io DiskWal A
gets f w = (w, ok (f w))

-- Opens the file of the current position and makes it the current one.
unfoldable pub open_cur_file : Io DiskWal (Unit {0})
open_cur_file = do
  name ← gets cur_name
  open_file name
  modify (λ w. record w { cur_file = some (opened name) })

unfoldable pub open_first : Io DiskWal (Unit {0})
open_first = do
  modify (λ w. record w { cur_collection = w.cur_collection + 1; cur_seq = 0 })
  open_cur_file

unfoldable pub rotate : Io DiskWal (Unit {0})
rotate = do
  close_cur_file
  modify (λ w. record w { cur_collection = w.cur_collection + 1; cur_seq = 0; page_occupied = 0 })
  open_cur_file

unfoldable pub guarantee_page : ℕ → Io DiskWal (Unit {0})
guarantee_page page_cnt w = elim w.cur_file [
  | none ↦ open_first w
  | some file ↦
      if ltb w.max_file_size ((w.page_occupied + page_cnt) * w.max_page_size)
      then rotate w
      else (w, ok tt)
]

unfoldable pub write_data_page : Text → EntryType → Io DiskWal (Unit {0})
write_data_page dat t = do
  buf ← gets (λ w. prepare_data_buf_by_page w.max_page_size dat t)
  write_cur_file buf
  modify (λ w. record w { cur_seq = w.cur_seq + 1; page_occupied = w.page_occupied + 1 })

unfoldable pub put_page : Text → EntryType → Io DiskWal (Unit {0})
put_page dat t = do guarantee_page 1; write_data_page dat t

abbrev pub record_max : DiskWal → ℕ
record_max w = w.max_page_size - record_header_size

-- bytes[offset:offset+n]
abbrev pub sub_slice : Text → ℕ → ℕ → Text
sub_slice bytes offset n = take n (drop offset bytes)

-- The loop over the pages of a long entry; with `max` positive, fuel `length bytes` is enough.
unfoldable pub write_pages : ℕ → ℕ → Text → ℕ → Io DiskWal (Unit {0})
write_pages zero max bytes offset w = (w, panic)
write_pages (suc fuel) max bytes offset w =
    let last = leb (length bytes) (offset + max) in
    let n = if last then length bytes - offset else max in
    let t = if last then end else if nat_same offset 0 then start else middle in
    let (w', o) = put_page (sub_slice bytes offset n) t w in
    let rest = write_pages fuel max bytes (offset + n) w' in
    continue o (λ _ w''. if leb (length bytes) (offset + n) then (w'', ok tt) else rest) w'

unfoldable pub write_entry_with_full_page : Text → Io DiskWal SequenceId
write_entry_with_full_page bytes = do
  max ← gets record_max
  (if leb (length bytes) max then put_page bytes whole else write_pages (length bytes) max bytes 0)
  modify (λ w. record w { dirty = true })
  gets cur_position

unfoldable pub write_entry : Text → Io DiskWal SequenceId
write_entry bytes = write_entry_with_full_page bytes

-- CurrentSequence
unfoldable pub current_sequence : DiskWal → SequenceId
current_sequence w = cur_position w
