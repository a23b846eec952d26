-- ===== src/Wal/Stuck.antt =====
-- What becomes of a log whose rotation fails (`guaranteePage` of internal/wal/wal.go).
use nekoq_bootstrap.Base.{
  Bool-cases, Error, List, Outcome, Text, ap, arith, err, file_closed, inl, inr, leb, length, ltb,
  refl, some, subst, suc, sym, true, zero, ℕ, ◌*◌, ◌+◌, ◌<◌, ◌∷◌, ◌≡◌, ◌⊎◌,
}
use nekoq_bootstrap.Base.Io.{Io, continue}
use nekoq_bootstrap.Wal.Disk.{
  Answer, DiskWal, close_cur_file, closed, failure, next_answer, open_file, opened, os_error,
  success, write_cur_file,
}
use nekoq_bootstrap.Wal.Page.{EntryType, whole}
use nekoq_bootstrap.Wal.Write.{
  guarantee_page, open_cur_file, put_page, record_max, rotate, write_data_page, write_entry,
  write_entry_with_full_page, write_pages,
}

continue-err {ℓ κ μ} :
    {S : Type ℓ} {A : Type κ} {B : Type μ}
    → (o : Outcome A) (f : A → Io S B) (s : S) (e : Error) → o ≡ err e
    → continue o f s ≡ (s, err e)
continue-err o f s e h = rw h refl

-- An operation that failed and left a closed file as the current one.
abbrev Sticks {ℓ} : {A : Type ℓ} → Text → Error → DiskWal × Outcome A → Type ℓ
Sticks name e r = (r.0.cur_file ≡ some (closed name)) × (r.1 ≡ err e)

Sticks-continue {ℓ κ} :
    {A : Type ℓ} {B : Type κ}
    → (name : Text) (e : Error) (r : DiskWal × Outcome A) (f : A → Io DiskWal B) → Sticks name e r
    → Sticks name e (continue r.1 f r.0)
Sticks-continue name e r f (h, h') = rw (continue-err r.1 f r.0 e h') (h, refl)

put_page-closed_record :
    (name dat : Text) (t : EntryType) (w : DiskWal)
    → put_page dat t (record w { cur_file = some (closed name) })
      ≡ (record w { cur_file = some (closed name) }, err file_closed)
unfolding put_page guarantee_page write_data_page write_cur_file rotate close_cur_file
put_page-closed_record name dat t w =
    elim (Bool-cases (ltb w.max_file_size ((w.page_occupied + 1) * w.max_page_size))) [
      | inl e ↦ rw e refl
      | inr e ↦ rw e refl
    ]

put_page-closed :
    (name dat : Text) (t : EntryType) (w : DiskWal)
    → w.cur_file ≡ some (closed name)
    → put_page dat t w ≡ (w, err file_closed)
put_page-closed name dat t w h =
    subst (λ v. put_page dat t v ≡ (v, err file_closed))
      (sym (ap (λ f. record w { cur_file = f }) h)) (put_page-closed_record name dat t w)

write_pages-closed :
    (name : Text) (fuel max : ℕ) (bytes : Text) (offset : ℕ) (w : DiskWal)
    → 0 < fuel
    → w.cur_file ≡ some (closed name)
    → write_pages fuel max bytes offset w ≡ (w, err file_closed)
unfolding write_pages
write_pages-closed name zero max bytes offset w p h = absurd (omega arith)
write_pages-closed name (suc fuel) max bytes offset w p h = rw (put_page-closed name _ _ w h) refl

write_entry-closed :
    (name bytes : Text) (w : DiskWal)
    → w.cur_file ≡ some (closed name)
    → write_entry bytes w ≡ (w, err file_closed)
unfolding write_entry write_entry_with_full_page
write_entry-closed name bytes w h = elim (Bool-cases (leb (length bytes) (record_max w))) [
  | inl e ↦ rw e (rw (put_page-closed name bytes whole w h) refl)
  | inr e ↦
      rw e
        (rw (write_pages-closed name (length bytes) (record_max w) bytes 0 w (ground arith) h) refl)
]

put_page-rotation_record :
    (name dat : Text) (t : EntryType) (answers : List Answer) (k : ℕ) (rest : List Answer)
    (w : DiskWal)
    → ltb w.max_file_size ((w.page_occupied + 1) * w.max_page_size) ≡ true
    → (answers ≡ failure k ∷ rest) ⊎ (answers ≡ success ∷ failure k ∷ rest)
    → Sticks name os_error
        (put_page dat t (record w { cur_file = some (opened name); answers = answers }))
unfolding put_page guarantee_page rotate close_cur_file open_cur_file open_file next_answer
put_page-rotation_record name dat t answers k rest w full (inl e) = rw full (rw e (refl, refl))
put_page-rotation_record name dat t answers k rest w full (inr e) = rw full (rw e (refl, refl))

put_page-rotation :
    (name dat : Text) (t : EntryType) (k : ℕ) (rest : List Answer) (w : DiskWal)
    → w.cur_file ≡ some (opened name)
    → w.max_file_size < (w.page_occupied + 1) * w.max_page_size
    → (w.answers ≡ failure k ∷ rest) ⊎ (w.answers ≡ success ∷ failure k ∷ rest)
    → Sticks name os_error (put_page dat t w)
put_page-rotation name dat t k rest w h full fails =
    subst (λ v. Sticks name os_error (put_page dat t v))
      (sym (ap (λ f. record w { cur_file = f }) h))
      (put_page-rotation_record name dat t w.answers k rest w (ground arith) fails)

write_pages-rotation :
    (name : Text) (fuel max : ℕ) (bytes : Text) (offset k : ℕ) (rest : List Answer) (w : DiskWal)
    → 0 < fuel
    → w.cur_file ≡ some (opened name)
    → w.max_file_size < (w.page_occupied + 1) * w.max_page_size
    → (w.answers ≡ failure k ∷ rest) ⊎ (w.answers ≡ success ∷ failure k ∷ rest)
    → Sticks name os_error (write_pages fuel max bytes offset w)
unfolding write_pages
write_pages-rotation name zero max bytes offset k rest w p h full fails = absurd (omega arith)
write_pages-rotation name (suc fuel) max bytes offset k rest w p h full fails =
    Sticks-continue name os_error (put_page _ _ w) _
      (put_page-rotation name _ _ k rest w h full fails)

write_entry-Sticks :
    (name bytes : Text) (k : ℕ) (rest : List Answer) (w : DiskWal)
    → w.cur_file ≡ some (opened name)
    → w.max_file_size < (w.page_occupied + 1) * w.max_page_size
    → (w.answers ≡ failure k ∷ rest) ⊎ (w.answers ≡ success ∷ failure k ∷ rest)
    → Sticks name os_error (write_entry bytes w)
unfolding write_entry write_entry_with_full_page
write_entry-Sticks name bytes k rest w h full fails =
    elim (Bool-cases (leb (length bytes) (record_max w))) [
      | inl e ↦ rw e (
          Sticks-continue name os_error (put_page bytes whole w) _
            (put_page-rotation name bytes whole k rest w h full fails))
      | inr e ↦ rw e (
          Sticks-continue name os_error (write_pages (length bytes) (record_max w) bytes 0 w) _ (
            write_pages-rotation name (length bytes) (record_max w) bytes 0 k rest w (ground arith)
              h full fails))
    ]

-- Where the current file is full and the system refuses to close it, or closes it and refuses to open
-- the next one, the write fails, and from there every write fails and changes nothing, whatever the
-- system answers later.
pub write_entry-rotation_fails :
    (name bytes later : Text) (k : ℕ) (rest : List Answer) (w : DiskWal)
    → w.cur_file ≡ some (opened name)
    → w.max_file_size < (w.page_occupied + 1) * w.max_page_size
    → (w.answers ≡ failure k ∷ rest) ⊎ (w.answers ≡ success ∷ failure k ∷ rest)
    → ((write_entry bytes w).1 ≡ err os_error)
      × (write_entry later (write_entry bytes w).0 ≡ ((write_entry bytes w).0, err file_closed))
write_entry-rotation_fails name bytes later k rest w h full fails =
    let (shut, fail) = write_entry-Sticks name bytes k rest w h full fails in
    (fail, write_entry-closed name later (write_entry bytes w).0 shut)
