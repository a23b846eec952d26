-- ===== src/Wal/Chunks.antt =====
-- How `WriteEntryWithFullPage` of internal/wal/wal.go cuts an entry into pages.
use nekoq_bootstrap.Base.{
  Bool, Bool-cases, List, Text, [], ap, append_nil, arith, drop, false, if◌then◌else◌, inl, inr,
  leb, length, length-drop, length-take, nat_same, ok, refl, suc, take, take-append-drop, true,
  zero, ℕ, ◌&&◌, ◌++◌, ◌+◌, ◌-◌, ◌<◌, ◌∙◌, ◌∷◌, ◌≡◌, ◌≤◌,
}
use nekoq_bootstrap.Base.Io.{Io, continue-here, continue-same, continue-tt, each, ◌>>◌}
use nekoq_bootstrap.Wal.Disk.{DiskWal}
use nekoq_bootstrap.Wal.Names.{SequenceId}
use nekoq_bootstrap.Wal.Page.{EntryType, end, middle, start, whole}
use nekoq_bootstrap.Wal.Write.{
  cur_position, put_page, record_max, sub_slice, write_entry, write_entry_with_full_page,
  write_pages,
}

-- The pages of what is left of a long entry.
unfoldable pub chunks : ℕ → ℕ → Bool → Text → List (EntryType × Text)
chunks zero max first s = []
chunks (suc fuel) max first s =
    let rest = chunks fuel max false (drop max s) in
    if leb (length s) max
    then (end, s) ∷ []
    else ((if first then start else middle), take max s) ∷ rest

unfoldable pub entry_chunks : ℕ → Text → List (EntryType × Text)
entry_chunks max bytes =
    if leb (length bytes) max then (whole, bytes) ∷ [] else chunks (length bytes) max true bytes

unfoldable pub joined : List (EntryType × Text) → Text
joined [] = []
joined ((t, dat) ∷ rest) = dat ++ joined rest

drop_nil {ℓ} : (A : Type ℓ) (n : ℕ) → drop {A = A} n [] ≡ []
drop_nil A zero = refl
drop_nil A (suc n) = refl

drop-drop {ℓ} : {A : Type ℓ} (n m k : ℕ) (xs : List A) → k ≡ m + n → drop n (drop m xs) ≡ drop k xs
drop-drop n zero k xs e = ap (λ j. drop j xs) (omega arith)
drop-drop n (suc m) zero xs e = absurd (omega arith)
drop-drop {A = A} n (suc m) (suc k) [] e = drop_nil A n
drop-drop n (suc m) (suc k) (x ∷ xs) e = drop-drop n m k xs (omega arith)

take-length {ℓ} : {A : Type ℓ} (n : ℕ) (xs : List A) → length xs ≤ n → take n xs ≡ xs
take-length zero [] h = refl
take-length zero (x ∷ xs) h = absurd (omega arith)
take-length (suc n) [] h = refl
take-length (suc n) (x ∷ xs) h = ap (◌∷◌ x) (take-length n xs (omega arith))

joined-chunks :
    (fuel max : ℕ) (first : Bool) (s : Text)
    → 0 < max
    → 0 < fuel
    → length s ≤ fuel
    → joined (chunks fuel max first s) ≡ s
unfolding chunks joined
joined-chunks zero max first s h f le = absurd (omega arith)
joined-chunks (suc fuel) max first s h f le = elim (Bool-cases (leb (length s) max)) [
  | inl e ↦ rw e (append_nil s)
  | inr e ↦
      let len = length-drop max s in
      let rest = joined-chunks fuel max false (drop max s) h (ground arith) (ground arith) in
      rw e (rw rest (take-append-drop max s))
]

write_pages-chunks :
    (fuel max offset : ℕ) (bytes : Text) (w : DiskWal)
    → 0 < max
    → offset < length bytes
    → length bytes - offset ≤ fuel
    → write_pages fuel max bytes offset w
      ≡ each
          (λ (p : EntryType × Text). put_page p.1 p.0)
          (chunks fuel max (nat_same offset 0) (drop offset bytes))
          w
unfolding write_pages chunks each
write_pages-chunks zero max offset bytes w h lt le = absurd (omega arith)
write_pages-chunks (suc fuel) max offset bytes w h lt le =
    let len = length-drop offset bytes in
    elim (Bool-cases (leb (length bytes) (offset + max))) [
      | inl e ↦
          let n = length bytes - offset in
          let cut : sub_slice bytes offset n ≡ drop offset bytes =
            take-length n (drop offset bytes) (omega arith) in
          let full : leb (length bytes) (offset + n) ≡ true = ground arith in
          let small : leb (length (drop offset bytes)) max ≡ true = ground arith in
          rw e (rw cut (rw full (rw small refl)))
      | inr e ↦
          let next = drop-drop max offset (offset + max) bytes refl in
          let long : leb (length (drop offset bytes)) max ≡ false = ground arith in
          let later : nat_same (offset + max) 0 ≡ false = ground arith in
          let r =
            put_page (take max (drop offset bytes)) (if nat_same offset 0 then start else middle)
              w in
          let ih : (v : DiskWal)
              → write_pages fuel max bytes (offset + max) v
                ≡ each (λ (p : EntryType × Text). put_page p.1 p.0)
                    (chunks fuel max false (drop max (drop offset bytes))) v =
            λ v.
              rw (next, ← later)
                (write_pages-chunks fuel max (offset + max) bytes v h (ground arith)
                  (ground arith)) in
          rw e (
            rw long (
              rw e
                (continue-here r (write_pages fuel max bytes (offset + max)) ∙ continue-same r ih)))
    ]

unfoldable pub all_fit : ℕ → List (EntryType × Text) → Bool
all_fit max [] = true
all_fit max ((t, dat) ∷ rest) = leb (length dat) max && all_fit max rest

all_fit-chunks :
    (fuel max : ℕ) (first : Bool) (s : Text) → all_fit max (chunks fuel max first s) ≡ true
unfolding chunks all_fit
all_fit-chunks zero max first s = refl
all_fit-chunks (suc fuel) max first s = elim (Bool-cases (leb (length s) max)) [
  | inl e ↦ rw e (rw e refl)
  | inr e ↦
      let short : leb (length (take max s)) max ≡ true =
        let len = length-take max s in ground arith in
      rw e (rw short (all_fit-chunks fuel max false (drop max s)))
]

pub entry_chunks-joined :
    (max : ℕ) (bytes : Text)
    → 0 < max
    → (joined (entry_chunks max bytes) ≡ bytes) × (all_fit max (entry_chunks max bytes) ≡ true)
unfolding entry_chunks joined all_fit
entry_chunks-joined max bytes h = elim (Bool-cases (leb (length bytes) max)) [
  | inl e ↦ rw e (append_nil bytes, rw e refl)
  | inr e ↦ rw e (
    joined-chunks (length bytes) max true bytes h (ground arith) (omega arith),
    all_fit-chunks (length bytes) max true bytes,
  )
]

-- Writing pages in turn, and marking the file dirty.
unfoldable pub write_chunks : List (EntryType × Text) → Io DiskWal SequenceId
write_chunks pages = do
  each (λ (p : EntryType × Text). put_page p.1 p.0) pages
  (λ w. (record w { dirty = true }, ok (cur_position w)))

pub write_entry-entry_chunks :
    (bytes : Text) (w : DiskWal)
    → 0 < record_max w
    → write_entry bytes w ≡ write_chunks (entry_chunks (record_max w) bytes) w
unfolding write_entry write_entry_with_full_page entry_chunks each write_chunks
write_entry-entry_chunks bytes w h = elim (Bool-cases (leb (length bytes) (record_max w))) [
  | inl e ↦ rw e (rw (continue-tt (put_page bytes whole w)) refl)
  | inr e ↦ rw e (
      rw (write_pages-chunks (length bytes) (record_max w) 0 bytes w h (ground arith) (omega arith))
        refl)
]

-- Where a page has room for a byte, there are pages whose data joins to the entry, each of which
-- fits the room of a page, such that writing the entry is writing these pages in turn and marking
-- the file dirty, on whatever the disk answers: it ends as they do, in the same state, and never
-- for lack of fuel.
pub write_entry-chunks :
    (bytes : Text) (w : DiskWal)
    → 0 < record_max w
    → (pages : List (EntryType × Text)) × (joined pages ≡ bytes)
      × (all_fit (record_max w) pages ≡ true)
      × (write_entry bytes w ≡ write_chunks pages w)
write_entry-chunks bytes w h =
    let (whole_entry, fit) = entry_chunks-joined (record_max w) bytes h in
    (entry_chunks (record_max w) bytes, whole_entry, fit, write_entry-entry_chunks bytes w h)
