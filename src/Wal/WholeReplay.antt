-- ===== src/Wal/WholeReplay.antt =====
-- Replaying a log from its start (`ReplayIncomplete` of internal/wal/wal.go).
use nekoq_bootstrap.Base.{
  List, Outcome, Text, [], and_then, ap, arith, err, false, inl, inr, length, length-append, ok,
  panic, refl, some, subst, sym, ℕ, ◌++◌, ◌+◌, ◌-◌, ◌<◌, ◌^◌, ◌∙◌, ◌∷◌, ◌≡◌, ◌⊎◌,
}
use nekoq_bootstrap.Base.Io.{Io, continue, each}
use nekoq_bootstrap.Wal.Chunks.{entry_chunks, entry_chunks-joined}
use nekoq_bootstrap.Wal.Disk.{DiskWal}
use nekoq_bootstrap.Wal.Durable.{AllFit-append}
use nekoq_bootstrap.Wal.Files.{Page}
use nekoq_bootstrap.Wal.Listing.{files_from-start, list_wal_files-files_of, names_from}
use nekoq_bootstrap.Wal.Names.{SequenceId, compare_sequence, filename, int64_limit}
use nekoq_bootstrap.Wal.Page.{record_header_size}
use nekoq_bootstrap.Wal.Read.{at_position}
use nekoq_bootstrap.Wal.Recovering.{all_chunks, write_all, write_all-Holds}
use nekoq_bootstrap.Wal.Replay.{
  files_from, is_newer, no_wal, on_wal, replay_incomplete, same_position, start_wal_sequence,
}
use nekoq_bootstrap.Wal.ReplayLog.{hand, replay_all}
use nekoq_bootstrap.Wal.ReplayPages.{AllFit}
use nekoq_bootstrap.Wal.Rotation.{Logged}
use nekoq_bootstrap.Wal.WholeLog.{Holds, IsNew, LogOf, flat}
use nekoq_bootstrap.Wal.Write.{cur_position, current_sequence}

-- The log is beyond its first page.
abbrev IsPast : DiskWal → Type 0
IsPast w = (1 < w.cur_collection) ⊎ ((w.cur_collection ≡ 1) × (1 < w.cur_seq))

same_position-start :
    (w : DiskWal) → w.cur_term ≡ 1 → IsPast w → same_position start_wal_sequence w ≡ false
same_position-start w t (inl c) = ground arith
same_position-start w t (inr (c, q)) = ground arith

no_wal-past : (w : DiskWal) → IsPast w → no_wal w ≡ false
no_wal-past w (inl c) = ground arith
no_wal-past w (inr (c, q)) = ground arith

is_newer-start :
    (w : DiskWal) → w.cur_term ≡ 1 → IsPast w → is_newer start_wal_sequence (cur_position w) ≡ false
unfolding compare_sequence
is_newer-start w t (inl c) = ground arith
is_newer-start w t (inr (c, q)) = ground arith

Logged-IsPast :
    (size : ℕ) (older : List (List Page)) (cur : List Page) (w : DiskWal)
    → Logged size older cur w
    → 1 < length (flat (older ++ cur ∷ []))
    → IsPast w
Logged-IsPast size [] cur w l many =
    let c = l.collection in
    let q = l.sequence in inr (omega arith, omega (arith, length-append cur []))
Logged-IsPast size (o ∷ older) cur w l many = let c = l.collection in inl (omega arith)

files_from-all :
    (fs : List (List Page))
    → 0 < length fs
    → 1 + length fs < int64_limit
    → files_from (filename 1 1 1) (names_from 1 fs) ≡ some (names_from 1 fs)
files_from-all [] some_file limit = absurd (omega arith)
files_from-all (f ∷ fs) some_file limit = files_from-start f fs (omega arith)

AllFit-both :
    (size : ℕ) (front back : List Page)
    → AllFit size front
    → AllFit size back
    → AllFit size (front ++ back)
AllFit-both size [] back f g = g
AllFit-both size (p ∷ front) back (this, f) g = (this, AllFit-both size front back f g)

AllFit-all_chunks :
    (size : ℕ) (texts : List Text) → record_header_size < size → AllFit size (all_chunks size texts)
AllFit-all_chunks size [] lt = tt
AllFit-all_chunks size (bytes ∷ texts) lt =
    let max = size - record_header_size in
    AllFit-both size (entry_chunks max bytes) (all_chunks size texts)
      (AllFit-append size [] (entry_chunks max bytes) tt
        (entry_chunks-joined max bytes (omega arith)).1)
      (AllFit-all_chunks size texts lt)

pub Holds-LogOf :
    (size : ℕ) (done : List Page) (w : DiskWal)
    → 1 < length done
    → Holds size done w
    → LogOf size done w
Holds-LogOf size [] w many h = absurd (omega arith)
Holds-LogOf size (p ∷ done) w many h = h

module _ {ℓ} {S : Type ℓ} (fn : Text → Io S (Unit {0})) where
  -- A result of the callback beside the log, with the position of the log where it succeeds.
  abbrev positioned : DiskWal → S × Outcome (Unit {0}) → (DiskWal × S) × Outcome SequenceId
  positioned w r = ((w, r.0), and_then r.1 (λ _. ok (current_sequence w)))

  at_end :
      (w : DiskWal) (r : S × Outcome (Unit {0}))
      → continue r.1 (λ _. on_wal at_position) (w, r.0) ≡ positioned w r
  unfolding current_sequence
  at_end w (s, ok u) = refl
  at_end w (s, err e) = refl
  at_end w (s, panic) = refl

  pub replay_incomplete-LogOf :
      (size : ℕ) (done : List Page) (w : DiskWal) (s : S)
      → record_header_size < size
      → size < 2 ^ 16
      → 2 + length done < int64_limit
      → 1 < length done
      → AllFit size done
      → LogOf size done w
      → replay_incomplete start_wal_sequence fn (w, s) ≡ positioned w (each (hand fn) done s)
  unfolding replay_incomplete
  replay_incomplete-LogOf size done w s lt lt' limit many fits (older, cur, l, same, short) =
      let fs = older ++ cur ∷ [] in
      let count : length fs ≡ length older + 1 = length-append older (cur ∷ []) in
      let past =
        Logged-IsPast size older cur w l
          (subst (λ (ps : List Page). 1 < length ps) (sym same) many) in
      let listed = list_wal_files-files_of size fs w (omega arith) l.files_there l.no_failure in
      let all = files_from-all fs (omega arith) (omega arith) in
      let replayed =
        replay_all fn size [] fs w s (omega arith) lt' (subst (AllFit size) (sym same) fits)
          (omega arith) l.no_failure l.page_size l.files_there in
      rw (same_position-start w l.term past) (
        rw (no_wal-past w past) (
          rw (is_newer-start w l.term past) (
            rw listed (
              rw all (
                rw replayed (
                  at_end w (each (hand fn) (flat fs) s)
                  ∙ ap (λ (ps : List Page). positioned w (each (hand fn) ps s)) same))))))

  -- Entries that take two pages or more, written into a new log of an empty folder, whatever files they
  -- take, are all written where the disk does not fail; and ReplayIncomplete from the first sequence
  -- hands the data of all their pages to the callback, in order, up to its first error, and ends as the
  -- callbacks do, with the position of the log. Pages are longer than their header and shorter than
  -- 65536 bytes, and there are less than 2^63 of them.
  pub write_all-replay_incomplete :
      (size : ℕ) (texts : List Text) (w : DiskWal) (s : S)
      → record_header_size < size
      → size < 2 ^ 16
      → 2 + length (all_chunks size texts) < int64_limit
      → 1 < length (all_chunks size texts)
      → IsNew size w
      → (w' : DiskWal) × (write_all texts w ≡ (w', ok tt))
        × (replay_incomplete start_wal_sequence fn (w', s) ≡ (
          (w', (each (λ (p : Page). fn p.1) (all_chunks size texts) s).0),
          and_then
              (each (λ (p : Page). fn p.1) (all_chunks size texts) s).1
              (λ _. ok (current_sequence w')),
        ))
  write_all-replay_incomplete size texts w s lt lt' limit many new =
      let (w', wrote, holds) = write_all-Holds size texts [] w lt limit new in
      (
        w',
        wrote,
        replay_incomplete-LogOf size (all_chunks size texts) w' s lt lt' limit many
            (AllFit-all_chunks size texts lt)
            (Holds-LogOf size (all_chunks size texts) w' many holds),
      )
