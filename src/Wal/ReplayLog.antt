-- ===== src/Wal/ReplayLog.antt =====
-- Replaying all the files of a log (`ReplayIncomplete` and `replayFile` of internal/wal/wal.go).
use nekoq_bootstrap.Base.{
  ==_refl, List, Outcome, Text, [], ap, append_assoc, arith, err, length, length-append, nat_key,
  ok, panic, refl, some, sym, text_key, ℕ, ◌++◌, ◌+◌, ◌<◌, ◌^◌, ◌∙◌, ◌∷◌, ◌≡◌, ◌≤◌,
}
use nekoq_bootstrap.Base.Io.{Io, continue, each}
use nekoq_bootstrap.Base.Maps.{insert, lookup}
use nekoq_bootstrap.Wal.Disk.{DiskWal, open_file}
use nekoq_bootstrap.Wal.EmptyFile.{open_file-success}
use nekoq_bootstrap.Wal.Files.{
  Page, contents-found, files_of, insert-present, name_of, name_of-distinct,
}
use nekoq_bootstrap.Wal.Listing.{names_from}
use nekoq_bootstrap.Wal.Names.{int64_limit}
use nekoq_bootstrap.Wal.Page.{record_header_size}
use nekoq_bootstrap.Wal.Replay.{replay_content, replay_file}
use nekoq_bootstrap.Wal.ReplayPages.{AllFit, pages_of, replay_content-pages_of}
use nekoq_bootstrap.Wal.WholeLog.{flat}

lookup-first :
    (size c : ℕ) (f : List Page) (later : List (List Page))
    → lookup (name_of c) (files_of size c (f ∷ later)) ≡ some (pages_of size f)
unfolding files_of lookup
lookup-first size c f later = rw (==_refl (name_of c)) refl

lookup-files_of_at :
    (size c : ℕ) (before : List (List Page)) (f : List Page) (later : List (List Page))
    → c + length before < int64_limit
    → lookup (name_of (c + length before)) (files_of size c (before ++ f ∷ later))
      ≡ some (pages_of size f)
unfolding files_of lookup
lookup-files_of_at size c [] f later limit =
    ap (λ z. lookup (name_of z) (files_of size c (f ∷ later))) (omega arith)
    ∙ lookup-first size c f later
lookup-files_of_at size c (b ∷ before) f later limit =
    rw (name_of-distinct c (c + length (b ∷ before)) (omega arith) limit) (
      ap (λ z. lookup (name_of z) (files_of size (c + 1) (before ++ f ∷ later))) (omega arith)
      ∙ lookup-files_of_at size (c + 1) before f later (omega arith))

AllFit-split :
    (size : ℕ) (f rest : List Page) → AllFit size (f ++ rest) → AllFit size f × AllFit size rest
AllFit-split size [] rest fits = (tt, fits)
AllFit-split size (p ∷ f) rest (this, fits) =
    let (front, back) = AllFit-split size f rest fits in ((this, front), back)

module _ {ℓ} {S : Type ℓ} where
  continue-continue :
      (r : S × Outcome (Unit {0})) (F G H : Io S (Unit {0}))
      → ((s : S) → F s ≡ continue (G s).1 (λ _. H) (G s).0)
      → continue r.1 (λ _. F) r.0
        ≡ continue (continue r.1 (λ _. G) r.0).1 (λ _. H) (continue r.1 (λ _. G) r.0).0
  continue-continue (s, ok u) F G H h = h s
  continue-continue (s, err e) F G H h = refl
  continue-continue (s, panic) F G H h = refl

  each-append :
      {A : Type 0} (act : A → Io S (Unit {0})) (xs ys : List A) (s : S)
      → each act (xs ++ ys) s ≡ continue (each act xs s).1 (λ _. each act ys) (each act xs s).0
  unfolding each
  each-append act [] ys s = refl
  each-append act (x ∷ xs) ys s =
      continue-continue (act x s) (each act (xs ++ ys)) (each act xs) (each act ys)
        (λ s'. each-append act xs ys s')

  -- A result of the callback, beside the log.
  abbrev pub beside : DiskWal → S × Outcome (Unit {0}) → (DiskWal × S) × Outcome (Unit {0})
  beside w r = ((w, r.0), r.1)

  beside-continue :
      (w : DiskWal) (r : S × Outcome (Unit {0})) (F : Io (DiskWal × S) (Unit {0}))
      (G : Io S (Unit {0}))
      → ((s : S) → F (w, s) ≡ beside w (G s))
      → continue r.1 (λ _. F) (w, r.0) ≡ beside w (continue r.1 (λ _. G) r.0)
  beside-continue w (s, ok u) F G h = h s
  beside-continue w (s, err e) F G h = refl
  beside-continue w (s, panic) F G h = refl

  module _ (fn : Text → Io S (Unit {0})) where
    abbrev pub hand : Page → Io S (Unit {0})
    hand p = fn p.1

    replay_file-found :
        (size : ℕ) (name : Text) (f : List Page) (w : DiskWal) (s : S)
        → record_header_size ≤ size
        → size < 2 ^ 16
        → AllFit size f
        → w.answers ≡ []
        → w.max_page_size ≡ size
        → lookup name w.files ≡ some (pages_of size f)
        → replay_file fn name (w, s) ≡ beside w (each hand f s)
    unfolding replay_file
    replay_file-found size name f w s h lt fits a page there =
        let content = contents-found name (pages_of size f) w.files there in
        let opened_same : open_file name w ≡ (w, ok tt) =
          open_file-success name w a
          ∙ ap (λ m. (record w { files = m }, ok tt))
              (ap (λ u. insert name u w.files) content
                ∙ insert-present name (pages_of size f) w.files there) in
        rw opened_same (
          ap (λ u. beside w (replay_content w.max_page_size fn u s)) content
          ∙ ap (λ z. beside w (replay_content z fn (pages_of size f) s)) page
          ∙ ap (beside w) (replay_content-pages_of fn size f s h lt fits))

    pub replay_all :
        (size : ℕ) (before later : List (List Page)) (w : DiskWal) (s : S)
        → record_header_size ≤ size
        → size < 2 ^ 16
        → AllFit size (flat later)
        → 1 + length before + length later < int64_limit
        → w.answers ≡ []
        → w.max_page_size ≡ size
        → w.files ≡ files_of size 1 (before ++ later)
        → each (replay_file fn) (names_from (1 + length before) later) (w, s)
          ≡ beside w (each hand (flat later) s)
    unfolding each
    replay_all size before [] w s h lt fits limit a page there = refl
    replay_all size before (f ∷ later) w s h lt fits limit a page there =
        let (front, back) = AllFit-split size f (flat later) fits in
        let first : replay_file fn (name_of (1 + length before)) (w, s) ≡ beside w (each hand f s) =
          replay_file-found size (name_of (1 + length before)) f w s h lt front a page (
            ap (lookup (name_of (1 + length before))) there
            ∙ lookup-files_of_at size 1 before f later (omega arith)) in
        let next : 1 + length before + 1 ≡ 1 + length (before ++ f ∷ []) =
          omega (arith, length-append before (f ∷ [])) in
        let rest : (s' : S)
            → each (replay_file fn) (names_from (1 + length before + 1) later) (w, s')
              ≡ beside w (each hand (flat later) s') =
          λ s'.
            ap (λ n. each (replay_file fn) (names_from n later) (w, s')) next
            ∙ replay_all size (before ++ f ∷ []) later w s' h lt back
                (omega (arith, length-append before (f ∷ []))) a page
                (there ∙ ap (files_of size 1) (sym (append_assoc before (f ∷ []) later))) in
        rw first (
          beside-continue w (each hand f s)
            (each (replay_file fn) (names_from (1 + length before + 1) later))
            (each hand (flat later)) rest
          ∙ ap (beside w) (sym (each-append hand f (flat later) s)))
