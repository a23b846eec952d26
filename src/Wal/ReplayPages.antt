-- ===== src/Wal/ReplayPages.antt =====
-- Replaying the content of a log file (`replayFile` of internal/wal/wal.go).
use nekoq_bootstrap.Base.{
  List, Text, [], arith, drop, drop-append, length, length-append, refl, suc, sym, take,
  take-append, zero, ℕ, ◌++◌, ◌+◌, ◌-◌, ◌<◌, ◌^◌, ◌∙◌, ◌∷◌, ◌≡◌, ◌≤◌,
}
use nekoq_bootstrap.Base.Io.{Io, continue, continue-same, continue-tt, each}
use nekoq_bootstrap.Wal.Page.{EntryType, prepare_data_buf_by_page, record_header_size}
use nekoq_bootstrap.Wal.PageRoundTrip.{length-prepare, page_records_info-prepare}
use nekoq_bootstrap.Wal.Read.{each_page}
use nekoq_bootstrap.Wal.Replay.{replay_content, replay_page}

-- The content of a file: a page for each piece of data, in order.
unfoldable pub pages_of : ℕ → List (EntryType × Text) → Text
pages_of size [] = []
pages_of size ((t, dat) ∷ rest) = prepare_data_buf_by_page size dat t ++ pages_of size rest

abbrev pub AllFit : ℕ → List (EntryType × Text) → Type 0
AllFit size [] = Unit {0}
AllFit size ((t, dat) ∷ rest) = (length dat ≤ size - record_header_size) × AllFit size rest

each_page-step {ℓ} :
    {S : Type ℓ} (fuel size : ℕ) (visit : Text → Io S (Unit {0})) (content : Text) (s : S)
    → 0 < size
    → size ≤ length content
    → each_page (suc fuel) size visit content s
      ≡ continue
          (visit (take size content) s).1
          (λ _. each_page fuel size visit (drop size content))
          (visit (take size content) s).0
unfolding each_page
each_page-step fuel size visit [] s h le = absurd (omega arith)
each_page-step fuel size visit (c ∷ content) s h le = ground arith

-- A loop over the pages of such a file whose body does `act` at each does `act` at each in turn.
module _ {ℓ} {S : Type ℓ} (size : ℕ) (visit : Text → Io S (Unit {0}))
    (act : EntryType × Text → Io S (Unit {0}))
    (visit-act : (dat : Text) (t : EntryType) (s : S)
      → length dat ≤ size - record_header_size
      → visit (prepare_data_buf_by_page size dat t) s ≡ act (t, dat) s) where
  pub each_page-pages_of :
      (fuel : ℕ) (dats : List (EntryType × Text)) (s : S)
      → record_header_size ≤ size
      → AllFit size dats
      → length (pages_of size dats) < fuel
      → each_page fuel size visit (pages_of size dats) s ≡ each act dats s
  unfolding each pages_of
  each_page-pages_of zero dats s h fits enough = absurd (omega arith)
  each_page-pages_of (suc fuel) [] s h fits enough = unfold each_page in refl
  each_page-pages_of (suc fuel) ((t, dat) ∷ dats) s h (fit, fits) enough =
      let page = prepare_data_buf_by_page size dat t in
      let len : length page ≡ size = length-prepare size dat t h in
      let both : length (page ++ pages_of size dats) ≡ length page + length (pages_of size dats) =
        length-append page (pages_of size dats) in
      let ih : (s' : S) → each_page fuel size visit (pages_of size dats) s' ≡ each act dats s' =
        λ s'. each_page-pages_of fuel dats s' h fits (omega arith) in
      let front : take size (page ++ pages_of size dats) ≡ page =
        take-append size page (pages_of size dats) (sym len) in
      let back : drop size (page ++ pages_of size dats) ≡ pages_of size dats =
        drop-append size page (pages_of size dats) (sym len) in
      each_page-step fuel size visit (page ++ pages_of size dats) s (omega arith) (omega arith)
      ∙ rw front (rw back (rw (visit-act dat t s fit) (continue-same (act (t, dat) s) ih)))

module _ {ℓ} {S : Type ℓ} (fn : Text → Io S (Unit {0})) where
  replay_page-prepare :
      (size : ℕ) (dat : Text) (t : EntryType) (s : S)
      → record_header_size ≤ size
      → size < 2 ^ 16
      → length dat ≤ size - record_header_size
      → replay_page fn (prepare_data_buf_by_page size dat t) s ≡ fn dat s
  unfolding replay_page each
  replay_page-prepare size dat t s h lt fits =
      rw (page_records_info-prepare size dat t h lt fits) (continue-tt (fn dat s))

  -- For pages of at least the header and less than 65536 bytes, made from data that fits, replaying
  -- a file of them hands the data of each page to the callback, in order, up to the first error,
  -- and ends as the callbacks do.
  pub replay_content-pages_of :
      (size : ℕ) (dats : List (EntryType × Text)) (s : S)
      → record_header_size ≤ size
      → size < 2 ^ 16
      → AllFit size dats
      → replay_content size fn (pages_of size dats) s
        ≡ each (λ (p : EntryType × Text). fn p.1) dats s
  unfolding replay_content
  replay_content-pages_of size dats s h lt fits =
      each_page-pages_of size (replay_page fn) (λ p. fn p.1)
        (λ dat t s' fit. replay_page-prepare size dat t s' h lt fit)
        (suc (length (pages_of size dats))) dats s h fits (omega arith)
