-- ===== src/Kv/Recovery.antt =====
-- What the store of internal/service/solestorage.go recovers from the log that it wrote.
use nekoq_bootstrap.Base.{
  List, Outcome-cases, Text, [], false, inl, inr, ok, refl, ℕ, ◌<◌, ◌^◌, ◌∙◌, ◌∷◌, ◌≡◌, ◌≤◌,
}
use nekoq_bootstrap.Base.Io.{continue-same, each}
use nekoq_bootstrap.Kv.Sole.{Cbor, WalEntry, recover_fn, sole_put, write_wal_entry}
use nekoq_bootstrap.Kv.Storage.{Diskv, storage_put, validate_key_format}
use nekoq_bootstrap.Wal.Disk.{DiskWal}
use nekoq_bootstrap.Wal.Page.{EntryType, record_header_size}
use nekoq_bootstrap.Wal.Replay.{replay_content}
use nekoq_bootstrap.Wal.ReplayPages.{AllFit, pages_of, replay_content-pages_of}

-- The encoder gives these entries back, at the data that it made of them.
abbrev pub AreEncoded : Cbor → List WalEntry → List (EntryType × Text) → Type 0
AreEncoded cbor [] [] = Unit {0}
AreEncoded cbor [] (p ∷ ps) = ⊥
AreEncoded cbor (e ∷ es) [] = ⊥
AreEncoded cbor (e ∷ es) (p ∷ ps) = (cbor.unmarshal_entry p.1 ≡ ok e) × AreEncoded cbor es ps

module _ {D : Type 0} (diskv : Diskv D) (cbor : Cbor) where
  pub each-recover_fn :
      (es : List WalEntry) (ps : List (EntryType × Text)) (d : D)
      → AreEncoded cbor es ps
      → each (λ (p : EntryType × Text). recover_fn diskv cbor p.1) ps d
        ≡ each (λ (e : WalEntry). storage_put diskv e.key e.value) es d
  unfolding each recover_fn
  each-recover_fn [] [] d h = refl
  each-recover_fn [] (p ∷ ps) d h = absurd h
  each-recover_fn (e ∷ es) [] d h = absurd h
  each-recover_fn (e ∷ es) (p ∷ ps) d (this, all) =
      rw this (continue-same (storage_put diskv e.key e.value d) (λ s. each-recover_fn es ps s all))

  -- For pages of at least the header and less than 65536 bytes, each of which holds the encoding of
  -- one entry in data that fits, replaying the file puts the entries again, in order, up to the
  -- first that the store refuses.
  pub replay_content-recover_fn :
      (size : ℕ) (es : List WalEntry) (ps : List (EntryType × Text)) (d : D)
      → record_header_size ≤ size
      → size < 2 ^ 16
      → AllFit size ps
      → AreEncoded cbor es ps
      → replay_content size (recover_fn diskv cbor) (pages_of size ps) d
        ≡ each (λ (e : WalEntry). storage_put diskv e.key e.value) es d
  replay_content-recover_fn size es ps d h lt fits enc =
      replay_content-pages_of (recover_fn diskv cbor) size ps d h lt fits
      ∙ each-recover_fn es ps d enc

  -- A put of an invalid key never succeeds and leaves the data as it was, and leaves the log as the
  -- write of its entry does.
  pub sole_put-invalid :
      (key val : Text) (w : DiskWal) (d : D)
      → validate_key_format key ≡ false
      → (sole_put diskv cbor key val (w, d)).0 ≡ (
        (write_wal_entry diskv cbor (record { key = key; value = val; deletion = false }) w).0,
        d,
      )
        × ¬ ((sole_put diskv cbor key val (w, d)).1 ≡ ok tt)
  unfolding sole_put storage_put
  sole_put-invalid key val w d h =
      elim (Outcome-cases
        (write_wal_entry diskv cbor (record { key = key; value = val; deletion = false }) w).1) [
          | inl (seq, x) ↦ rw (x, h) (refl, λ b. cc)
          | inr (inl (e, x)) ↦ rw x (refl, λ b. cc)
          | inr (inr x) ↦ rw x (refl, λ b. cc)
        ]
