-- ===== src/Kv/Durability.antt =====
-- A put of the store (internal/service/solestorage.go) is found by a replay of its log.
use nekoq_bootstrap.Base.{
  List, Outcome, Text, [], ap, false, leb, length, le→leb, ok, refl, true, ℕ, ◌++◌, ◌-◌, ◌<◌, ◌^◌,
  ◌∙◌, ◌∷◌, ◌≡◌, ◌≤◌,
}
use nekoq_bootstrap.Base.Io.{Io, continue, continue-keeps, each, ◌>>◌}
use nekoq_bootstrap.Kv.Recovery.{AreEncoded, each-recover_fn}
use nekoq_bootstrap.Kv.Sole.{Cbor, WalEntry, recover_fn, sole_put, write_version, write_wal_entry}
use nekoq_bootstrap.Kv.Storage.{Diskv, storage_put}
use nekoq_bootstrap.Wal.Chunks.{entry_chunks}
use nekoq_bootstrap.Wal.Disk.{DiskWal, contents}
use nekoq_bootstrap.Wal.Durable.{IsWriting, write_entry-replay}
use nekoq_bootstrap.Wal.Names.{SequenceId}
use nekoq_bootstrap.Wal.Page.{EntryType, record_header_size, whole}
use nekoq_bootstrap.Wal.Replay.{on_state, replay_content}
use nekoq_bootstrap.Wal.ReplayPages.{AllFit, pages_of}
use nekoq_bootstrap.Wal.Write.{write_entry}

pub AreEncoded-append :
    (cbor : Cbor) (es : List WalEntry) (ps : List (EntryType × Text)) (e : WalEntry)
    (p : EntryType × Text)
    → AreEncoded cbor es ps
    → cbor.unmarshal_entry p.1 ≡ ok e
    → AreEncoded cbor (es ++ e ∷ []) (ps ++ p ∷ [])
AreEncoded-append cbor [] [] e p h u = (u, tt)
AreEncoded-append cbor [] (q ∷ ps) e p h u = absurd h
AreEncoded-append cbor (d ∷ es) [] e p h u = absurd h
AreEncoded-append cbor (d ∷ es) (q ∷ ps) e p (this, all) u =
    (this, AreEncoded-append cbor es ps e p all u)

pub one_chunk : (max : ℕ) (dat : Text) → length dat ≤ max → entry_chunks max dat ≡ (whole, dat) ∷ []
unfolding entry_chunks
one_chunk max dat h =
    let fits : leb (length dat) max ≡ true = le→leb (length dat) max h in rw fits refl

module _ {D : Type 0} (diskv : Diskv D) (cbor : Cbor) where
  -- Only the first step of a put touches the log.
  sole_put-log :
      (key val : Text) (w : DiskWal) (d : D)
      → (sole_put diskv cbor key val (w, d)).0.0
        ≡ (write_wal_entry diskv cbor (record { key = key; value = val; deletion = false }) w).0
  unfolding sole_put
  sole_put-log key val w d =
      let r = write_wal_entry diskv cbor (record { key = key; value = val; deletion = false }) w in
      let P : DiskWal × D → Type 0 = λ x. x.0 ≡ r.0 in
      continue-keeps P ((r.0, d), r.1) (λ seq. rest seq) refl
        (λ seq x h.
          continue-keeps P
            ((x.0, (storage_put diskv key val x.1).0), (storage_put diskv key val x.1).1)
            (λ _. on_state (write_version diskv cbor seq)) h (λ _ y k. k))
    where
      rest : SequenceId → Io (DiskWal × D) (Unit {0})
      rest seq = do on_state (storage_put diskv key val); on_state (write_version diskv cbor seq)

  -- Where the log's current file is open with pages that fit and hold the encodings of some
  -- entries, has room for one more page, and the disk does not fail, and where the encoding of an
  -- entry fits a page and is decoded as that entry: after a put of it, whatever the store makes of
  -- it, replaying the file puts the earlier entries and then this one again, in order, on any data,
  -- up to the first that the store refuses.
  pub sole_put-replay :
      (name key val dat : Text) (size : ℕ) (es : List WalEntry) (ps : List (EntryType × Text))
      (w : DiskWal) (d start_data : D)
      → record_header_size < size
      → size < 2 ^ 16
      → cbor.marshal_entry (record { key = key; value = val; deletion = false }) ≡ ok dat
      → cbor.unmarshal_entry dat ≡ ok (record { key = key; value = val; deletion = false })
      → length dat ≤ size - record_header_size
      → AllFit size ps
      → AreEncoded cbor es ps
      → IsWriting name size (pages_of size ps) 1 w
      → replay_content size
          (recover_fn diskv cbor)
          (contents name (sole_put diskv cbor key val (w, d)).0.0.files)
          start_data
        ≡ each
            (λ (e : WalEntry). storage_put diskv e.key e.value)
            (es ++ record { key = key; value = val; deletion = false } ∷ [])
            start_data
  unfolding write_wal_entry
  sole_put-replay name key val dat size es ps w d start_data h lt m u short fits enc writing =
      let e : WalEntry = record { key = key; value = val; deletion = false } in
      let pages = one_chunk (size - record_header_size) dat short in
      let logged : (sole_put diskv cbor key val (w, d)).0.0 ≡ (write_entry dat w).0 =
        sole_put-log key val w d
        ∙ ap (λ (o : Outcome Text). (continue o (λ dat. write_entry dat) w).0) m in
      let replayed =
        (write_entry-replay (recover_fn diskv cbor) name dat size ps w start_data h lt fits
          (rw pages writing)).1 in
      ap
        (λ (v : DiskWal).
          replay_content size (recover_fn diskv cbor) (contents name v.files) start_data)
        logged
      ∙ replayed
      ∙ ap (λ qs. each (λ (p : EntryType × Text). recover_fn diskv cbor p.1) (ps ++ qs) start_data)
          pages
      ∙ each-recover_fn diskv cbor (es ++ e ∷ []) (ps ++ (whole, dat) ∷ []) start_data
          (AreEncoded-append cbor es ps e (whole, dat) enc u)
