-- ===== src/Kv/CrashRecovery.antt =====
-- What a store that lost its data gets back from its log (internal/service/solestorage.go).
use nekoq_bootstrap.Base.{
  List, Text, [], ap, map, nat_key, ok, refl, text_key, true, ℕ, ◌∙◌, ◌∷◌, ◌≡◌,
}
use nekoq_bootstrap.Base.Io.{each}
use nekoq_bootstrap.Kv.PutHistory.{AllTaken, ReadsBack, entry_for, last_put}
use nekoq_bootstrap.Kv.Sole.{Cbor, WalEntry}
use nekoq_bootstrap.Kv.Storage.{Diskv, storage_get, storage_put, validate_key_format}

module _ {D : Type 0} (diskv : Diskv D) (cbor : Cbor) (laws : ReadsBack diskv) where
  -- The entries of some puts, put again.
  pub each_put-read :
      (size : ℕ) (kvs : List (Text × Text)) (d : D)
      → AllTaken cbor size kvs
      → (d' : D) × (each (λ (e : WalEntry). storage_put diskv e.key e.value) (map entry_for kvs) d
          ≡ (d', ok tt))
        × ((q : Text) → diskv.read d' q ≡ last_put kvs q (diskv.read d q))
  unfolding each storage_put
  each_put-read size [] d taken = (d, refl, λ q. refl)
  each_put-read size ((k, v) ∷ kvs) d (valid, encodes, taken) =
      let (d', done, reads) = each_put-read size kvs (diskv.write k v d).0 taken in
      (
        d',
        rw valid (rw (laws.written k v d) done),
        λ q. reads q ∙ ap (last_put kvs q) (laws.read_back k v q d),
      )

  pub get_read :
      (q : Text) (d : D) → validate_key_format q ≡ true → storage_get diskv d q ≡ diskv.read d q
  unfolding storage_get
  get_read q d valid = rw valid refl
