-- ===== src/Kv/WholeRecovery.antt =====
-- What a store that lost its data recovers from its log, over all the files of the log
-- (internal/service/solestorage.go with internal/wal/wal.go).
use nekoq_bootstrap.Base.{
  List, Outcome, Text, [], and_then, ap, append_assoc, append_nil, arith, false, length,
  length-append, map, nat_key, none, ok, refl, subst, suc, sym, text_key, true, ℕ, ◌++◌, ◌+◌, ◌-◌,
  ◌<◌, ◌==◌, ◌^◌, ◌∙◌, ◌∷◌, ◌≡◌,
}
use nekoq_bootstrap.Kv.CrashRecovery.{each_put-read, get_read}
use nekoq_bootstrap.Kv.Durability.{one_chunk}
use nekoq_bootstrap.Kv.PutHistory.{
  AllTaken, ReadsBack, entry_for, last_put, put_all, put_once, read_once, version_valid,
}
use nekoq_bootstrap.Kv.Recovery.{AreEncoded, each-recover_fn}
use nekoq_bootstrap.Kv.Sole.{Cbor, read_version, recover, recover_fn, sole_get, write_version}
use nekoq_bootstrap.Kv.Storage.{Diskv, storage_get, storage_put, validate_key_format, version_key}
use nekoq_bootstrap.Wal.Disk.{DiskWal}
use nekoq_bootstrap.Wal.Files.{Page}
use nekoq_bootstrap.Wal.Names.{SequenceId, int64_limit}
use nekoq_bootstrap.Wal.Page.{record_header_size, whole}
use nekoq_bootstrap.Wal.Recovering.{write_entry-Holds}
use nekoq_bootstrap.Wal.Replay.{replay_incomplete, start_wal_sequence}
use nekoq_bootstrap.Wal.ReplayPages.{AllFit}
use nekoq_bootstrap.Wal.WholeLog.{Holds, IsNew, LogOf}
use nekoq_bootstrap.Wal.WholeReplay.{Holds-LogOf, replay_incomplete-LogOf}
use nekoq_bootstrap.Wal.Write.{cur_position, current_sequence}

-- The pages that some puts write.
abbrev pub put_pages :
    (cbor : Cbor) (size : ℕ) (kvs : List (Text × Text)) → AllTaken cbor size kvs → List Page
put_pages cbor size [] taken = []
put_pages cbor size (kv ∷ kvs) (valid, encodes, taken) =
    (whole, encodes.dat) ∷ put_pages cbor size kvs taken

put_pages-AreEncoded :
    (cbor : Cbor) (size : ℕ) (kvs : List (Text × Text)) (taken : AllTaken cbor size kvs)
    → AreEncoded cbor (map entry_for kvs) (put_pages cbor size kvs taken)
put_pages-AreEncoded cbor size [] taken = tt
put_pages-AreEncoded cbor size (kv ∷ kvs) (valid, encodes, taken) =
    (encodes.unmarshalled, put_pages-AreEncoded cbor size kvs taken)

put_pages-AllFit :
    (cbor : Cbor) (size : ℕ) (kvs : List (Text × Text)) (taken : AllTaken cbor size kvs)
    → AllFit size (put_pages cbor size kvs taken)
put_pages-AllFit cbor size [] taken = tt
put_pages-AllFit cbor size (kv ∷ kvs) (valid, encodes, taken) =
    (encodes.short, put_pages-AllFit cbor size kvs taken)

length-put_pages :
    (cbor : Cbor) (size : ℕ) (kvs : List (Text × Text)) (taken : AllTaken cbor size kvs)
    → length (put_pages cbor size kvs taken) ≡ length kvs
length-put_pages cbor size [] taken = refl
length-put_pages cbor size (kv ∷ kvs) (valid, encodes, taken) =
    ap suc (length-put_pages cbor size kvs taken)

module _ {D : Type 0} (diskv : Diskv D) (cbor : Cbor) (laws : ReadsBack diskv)
    (versions : (s : SequenceId) → (b : Text) × (cbor.marshal_sequence s ≡ ok b)) (size : ℕ)
    (lt : record_header_size < size) where
  -- A key that is not the version's reads what was put last.
  abbrev Reads : List (Text × Text) → D → D → Type 0
  Reads kvs d d' =
      (q : Text) → (version_key == q) ≡ false → diskv.read d' q ≡ last_put kvs q (diskv.read d q)

  put_all-Holds :
      (kvs : List (Text × Text)) (taken : AllTaken cbor size kvs) (done : List Page) (w : DiskWal)
      (d : D)
      → 2 + length (done ++ put_pages cbor size kvs taken) < int64_limit
      → Holds size done w
      → (w' : DiskWal) × (d' : D) × (put_all diskv cbor kvs (w, d) ≡ (w', d'))
        × Holds size (done ++ put_pages cbor size kvs taken) w'
        × Reads kvs d d'
  unfolding put_all
  put_all-Holds [] taken done w d limit h = (w, d, refl, rw (append_nil done) h, λ q other. refl)
  put_all-Holds ((k, v) ∷ kvs) (valid, encodes, taken) done w d limit h =
      let dat = encodes.dat in
      let rest = put_pages cbor size kvs taken in
      let one = one_chunk (size - record_header_size) dat encodes.short in
      let same = append_assoc done ((whole, dat) ∷ []) rest in
      let (w1, wrote, h1) =
        write_entry-Holds size dat done w lt
          (rw one (
            omega (
              arith,
              length-append done ((whole, dat) ∷ rest),
              length-append done ((whole, dat) ∷ []),
            )))
          h in
      let once =
        put_once diskv cbor laws versions [] size lt k v w w1 d valid dat encodes.marshalled
          wrote in
      let d1 = (diskv.write version_key (versions (cur_position w1)).0 (diskv.write k v d).0).0 in
      let (w2, d2, puts_done, h2, reads) =
        put_all-Holds kvs taken (done ++ (whole, dat) ∷ []) w1 d1 (rw same limit)
          (subst (λ (ps : List Page). Holds size (done ++ ps) w1) one h1) in
      (
        w2,
        d2,
        ap (put_all diskv cbor kvs) once ∙ puts_done,
        subst (λ (ps : List Page). Holds size ps w2) same h2,
        λ q other.
            reads q other
            ∙ ap (last_put kvs q)
                (read_once diskv cbor laws versions [] size lt q other k v d (cur_position w1)),
      )

  read_version-none :
      (d : D) → storage_get diskv d version_key ≡ ok none → read_version diskv cbor d ≡ ok none
  unfolding read_version
  read_version-none d h = rw h refl

  write_version-done :
      (seq : SequenceId) (d : D)
      → write_version diskv cbor seq d ≡ ((diskv.write version_key (versions seq).0 d).0, ok tt)
  unfolding write_version storage_put
  write_version-done seq d =
      rw (versions seq).1 (rw version_valid (rw (laws.written version_key (versions seq).0 d) refl))

  recover-replayed :
      (w : DiskWal) (d0 d' : D)
      → storage_get diskv d0 version_key ≡ ok none
      → replay_incomplete start_wal_sequence (recover_fn diskv cbor) (w, d0)
        ≡ ((w, d'), ok (current_sequence w))
      → recover diskv cbor (w, d0)
        ≡ ((w, (diskv.write version_key (versions (current_sequence w)).0 d').0), ok tt)
  unfolding recover
  recover-replayed w d0 d' unversioned replayed =
      rw (read_version-none d0 unversioned)
        (rw replayed (rw (write_version-done (current_sequence w) d') refl))

  log_replayed :
      (kvs : List (Text × Text)) (taken : AllTaken cbor size kvs) (w : DiskWal) (d0 : D)
      → size < 2 ^ 16
      → 2 + length kvs < int64_limit
      → 1 < length kvs
      → LogOf size (put_pages cbor size kvs taken) w
      → (d' : D) × (replay_incomplete start_wal_sequence (recover_fn diskv cbor) (w, d0)
          ≡ ((w, d'), ok (current_sequence w)))
        × ((q : Text) → diskv.read d' q ≡ last_put kvs q (diskv.read d0 q))
  log_replayed kvs taken w d0 lt' limit many log =
      let pages = put_pages cbor size kvs taken in
      let count = length-put_pages cbor size kvs taken in
      let (d', done, reads) = each_put-read diskv cbor laws size kvs d0 taken in
      (
        d',
        replay_incomplete-LogOf (recover_fn diskv cbor) size pages w d0 lt lt' (omega arith)
              (omega arith) (put_pages-AllFit cbor size kvs taken) log
            ∙ ap
                (λ (r : D × Outcome (Unit {0})).
                  ((w, r.0), and_then r.1 (λ _. ok (current_sequence w))))
                (each-recover_fn diskv cbor (map entry_for kvs) pages d0
                    (put_pages-AreEncoded cbor size kvs taken)
                  ∙ done),
        reads,
      )

  -- After two puts or more, each of a valid key with an entry that a page holds, into a store with a new
  -- log, whatever files the log takes and where the disk does not fail, the store has under every valid
  -- key but that of the version what was put last; and a store that has the log but other data, without a
  -- version, recovers: it ends with the same under each of these keys, and under those that were not put
  -- with what it had. diskv reads what was written last, entries and positions can be encoded, and there
  -- are less than 2^63 puts.
  pub put_all-recover :
      (kvs : List (Text × Text)) (w : DiskWal) (d d0 : D)
      → size < 2 ^ 16
      → 2 + length kvs < int64_limit
      → 1 < length kvs
      → AllTaken cbor size kvs
      → IsNew size w
      → storage_get diskv d0 version_key ≡ ok none
      → (d' : D) × (recover diskv cbor ((put_all diskv cbor kvs (w, d)).0, d0)
          ≡ (((put_all diskv cbor kvs (w, d)).0, d'), ok tt))
        × ((q : Text)
            → validate_key_format q ≡ true
            → (version_key == q) ≡ false
            → (sole_get diskv cbor (put_all diskv cbor kvs (w, d)) q
                ≡ last_put kvs q (storage_get diskv d q))
              × (storage_get diskv d' q ≡ last_put kvs q (storage_get diskv d0 q)))
  unfolding sole_get
  put_all-recover kvs w d d0 lt' limit many taken new unversioned =
      let pages = put_pages cbor size kvs taken in
      let count = length-put_pages cbor size kvs taken in
      let (w', d1, done, holds, reads) = put_all-Holds kvs taken [] w d (omega arith) new in
      let (d2, replayed, recovered) =
        log_replayed kvs taken w' d0 lt' limit many
          (Holds-LogOf size pages w' (omega arith) holds) in
      let bytes = (versions (current_sequence w')).0 in
      let d' = (diskv.write version_key bytes d2).0 in
      (
        d',
        rw done (recover-replayed w' d0 d2 unversioned replayed),
        λ q valid other. (
          ap (λ st. sole_get diskv cbor st q) done
              ∙ get_read diskv cbor laws q d1 valid
              ∙ reads q other
              ∙ ap (last_put kvs q) (sym (get_read diskv cbor laws q d valid)),
          get_read diskv cbor laws q d' valid
              ∙ laws.read_back version_key bytes q d2
              ∙ rw other
                  (recovered q ∙ ap (last_put kvs q) (sym (get_read diskv cbor laws q d0 valid))),
        ),
      )
