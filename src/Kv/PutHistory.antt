-- ===== src/Kv/PutHistory.antt =====
-- Any number of puts of the store (internal/service/solestorage.go), and the log that they leave.
use nekoq_bootstrap.Base.{
  List, Option, Outcome, Text, [], ap, append_assoc, append_nil, arith, false, if◌then◌else◌, leb,
  length, le→leb, map, nat_key, ok, refl, some, subst, suc, sym, text_key, true, zero, ℕ, ◌++◌, ◌-◌,
  ◌<◌, ◌==◌, ◌∙◌, ◌∷◌, ◌≡◌, ◌≤◌,
}
use nekoq_bootstrap.Kv.Durability.{AreEncoded-append}
use nekoq_bootstrap.Kv.Recovery.{AreEncoded}
use nekoq_bootstrap.Kv.Sole.{Cbor, Sole, WalEntry, sole_put, write_version, write_wal_entry}
use nekoq_bootstrap.Kv.Storage.{Diskv, storage_put, validate_key_format, version_key}
use nekoq_bootstrap.Wal.Disk.{DiskWal, contents}
use nekoq_bootstrap.Wal.Durable.{
  AllFit-snoc, IsWriting, pages_of-snoc, put_page-IsWriting, with_page, with_page-IsWriting,
}
use nekoq_bootstrap.Wal.Names.{SequenceId}
use nekoq_bootstrap.Wal.Page.{EntryType, prepare_data_buf_by_page, record_header_size, whole}
use nekoq_bootstrap.Wal.ReplayPages.{AllFit, pages_of}
use nekoq_bootstrap.Wal.Write.{cur_position, record_max, write_entry, write_entry_with_full_page}

abbrev pub entry_for : Text × Text → WalEntry
entry_for (key, val) = record { key = key; value = val; deletion = false }

-- The encoder gives the entry of a put back, in data that fits a page.
pub record Encodes (cbor : Cbor) (size : ℕ) (kv : Text × Text) : Type 0 where
  pub dat : Text
  pub marshalled : cbor.marshal_entry (entry_for kv) ≡ ok dat
  pub unmarshalled : cbor.unmarshal_entry dat ≡ ok (entry_for kv)
  pub short : length dat ≤ size - record_header_size

-- Puts that the store takes: of valid keys, with entries that a page holds.
abbrev pub AllTaken : Cbor → ℕ → List (Text × Text) → Type 0
AllTaken cbor size [] = Unit {0}
AllTaken cbor size (kv ∷ kvs) =
    (validate_key_format kv.0 ≡ true) × Encodes cbor size kv × AllTaken cbor size kvs

-- github.com/peterbourgon/diskv reads what was written last.
pub record ReadsBack {D : Type 0} (diskv : Diskv D) : Type 0 where
  pub written : (k v : Text) (d : D) → (diskv.write k v d).1 ≡ ok tt
  pub read_back :
      (k v q : Text) (d : D)
      → diskv.read (diskv.write k v d).0 q ≡ (if k == q then ok (some v) else diskv.read d q)

-- What is under a key after some puts.
abbrev pub last_put : List (Text × Text) → Text → Outcome (Option Text) → Outcome (Option Text)
last_put [] q before = before
last_put ((k, v) ∷ kvs) q before = last_put kvs q (if k == q then ok (some v) else before)

one_page-IsWriting :
    {name content : Text} {size n : ℕ} (dat : Text) (w : DiskWal)
    → IsWriting name size content (suc n) w
    → length dat ≤ size - record_header_size
    → record_header_size < size
    → (w' : DiskWal) × (write_entry dat w ≡ (w', ok (cur_position w')))
      × IsWriting name size (content ++ prepare_data_buf_by_page size dat whole) n w'
unfolding write_entry write_entry_with_full_page
one_page-IsWriting {name} {content} {size} {n} dat w h short lt =
    let page = prepare_data_buf_by_page size dat whole in
    let there = with_page-IsWriting page w h in
    let room : record_max w ≡ size - record_header_size =
      ap (λ z. z - record_header_size) h.page_size in
    let fits : leb (length dat) (record_max w) ≡ true =
      ap (leb (length dat)) room ∙ le→leb (length dat) (size - record_header_size) short in
    (
      record (with_page name page w) { dirty = true },
      rw fits (rw (put_page-IsWriting dat whole w h) refl),
      record {
        open_handle = there.open_handle;
        no_failure = there.no_failure;
        page_size = there.page_size;
        content_there = there.content_there;
        room = there.room;
      },
    )

pub version_valid : validate_key_format version_key ≡ true
unfolding validate_key_format
version_valid = refl

module _ {D : Type 0} (diskv : Diskv D) (cbor : Cbor) where
  -- The puts one after the other; an error of one does not stop the next.
  unfoldable pub put_all : List (Text × Text) → Sole D → Sole D
  put_all [] st = st
  put_all ((k, v) ∷ kvs) st = put_all kvs (sole_put diskv cbor k v st).0

  module _ (laws : ReadsBack diskv)
      (versions : (s : SequenceId) → (b : Text) × (cbor.marshal_sequence s ≡ ok b)) (name : Text)
      (size : ℕ) (lt : record_header_size < size) where
    pub put_once :
        (key val : Text) (w w' : DiskWal) (d : D)
        → validate_key_format key ≡ true
        → (dat : Text) → cbor.marshal_entry (entry_for (key, val)) ≡ ok dat
        → write_entry dat w ≡ (w', ok (cur_position w'))
        → (sole_put diskv cbor key val (w, d)).0 ≡ (
          w',
          (diskv.write version_key (versions (cur_position w')).0 (diskv.write key val d).0).0,
        )
    unfolding sole_put write_wal_entry write_version storage_put
    put_once key val w w' d valid dat m e =
        let stored = laws.written key val d in
        let (bytes, encoded) = versions (cur_position w') in
        rw m (rw e (rw valid (rw stored (rw encoded (rw version_valid refl)))))

    module _ (q : Text) (other : (version_key == q) ≡ false) where
      -- A put, as a read of another key than the version's sees it.
      pub read_once :
          (key val : Text) (d : D) (s : SequenceId)
          → diskv.read (diskv.write version_key (versions s).0 (diskv.write key val d).0).0 q
            ≡ (if key == q then ok (some val) else diskv.read d q)
      read_once key val d s =
          laws.read_back version_key (versions s).0 q (diskv.write key val d).0
          ∙ rw other (laws.read_back key val q d)

      -- What some puts leave: the last values of the keys, and a log that holds the entries.
      abbrev pub Left : List (Text × Text) → List WalEntry → D → Sole D → Type 0
      Left kvs es d st =
          (diskv.read st.1 q ≡ last_put kvs q (diskv.read d q))
          × (ps : List (EntryType × Text)) × (contents name st.0.files ≡ pages_of size ps)
          × AllFit size ps
          × AreEncoded cbor (es ++ map entry_for kvs) ps

      pub put_all-Left :
          (kvs : List (Text × Text)) (n : ℕ) (es : List WalEntry) (ps : List (EntryType × Text))
          (w : DiskWal) (d : D)
          → n ≡ length kvs
          → AllTaken cbor size kvs
          → AllFit size ps
          → AreEncoded cbor es ps
          → IsWriting name size (pages_of size ps) n w
          → Left kvs es d (put_all kvs (w, d))
      unfolding put_all
      put_all-Left [] n es ps w d e taken fits enc writing =
          (refl, ps, writing.content_there, fits, rw (append_nil es) enc)
      put_all-Left ((k, v) ∷ kvs) zero es ps w d e taken fits enc writing = absurd (omega arith)
      put_all-Left ((k, v) ∷ kvs) (suc n) es ps w d e (valid, encodes, taken) fits enc writing =
          let dat = encodes.dat in
          let (w', done, there) = one_page-IsWriting dat w writing encodes.short lt in
          let once = put_once k v w w' d valid dat encodes.marshalled done in
          let d' =
            (diskv.write version_key (versions (cur_position w')).0 (diskv.write k v d).0).0 in
          let es' = es ++ entry_for (k, v) ∷ [] in
          let ps' = ps ++ (whole, dat) ∷ [] in
          let there' : IsWriting name size (pages_of size ps') n w' =
            subst (λ c. IsWriting name size c n w') (sym (pages_of-snoc size ps whole dat)) there in
          let ih =
            put_all-Left kvs n es' ps' w' d' (omega arith) taken
              (AllFit-snoc size ps whole dat fits encodes.short)
              (AreEncoded-append cbor es ps (entry_for (k, v)) (whole, dat) enc
                encodes.unmarshalled)
              there' in
          subst (λ st. Left ((k, v) ∷ kvs) es d (put_all kvs st)) (sym once)
            (
              ih.0 ∙ ap (last_put kvs q) (read_once k v d (cur_position w')),
              ih.1,
              ih.2,
              ih.3,
              subst (λ l. AreEncoded cbor l ih.1)
                  (append_assoc es (entry_for (k, v) ∷ []) (map entry_for kvs)) ih.4,
            )
