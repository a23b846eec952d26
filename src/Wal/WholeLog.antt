-- ===== src/Wal/WholeLog.antt =====
-- Pages written one after the other into a log that starts empty (internal/wal/wal.go), over as many
-- files as they take, on a disk that does not fail.
use nekoq_bootstrap.Base.{
  Bool-cases, List, Text, [], ap, append_assoc, append_nil, arith, inl, inr, length, length-append,
  ltb, nat_key, none, ok, refl, some, suc, sym, text_key, ℕ, ◌*◌, ◌++◌, ◌+◌, ◌<◌, ◌∙◌, ◌∷◌, ◌≡◌,
  ◌⊎◌,
}
use nekoq_bootstrap.Base.Maps.{insert, lookup}
use nekoq_bootstrap.Dns.Server.{written}
use nekoq_bootstrap.Wal.Bounds.{fit_or_rotate, guarantee_page-cases}
use nekoq_bootstrap.Wal.Disk.{DiskWal, contents, opened}
use nekoq_bootstrap.Wal.EmptyFile.{open_file-success}
use nekoq_bootstrap.Wal.Files.{Page, files_of, name_of}
use nekoq_bootstrap.Wal.Names.{filename, int64_limit}
use nekoq_bootstrap.Wal.Page.{EntryType}
use nekoq_bootstrap.Wal.ReplayPages.{pages_of}
use nekoq_bootstrap.Wal.Rotation.{
  Logged, next_file, next_file-Logged, rotate-success, write_data_page-Logged,
}
use nekoq_bootstrap.Wal.Write.{guarantee_page, open_cur_file, open_first, put_page}

abbrev pub flat : List (List Page) → List Page
flat [] = []
flat (pages ∷ files) = pages ++ flat files

-- A log of NewDiskWal on an empty folder, with pages of some size.
pub record IsNew (size : ℕ) (w : DiskWal) : Type 0 where
  pub no_files : w.files ≡ []
  pub no_handle : w.cur_file ≡ none
  pub no_failure : w.answers ≡ []
  pub page_size : w.max_page_size ≡ size
  pub term : w.cur_term ≡ 1
  pub collection : w.cur_collection ≡ 0

-- The log holds these pages in its files, in order.
abbrev pub LogOf : ℕ → List Page → DiskWal → Type 0
LogOf size done w =
    (older : List (List Page)) × (cur : List Page) × Logged size older cur w
    × (flat (older ++ cur ∷ []) ≡ done)
    × (length older < length done)

abbrev pub Holds : ℕ → List Page → DiskWal → Type 0
Holds size [] w = IsNew size w
Holds size (p ∷ done) w = LogOf size (p ∷ done) w

flat-snoc :
    (older : List (List Page)) (cur more : List Page)
    → flat (older ++ (cur ++ more) ∷ []) ≡ flat (older ++ cur ∷ []) ++ more
flat-snoc [] cur more = append_nil (cur ++ more) ∙ ap (λ z. z ++ more) (sym (append_nil cur))
flat-snoc (f ∷ older) cur more =
    ap (λ z. f ++ z) (flat-snoc older cur more)
    ∙ sym (append_assoc f (flat (older ++ cur ∷ [])) more)

flat-new : (older : List (List Page)) → flat (older ++ [] ∷ []) ≡ flat older
flat-new [] = refl
flat-new (f ∷ older) = ap (λ z. f ++ z) (flat-new older)

first_file :
    (size : ℕ) → insert (name_of 1) (contents (name_of 1) []) [] ≡ files_of size 1 ([] ∷ [])
unfolding insert lookup files_of pages_of
first_file size = refl

open_first-Logged :
    (size : ℕ) (w : DiskWal)
    → IsNew size w
    → (w' : DiskWal) × (open_first w ≡ (w', ok tt)) × Logged size [] [] w'
unfolding open_first open_cur_file
open_first-Logged size w new =
    let count : w.cur_collection + 1 ≡ 1 = (let c = new.collection in omega arith) in
    let name : filename w.cur_term (w.cur_collection + 1) 0 ≡ name_of 1 =
      ap (λ t. filename t (w.cur_collection + 1) 0) new.term ∙ ap name_of count in
    let counted = record w { cur_collection = w.cur_collection + 1; cur_seq = 0 } in
    let file = filename w.cur_term (w.cur_collection + 1) 0 in
    (
      record counted {
        files = insert file (contents file w.files) w.files;
        cur_file = some (opened file);
      },
      rw (open_file-success file counted new.no_failure) refl,
      record {
        files_there =
            ap (λ n. insert n (contents n w.files) w.files) name
            ∙ ap (λ m. insert (name_of 1) (contents (name_of 1) m) m) new.no_files
            ∙ first_file size;
        handle = ap (λ n. some (opened n)) name;
        no_failure = new.no_failure;
        page_size = new.page_size;
        term = new.term;
        collection = count;
        sequence = refl;
      },
    )

-- A page after the guarantee of its room.
put_after :
    (size : ℕ) (older : List (List Page)) (cur : List Page) (t : EntryType) (dat : Text)
    (w w' : DiskWal)
    → 1 + length older < int64_limit
    → guarantee_page 1 w ≡ (w', ok tt)
    → Logged size older cur w'
    → (w'' : DiskWal) × (put_page dat t w ≡ (w'', ok tt))
      × Logged size older (cur ++ (t, dat) ∷ []) w''
unfolding put_page
put_after size older cur t dat w w' limit g l =
    let (w'', written, l') = write_data_page-Logged size older cur t dat w' limit l in
    (w'', rw (put_page, g) written, l')

guarantee_page-Logged :
    (size : ℕ) (older : List (List Page)) (cur : List Page) (w : DiskWal)
    → 2 + length older < int64_limit
    → Logged size older cur w
    → (guarantee_page 1 w ≡ (w, ok tt)) ⊎ (guarantee_page 1 w ≡ (next_file w, ok tt))
guarantee_page-Logged size older cur w limit l =
    let name = name_of (1 + length older) in
    let cases : guarantee_page 1 w ≡ fit_or_rotate w (some (opened name)) =
      guarantee_page-cases w ∙ ap (fit_or_rotate w) l.handle in
    elim (Bool-cases (ltb w.max_file_size ((w.page_occupied + 1) * w.max_page_size))) [
      | inl e ↦ inr (cases ∙ rw e (rotate-success name w l.handle l.no_failure))
      | inr e ↦ inl (cases ∙ rw e refl)
    ]

page_after :
    (size : ℕ) (done : List Page) (t : EntryType) (dat : Text) (w w' : DiskWal)
    (older : List (List Page)) (cur : List Page)
    → length older < suc (length done)
    → 1 + length older < int64_limit
    → flat (older ++ cur ∷ []) ≡ done
    → guarantee_page 1 w ≡ (w', ok tt)
    → Logged size older cur w'
    → (w'' : DiskWal) × (put_page dat t w ≡ (w'', ok tt)) × LogOf size (done ++ (t, dat) ∷ []) w''
page_after size done t dat w w' older cur short limit same g l =
    let (w'', put, l') = put_after size older cur t dat w w' limit g l in
    (
      w'',
      put,
      (
        older,
        cur ++ (t, dat) ∷ [],
        l',
        flat-snoc older cur ((t, dat) ∷ []) ∙ ap (λ z. z ++ (t, dat) ∷ []) same,
        omega (arith, length-append done ((t, dat) ∷ [])),
      ),
    )

pub put_page-Holds :
    (size : ℕ) (done : List Page) (t : EntryType) (dat : Text) (w : DiskWal)
    → 2 + length done < int64_limit
    → Holds size done w
    → (w' : DiskWal) × (put_page dat t w ≡ (w', ok tt)) × Holds size (done ++ (t, dat) ∷ []) w'
put_page-Holds size [] t dat w limit new =
    let (w', made, l) = open_first-Logged size w new in
    page_after size [] t dat w w' [] [] (omega arith) (omega arith) refl
      (guarantee_page-cases w ∙ ap (fit_or_rotate w) new.no_handle ∙ made) l
put_page-Holds size (p ∷ done) t dat w limit (older, cur, l, same, short) =
    elim (guarantee_page-Logged size older cur w (omega arith) l) [
      | inl g ↦ page_after size (p ∷ done) t dat w w older cur (omega arith) (omega arith) same g l
      | inr g ↦
          page_after size (p ∷ done) t dat w (next_file w) (older ++ cur ∷ []) []
            (omega (arith, length-append older (cur ∷ [])))
            (omega (arith, length-append older (cur ∷ []))) (flat-new (older ++ cur ∷ []) ∙ same) g
            (next_file-Logged size older cur w (omega arith) l)
    ]
