-- ===== src/Wal/Files.antt =====
-- The folder of a log that has been written from its start: one file for each collection, in order
-- (internal/wal/wal.go).
use nekoq_bootstrap.Base.{
  ==_refl, Bool-cases, Key, List, Option, Text, [], ap, arith, false, inl, inr, length, ltb,
  nat_key, none, refl, same-eq, some, sym, text_key, ℕ, ◌++◌, ◌+◌, ◌<◌, ◌==◌, ◌∙◌, ◌∷◌, ◌≡◌, ◌≤◌,
}
use nekoq_bootstrap.Base.Maps.{Map, insert, lookup}
use nekoq_bootstrap.Wal.Disk.{contents}
use nekoq_bootstrap.Wal.Names.{filename, int64_limit}
use nekoq_bootstrap.Wal.NamesOrder.{text_lt-filename}
use nekoq_bootstrap.Wal.Order.{text_lt}
use nekoq_bootstrap.Wal.Page.{EntryType}
use nekoq_bootstrap.Wal.ReplayPages.{pages_of}

abbrev pub Page : Type 0
Page = EntryType × Text

-- The name of a file of the first term.
abbrev pub name_of : ℕ → Text
name_of collection = filename 1 collection 0

-- Files with these pages, from a collection on.
unfoldable pub files_of : ℕ → ℕ → List (List Page) → Map Text Text
files_of size c [] = []
files_of size c (pages ∷ later) = (name_of c, pages_of size pages) ∷ files_of size (c + 1) later

module _ {ℓ κ} {K : Type ℓ} ⦃key : Key K⦄ {V : Type κ} where
  pub insert-absent :
      (k : K) (v : V) (m : Map K V) → lookup k m ≡ none → insert k v m ≡ m ++ (k, v) ∷ []
  unfolding lookup insert
  insert-absent k v [] h = refl
  insert-absent k v ((i, u) ∷ m) h =
      let ih : lookup k m ≡ none → insert k v m ≡ m ++ (k, v) ∷ [] = insert-absent k v m in
      ground (arith, ih)

  pub insert-last :
      (k : K) (u v : V) (m : Map K V)
      → lookup k m ≡ none
      → insert k v (m ++ (k, u) ∷ []) ≡ m ++ (k, v) ∷ []
  unfolding lookup insert
  insert-last k u v [] h = rw (==_refl k) refl
  insert-last k u v ((i, x) ∷ m) h =
      let ih : lookup k m ≡ none → insert k v (m ++ (k, u) ∷ []) ≡ m ++ (k, v) ∷ [] =
        insert-last k u v m in
      ground (arith, ih)

  pub lookup-last :
      (k : K) (u : V) (m : Map K V) → lookup k m ≡ none → lookup k (m ++ (k, u) ∷ []) ≡ some u
  unfolding lookup
  lookup-last k u [] h = rw (==_refl k) refl
  lookup-last k u ((i, x) ∷ m) h =
      let ih : lookup k m ≡ none → lookup k (m ++ (k, u) ∷ []) ≡ some u = lookup-last k u m in
      ground (arith, ih)

  pub insert-present : (k : K) (v : V) (m : Map K V) → lookup k m ≡ some v → insert k v m ≡ m
  unfolding lookup insert
  insert-present k v [] h = cc
  insert-present k v ((i, u) ∷ m) h =
      let ih : lookup k m ≡ some v → insert k v m ≡ m = insert-present k v m in
      ground (arith, ih, key.same_iff i k)

abbrev bytes_in : Option Text → Text
bytes_in o = elim o [ none ↦ [] | some bytes ↦ bytes ]

pub contents-found :
    (name u : Text) (m : Map Text Text) → lookup name m ≡ some u → contents name m ≡ u
contents-found name u m h = ap bytes_in h

pub contents-absent :
    (name : Text) (m : Map Text Text) → lookup name m ≡ none → contents name m ≡ []
contents-absent name m h = ap bytes_in h

-- The names of files of one term are ordered as their collections.
pub text_lt-name_of :
    (a b : ℕ) → a < int64_limit → b < int64_limit → text_lt (name_of a) (name_of b) ≡ ltb a b
text_lt-name_of a b p q = text_lt-filename 1 a 0 1 b 0 (omega arith) p (omega arith) q

later_ltb : {a b : ℕ} → a < b → ltb a b ≡ ltb a a → ⊥
later_ltb lt h = ground arith

pub name_of-distinct : (a b : ℕ) → a < b → b < int64_limit → (name_of a == name_of b) ≡ false
name_of-distinct a b lt limit = elim (Bool-cases (name_of a == name_of b)) [
  | inr e ↦ e
  | inl e ↦ absurd (
      later_ltb lt (
        sym (text_lt-name_of a b (omega arith) limit)
        ∙ ap (text_lt (name_of a)) (sym (same-eq (name_of a) (name_of b) e))
        ∙ text_lt-name_of a a (omega arith) (omega arith)))
]

pub files_of-snoc :
    (size c : ℕ) (fs : List (List Page)) (pages : List Page)
    → files_of size c (fs ++ pages ∷ [])
      ≡ files_of size c fs ++ (name_of (c + length fs), pages_of size pages) ∷ []
unfolding files_of
files_of-snoc size c [] pages = ap (λ z. (name_of z, pages_of size pages) ∷ []) (omega arith)
files_of-snoc size c (f ∷ fs) pages =
    ap (λ rest. (name_of c, pages_of size f) ∷ rest)
      (files_of-snoc size (c + 1) fs pages
        ∙ ap (λ z. files_of size (c + 1) fs ++ (name_of z, pages_of size pages) ∷ []) (omega arith))

pub lookup-files_of :
    (size c : ℕ) (fs : List (List Page)) (later : ℕ)
    → c + length fs ≤ later
    → later < int64_limit
    → lookup (name_of later) (files_of size c fs) ≡ none
unfolding files_of lookup
lookup-files_of size c [] later h limit = refl
lookup-files_of size c (f ∷ fs) later h limit =
    rw (name_of-distinct c later (omega arith) limit)
      (lookup-files_of size (c + 1) fs later (omega arith) limit)
