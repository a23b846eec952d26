-- ===== src/Wal/NamesOrder.antt =====
-- The order of the names of log files (slices.Sort in `listWalFiles` and `Initialize`, and the
-- comparison in `ReplayIncomplete`, of internal/wal/wal.go) is the order of their positions.
use mathlib.Core.Path.{ap₂}
use nekoq_bootstrap.Base.{
  Bool, Text, [], ap, append_assoc, append_nil, arith, ltb, nat_same, refl, suc, sym, zero, ℕ, ◌%◌,
  ◌&&◌, ◌++◌, ◌/◌, ◌<◌, ◌||◌, ◌∙◌, ◌∷◌, ◌≡◌,
}
use nekoq_bootstrap.Wal.Names.{filename, hex_digit, hex_digits, int64_limit}
use nekoq_bootstrap.Wal.NamesRoundTrip.{int64_limit-sixteens, sixteens}
use nekoq_bootstrap.Wal.Order.{text_lt}

hex_digit-ltb : (a b : ℕ) → a < 16 → b < 16 → ltb (hex_digit a) (hex_digit b) ≡ ltb a b
unfolding hex_digit
hex_digit-ltb a b h h' = ground arith

hex_digit-nat_same :
    (a b : ℕ) → a < 16 → b < 16 → nat_same (hex_digit a) (hex_digit b) ≡ nat_same a b
unfolding hex_digit
hex_digit-nat_same a b h h' = ground arith

-- Comparing by the quotients and then by the remainders is comparing.
by_digits :
    (n m : ℕ) (rest : Bool)
    → (ltb (n / 16) (m / 16)
        || (nat_same (n / 16) (m / 16)
            && (ltb (n % 16) (m % 16) || (nat_same (n % 16) (m % 16) && rest))))
      ≡ (ltb n m || (nat_same n m && rest))
by_digits n m rest = ground arith

text_lt-digits :
    (a b : ℕ) (s s' : Text)
    → a < 16
    → b < 16
    → text_lt (hex_digit a ∷ s) (hex_digit b ∷ s') ≡ (ltb a b || (nat_same a b && text_lt s s'))
unfolding text_lt
text_lt-digits a b s s' h h' = rw (hex_digit-ltb a b h h', hex_digit-nat_same a b h h') refl

text_lt-hex_digits :
    (k n m : ℕ) (s s' : Text)
    → n < sixteens k
    → m < sixteens k
    → text_lt (hex_digits k n ++ s) (hex_digits k m ++ s')
      ≡ (ltb n m || (nat_same n m && text_lt s s'))
unfolding hex_digits sixteens
text_lt-hex_digits zero n m s s' h h' =
    let n_0 : n ≡ 0 = omega arith in let m_0 : m ≡ 0 = omega arith in rw (n_0, m_0) refl
text_lt-hex_digits (suc k) n m s s' h h' =
    let d = hex_digit (n % 16) in
    let e = hex_digit (m % 16) in
    let ih = text_lt-hex_digits k (n / 16) (m / 16) (d ∷ s) (e ∷ s') (omega arith) (omega arith) in
    let last = text_lt-digits (n % 16) (m % 16) s s' (omega arith) (omega arith) in
    ap₂ text_lt (append_assoc (hex_digits k (n / 16)) (d ∷ []) s)
      (append_assoc (hex_digits k (m / 16)) (e ∷ []) s')
    ∙ ih
    ∙ ap (λ rest. ltb (n / 16) (m / 16) || (nat_same (n / 16) (m / 16) && rest)) last
    ∙ by_digits n m (text_lt s s')

or_nothing : (a b : ℕ) → (ltb a b || (nat_same a b && text_lt [] [])) ≡ ltb a b
unfolding text_lt
or_nothing a b = ground arith

-- The name of one file stands before that of another exactly if its term is less, or the terms are
-- equal and its collection is less, for terms and collections that fit an int64.
pub text_lt-filename :
    (term collection seq term' collection' seq' : ℕ)
    → term < int64_limit
    → collection < int64_limit
    → term' < int64_limit
    → collection' < int64_limit
    → text_lt (filename term collection seq) (filename term' collection' seq')
      ≡ (ltb term term' || (nat_same term term' && ltb collection collection'))
text_lt-filename term collection seq term' collection' seq' p q p' q' =
    let limit = int64_limit-sixteens in
    let low = text_lt-hex_digits 16 collection collection' [] [] (omega arith) (omega arith) in
    let high =
      text_lt-hex_digits 16 term term' (hex_digits 16 collection) (hex_digits 16 collection')
        (omega arith) (omega arith) in
    let low' =
      sym (
        ap₂ text_lt (append_nil (hex_digits 16 collection))
          (append_nil (hex_digits 16 collection')))
      ∙ low in
    unfold filename in
    high
    ∙ ap (λ rest. ltb term term' || (nat_same term term' && rest))
        (low' ∙ or_nothing collection collection')
