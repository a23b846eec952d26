-- ===== src/Wal/NamesRoundTrip.antt =====
-- The names that `filename` of internal/wal/wal.go makes are the ones that `walfilename` reads.
use mathlib.Core.Path.{ap₂}
use nekoq_bootstrap.Base.{
  Text, [], ap, append_assoc, append_nil, arith, false, leb, length, length-append, nat_same, ok,
  refl, some, suc, sym, zero, ℕ, ◌%◌, ◌*◌, ◌++◌, ◌+◌, ◌/◌, ◌<◌, ◌∙◌, ◌∷◌, ◌≡◌, ◌≤◌,
}
use nekoq_bootstrap.Wal.Names.{
  digit_value, filename, hex_digit, hex_digits, int64_limit, scan_digits, scan_hex, walfilename,
}

digit_value-hex_digit : (d : ℕ) → d < 16 → digit_value (hex_digit d) ≡ some d
unfolding digit_value hex_digit
digit_value-hex_digit d h = ground arith

-- Sixteen to the power of `k`.
unfoldable pub sixteens : ℕ → ℕ
sixteens zero = 1
sixteens (suc k) = sixteens k * 16

length-hex_digits : (k n : ℕ) → length (hex_digits k n) ≡ k
unfolding hex_digits
length-hex_digits zero n = refl
length-hex_digits (suc k) n =
    rw (length-append (hex_digits k (n / 16)) (hex_digit (n % 16) ∷ []))
      (rw (length-hex_digits k (n / 16)) (omega arith))

scan_digits-digit :
    (w count acc c d : ℕ) (s : Text)
    → digit_value c ≡ some d
    → scan_digits (suc w) count acc (c ∷ s) ≡ scan_digits w (count + 1) (acc * 16 + d) s
unfolding scan_digits
scan_digits-digit w count acc c d s e = rw (scan_digits, e) refl

-- The digits of a number that fits them are read back as that number, after what was read before.
scan_digits-hex_digits :
    (k w t count acc n : ℕ) (s : Text)
    → t ≡ k + w
    → n < sixteens k
    → scan_digits t count acc (hex_digits k n ++ s)
      ≡ scan_digits w (count + k) (acc * sixteens k + n) s
unfolding hex_digits sixteens
scan_digits-hex_digits zero w t count acc n s e h =
    let t_w : t ≡ w = omega arith in
    let n_0 : acc * 1 + n ≡ acc = omega arith in
    let c_0 : count + 0 ≡ count = omega arith in rw (t_w, n_0, c_0) refl
scan_digits-hex_digits (suc k) w t count acc n s e h =
    let d = hex_digit (n % 16) in
    let split = append_assoc (hex_digits k (n / 16)) (d ∷ []) s in
    let front =
      scan_digits-hex_digits k (suc w) t count acc (n / 16) (d ∷ s) (omega arith) (omega arith) in
    let read : digit_value d ≡ some (n % 16) = digit_value-hex_digit (n % 16) (omega arith) in
    let value : (acc * sixteens k + n / 16) * 16 + n % 16 ≡ acc * (sixteens k * 16) + n =
      grind arith in
    let many : count + k + 1 ≡ count + suc k = omega arith in
    ap (scan_digits t count acc) split
    ∙ front
    ∙ scan_digits-digit w (count + k) (acc * sixteens k + n / 16) d (n % 16) s read
    ∙ ap₂ (λ c v. scan_digits w c v s) many value

lt-leb : (a b : ℕ) → b < a → leb a b ≡ false
lt-leb a b h = ground arith

scan_hex-some :
    (s rest : Text) (count v : ℕ)
    → scan_digits 16 0 0 s ≡ (count, v, rest)
    → nat_same count 0 ≡ false
    → leb int64_limit v ≡ false
    → scan_hex s ≡ some (v, rest)
unfolding scan_hex
scan_hex-some s rest count v e z l = rw (scan_hex, e, z, l) refl

pub int64_limit-sixteens : int64_limit ≤ sixteens 16
unfolding sixteens
int64_limit-sixteens = omega arith

scan_hex-hex_digits :
    (n : ℕ) (s : Text) → n < int64_limit → scan_hex (hex_digits 16 n ++ s) ≡ some (n, s)
scan_hex-hex_digits n s h =
    let limit = int64_limit-sixteens in
    let fits : n < sixteens 16 = omega arith in
    let digits = scan_digits-hex_digits 16 0 16 0 0 n s refl fits in
    let value : 0 * sixteens 16 + n ≡ n = omega arith in
    scan_hex-some (hex_digits 16 n ++ s) s 16 n
      (digits ∙ unfold scan_digits in ap (λ v. (16, v, s)) value) refl (lt-leb int64_limit n h)

walfilename-ok :
    (name rest last : Text) (x y : ℕ)
    → length name ≡ 32
    → scan_hex name ≡ some (x, rest)
    → scan_hex rest ≡ some (y, last)
    → leb x 0 ≡ false
    → leb y 0 ≡ false
    → walfilename name ≡ ok (name, record { term = x; collection = y; seq = 0 })
unfolding walfilename
walfilename-ok name rest last x y l e f p q = rw (walfilename, l, e, f, p, q) refl

-- The name of a file is read back as the term and the collection that it was made of, where both
-- are positive and fit an int64.
pub walfilename-filename :
    (term collection seq : ℕ)
    → 0 < term
    → 0 < collection
    → term < int64_limit
    → collection < int64_limit
    → walfilename (filename term collection seq)
      ≡ ok (filename term collection seq, record { term = term; collection = collection; seq = 0 })
walfilename-filename term collection seq p q lt lt' =
    walfilename-ok (filename term collection seq) (hex_digits 16 collection) [] term collection
      (unfold filename in
        length-append (hex_digits 16 term) (hex_digits 16 collection)
        ∙ ap₂ (◌+◌) (length-hex_digits 16 term) (length-hex_digits 16 collection))
      (unfold filename in scan_hex-hex_digits term (hex_digits 16 collection) lt)
      (ap scan_hex (sym (append_nil (hex_digits 16 collection)))
        ∙ scan_hex-hex_digits collection [] lt')
      (lt-leb term 0 p) (lt-leb collection 0 q)
