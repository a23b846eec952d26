-- ===== src/Dns/CacheKey.antt =====
-- The keys of the cache of answers (cacheKey of internal/dnscore/cache.go).
use mathlib.Core.Path.{ap₂}
use nekoq_bootstrap.Base.{
  Bool-cases, Text, [], ap, append_assoc, arith, codes, inl, inr, ltb, refl, subst, suc, sym, zero,
  ℕ, ◌%◌, ◌*◌, ◌++◌, ◌+◌, ◌-◌, ◌/◌, ◌<◌, ◌^◌, ◌∙◌, ◌∷◌, ◌≡◌,
}
use nekoq_bootstrap.Dns.Cache.{cache_key, decimal, decimal_digits}
use nekoq_bootstrap.Dns.Message.{DnsLib, Question}
use nekoq_bootstrap.MemStore.Domains.{to_lower}
use nekoq_bootstrap.MemStore.PeerData.{names}

abbrev NoColon : Text → Type 0
NoColon [] = Unit {0}
NoColon (c ∷ s) = (¬ (c ≡ b':')) × NoColon s

digits-NoColon : (fuel n : ℕ) (acc : Text) → NoColon acc → NoColon (decimal_digits fuel n acc)
unfolding decimal_digits
digits-NoColon zero n acc h = h
digits-NoColon (suc fuel) n acc h =
    let h' : NoColon ((b'0' + n % 10) ∷ acc) = ((λ e. omega arith), h) in
    elim (Bool-cases (ltb n 10)) [
      | inl e ↦ rw e h'
      | inr e ↦ rw e (digits-NoColon fuel (n / 10) ((b'0' + n % 10) ∷ acc) h')
    ]

colon_inside : (a s : Text) → NoColon (a ++ b':' ∷ s) → ⊥
colon_inside [] s h = h.0 refl
colon_inside (c ∷ a) s h = colon_inside a s h.1

abbrev rest_of : Text → Text
rest_of [] = []
rest_of (c ∷ s) = s

no_longer : (b x y : Text) → NoColon x → (c : ℕ) → (b':' ∷ b':' ∷ x ≡ c ∷ b ++ codes "::" ++ y) → ⊥
no_longer [] x y h c e =
    let x_y : x ≡ b':' ∷ y = ap (λ s. rest_of (rest_of s)) e in
    colon_inside [] y (subst NoColon x_y h)
no_longer (d ∷ b) x y h c e =
    let x_y : x ≡ b ++ (b':' ∷ b':' ∷ y) =
      ap (λ s. rest_of (rest_of s)) e ∙ append_assoc b (codes "::") y in
    colon_inside b (b':' ∷ y) (subst NoColon x_y h)

-- The last two colons of a key end its name.
key_parts :
    (a b x y : Text)
    → NoColon x
    → NoColon y
    → a ++ codes "::" ++ x ≡ b ++ codes "::" ++ y
    → (a ≡ b) × (x ≡ y)
key_parts [] [] x y h h' e = (refl, cc)
key_parts [] (c ∷ b) x y h h' e = absurd (no_longer b x y h c e)
key_parts (c ∷ a) [] x y h h' e = absurd (no_longer a y x h' c (sym e))
key_parts (c ∷ a) (d ∷ b) x y h h' e =
    let c_d : c ≡ d = cc in
    let rest : a ++ codes "::" ++ x ≡ b ++ codes "::" ++ y = cc in
    let (names, types) = key_parts a b x y h h' rest in (ap₂ (λ z s. z ∷ s) c_d names, types)

-- What digits stand for, after a number.
abbrev value_after : Text → ℕ → ℕ
value_after [] a = a
value_after (c ∷ s) a = value_after s (a * 10 + (c - b'0'))

abbrev tens : ℕ → ℕ
tens zero = 1
tens (suc fuel) = 10 * tens fuel

value_after-digits :
    (fuel n : ℕ) (acc : Text)
    → n < tens fuel
    → value_after (decimal_digits fuel n acc) 0 ≡ value_after acc n
unfolding decimal_digits
value_after-digits zero n acc h = let none_left : n ≡ 0 = omega arith in rw none_left refl
value_after-digits (suc fuel) n acc h =
    let below : n / 10 < tens fuel = omega arith in
    elim (Bool-cases (ltb n 10)) [
      | inl e ↦
          let same : 0 * 10 + (b'0' + n % 10 - b'0') ≡ n = ground arith in
          rw e (ap (value_after acc) same)
      | inr e ↦
          let same : n / 10 * 10 + (b'0' + n % 10 - b'0') ≡ n = omega arith in
          rw e (
            value_after-digits fuel (n / 10) ((b'0' + n % 10) ∷ acc) below
            ∙ ap (value_after acc) same)
    ]

decimal-injective : (n m : ℕ) → n < 2 ^ 16 → m < 2 ^ 16 → decimal n ≡ decimal m → n ≡ m
unfolding decimal
decimal-injective n m small small' e =
    sym (value_after-digits 5 n [] (omega arith))
    ∙ ap (λ s. value_after s 0) e
    ∙ value_after-digits 5 m [] (omega arith)

module _ {Ip : Type 0} (lib : DnsLib Ip) where
  pub cache_key-injective :
      (q' q : Question)
      → q'.qtype < 2 ^ 16
      → q.qtype < 2 ^ 16
      → cache_key lib q' ≡ cache_key lib q
      → (to_lower (lib.fqdn q'.name) ≡ to_lower (lib.fqdn q.name)) × (q'.qtype ≡ q.qtype)
  unfolding cache_key decimal
  cache_key-injective q' q small small' e =
      let (names, types) =
        key_parts (to_lower (lib.fqdn q'.name)) (to_lower (lib.fqdn q.name)) (decimal q'.qtype)
          (decimal q.qtype) (digits-NoColon 5 q'.qtype [] tt) (digits-NoColon 5 q.qtype [] tt) e in
      (names, decimal-injective q'.qtype q.qtype small small' types)
