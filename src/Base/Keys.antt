-- ===== src/Base/Keys.antt =====
-- Types whose values Go compares by `==`: the keys of its maps. A Go string is its bytes.
use Prim.Native.Nat.{ℕ}
use Prim.Native.Char.{code}
use Prim.Native.String.{String}
use mathlib.Core.Path.{◌≡◌, refl}
use mathlib.Core.Logic.{◌↔◌}
use mathlib.Core.Bool.{Bool, true, false, ◌&&◌}
use mathlib.Core.List.{List, [], ◌∷◌}
use native.Mathlib.Omega.{arith}
use nekoq_bootstrap.Base.Tests.{nat_same, nat_same_iff}

pub record Key {ℓ} (K : Type ℓ) : Type ℓ where
  pub same : K → K → Bool
  pub same_iff : (a b : K) → (same a b ≡ true) ↔ (a ≡ b)

infix 50 ◌==◌
abbrev pub ◌==◌ {ℓ} : {K : Type ℓ} ⦃key : Key K⦄ → K → K → Bool
◌==◌ ⦃key⦄ = key.same

module _ {ℓ} {K : Type ℓ} ⦃key : Key K⦄ where
  pub ==_refl : (a : K) → (a == a) ≡ true
  ==_refl a = (key.same_iff a a).1 refl

  pub same-eq : (a b : K) → (a == b) ≡ true → a ≡ b
  same-eq a b h = (key.same_iff a b).0 h

abbrev pub Text : Type 0
Text = List ℕ

-- The bytes of an ASCII literal.
abbrev pub codes : String → Text
codes String.[] = []
codes (String.◌∷◌ c s) = code c ∷ codes s

unfoldable pub text_same : Text → Text → Bool
text_same [] [] = true
text_same [] (y ∷ ys) = false
text_same (x ∷ xs) [] = false
text_same (x ∷ xs) (y ∷ ys) = nat_same x y && text_same xs ys

pub text_same_iff : (xs ys : Text) → (text_same xs ys ≡ true) ↔ (xs ≡ ys)
unfolding text_same
text_same_iff [] [] = (λ _. refl, λ _. refl)
text_same_iff [] (y ∷ ys) = (λ h. cc, λ h. cc)
text_same_iff (x ∷ xs) [] = (λ h. cc, λ h. cc)
text_same_iff (x ∷ xs) (y ∷ ys) =
    (λ h. ground (arith, text_same_iff xs ys), λ h. ground (arith, text_same_iff xs ys))

instance abbrev pub nat_key : Key ℕ
nat_key = record { same = nat_same; same_iff = nat_same_iff }

instance abbrev pub text_key : Key Text
text_key = record { same = text_same; same_iff = text_same_iff }
