-- ===== src/Base/Io.antt =====
-- Operations on a state that may fail or panic. What was done before an error stays done, so the
-- state comes back beside the outcome.
use mathlib.Core.Path.{◌≡◌, refl}
use mathlib.Core.List.{List, [], ◌∷◌}
use nekoq_bootstrap.Base.Outcomes.{Error, Outcome, ok, err, panic}

abbrev pub Io {ℓ κ} : Type ℓ → Type κ → Type (ℓ ⊔ κ)
Io S A = S → S × Outcome A

module _ {ℓ κ} {S : Type ℓ} {A : Type κ} where
  abbrev pub pure : A → Io S A
  pure a s = (s, ok a)

  abbrev pub raise : Error → Io S A
  raise e s = (s, err e)

  abbrev pub crash : Io S A
  crash s = (s, panic)

  abbrev pub lift : Outcome A → Io S A
  lift o s = (s, o)

module _ {ℓ κ μ} {S : Type ℓ} {A : Type κ} {B : Type μ} where
  abbrev pub continue : Outcome A → (A → Io S B) → Io S B
  continue (ok a) f s = f a s
  continue (err e) f s = (s, err e)
  continue panic f s = (s, panic)

  infixl 5 ◌>>=◌ ◌>>◌
  abbrev pub ◌>>=◌ : Io S A → (A → Io S B) → Io S B
  ◌>>=◌ m f s = continue (m s).1 f (m s).0

  abbrev pub ◌>>◌ : Io S A → Io S B → Io S B
  ◌>>◌ m k s = continue (m s).1 (λ _. k) (m s).0

-- for _, x := range xs { if err := body(x); err != nil { return err } }
module _ {ℓ κ} {S : Type ℓ} {A : Type κ} where
  unfoldable pub each : (A → Io S (Unit {0})) → List A → Io S (Unit {0})
  each body [] s = (s, ok tt)
  each body (x ∷ xs) s = continue (body x s).1 (λ _. each body xs) (body x s).0

-- How an operation ends: in a state with `Q` if it succeeds, and in one with `P` if it does not.
module _ {ℓ κ} {S : Type ℓ} {A : Type κ} where
  abbrev pub Ends : (S → Type 0) → (S → Type 0) → S × Outcome A → Type 0
  Ends Q P (s, ok a) = Q s
  Ends Q P (s, err e) = P s
  Ends Q P (s, panic) = P s

  pub Ends-always : (P : S → Type 0) (r : S × Outcome A) → P r.0 → Ends P P r
  Ends-always P (s, ok a) h = h
  Ends-always P (s, err e) h = h
  Ends-always P (s, panic) h = h

  pub Ends-state :
      (Q P : S → Type 0) (r : S × Outcome A) → ((s : S) → Q s → P s) → Ends Q P r → P r.0
  Ends-state Q P (s, ok a) f h = f s h
  Ends-state Q P (s, err e) f h = h
  Ends-state Q P (s, panic) f h = h

  pub Ends-weaken :
      (Q P P' : S → Type 0) (r : S × Outcome A) → ((s : S) → P s → P' s) → Ends Q P r → Ends Q P' r
  Ends-weaken Q P P' (s, ok a) f h = h
  Ends-weaken Q P P' (s, err e) f h = f s h
  Ends-weaken Q P P' (s, panic) f h = f s h

module _ {ℓ κ μ} {S : Type ℓ} {A : Type κ} {B : Type μ} where
  pub Ends-continue :
      (Q Q' P : S → Type 0) (r : S × Outcome A) (f : A → Io S B)
      → Ends Q P r
      → ((a : A) (s : S) → Q s → Ends Q' P (f a s))
      → Ends Q' P (continue r.1 f r.0)
  Ends-continue Q Q' P (s, ok a) f h k = k a s h
  Ends-continue Q Q' P (s, err e) f h k = h
  Ends-continue Q Q' P (s, panic) f h k = h

  -- A predicate that the parts of a sequence keep.
  pub continue-keeps :
      (P : S → Type 0) (r : S × Outcome A) (f : A → Io S B)
      → P r.0
      → ((a : A) (s : S) → P s → P (f a s).0)
      → P (continue r.1 f r.0).0
  continue-keeps P (s, ok a) f h k = k a s h
  continue-keeps P (s, err e) f h k = h
  continue-keeps P (s, panic) f h k = h

pub continue-same {ℓ κ μ} :
    {S : Type ℓ} {A : Type κ} {B : Type μ} (r : S × Outcome A) {f g : Io S B}
    → ((s : S) → f s ≡ g s)
    → continue r.1 (λ _. f) r.0 ≡ continue r.1 (λ _. g) r.0
continue-same (s, ok a) h = h s
continue-same (s, err e) h = refl
continue-same (s, panic) h = refl

pub continue-here {ℓ κ μ} :
    {S : Type ℓ} {A : Type κ} {B : Type μ} (r : S × Outcome A) (f : Io S B)
    → continue r.1 (λ _ _. f r.0) r.0 ≡ continue r.1 (λ _. f) r.0
continue-here (s, ok a) f = refl
continue-here (s, err e) f = refl
continue-here (s, panic) f = refl

pub continue-tt {ℓ} :
    {S : Type ℓ} (r : S × Outcome (Unit {0})) → continue {S = S} r.1 (λ _ s. (s, ok tt)) r.0 ≡ r
continue-tt (s, ok tt) = refl
continue-tt (s, err e) = refl
continue-tt (s, panic) = refl
