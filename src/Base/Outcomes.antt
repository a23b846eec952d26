-- ===== src/Base/Outcomes.antt =====
-- What a Go call with an `error` result comes to: a value, an error, or a panic.
use mathlib.Core.Path.{◌≡◌, refl, subst}
use mathlib.Core.Logic.{◌⊎◌, inl, inr}
use nekoq_bootstrap.Base.Keys.{Text}

-- The errors that the code makes by `errors.New`, and `external` for those of other code.
pub data Error : Type 0 where
  storage_not_found do_not_respond : Error
  no_data_found no_add_data_found no_del_data_found : Error
  node_not_exist node_not_registered marshal_failed : Error
  name_length_mismatch name_scan_failed sequence_less_than_one : Error
  page_crc_mismatch length_field_exceeded newer_wal_than_history insufficient_history : Error
  not_primary_node node_not_found unknown_role not_ok : Error
  key_format_invalid file_closed unexpected_eof : Error
  external : Text → Error

pub data Outcome {ℓ} (A : Type ℓ) : Type ℓ where
  ok : A → Outcome A
  err : Error → Outcome A
  panic : Outcome A

infixl 5 ◌>>=◌ ◌>>◌
abbrev pub ◌>>=◌ {ℓ κ} : {A : Type ℓ} {B : Type κ} → Outcome A → (A → Outcome B) → Outcome B
ok a >>= f = f a
err e >>= f = err e
panic >>= f = panic

abbrev pub ◌>>◌ {ℓ κ} : {A : Type ℓ} {B : Type κ} → Outcome A → Outcome B → Outcome B
m >> k = m >>= λ _. k

pub Outcome-cases {ℓ} :
    {A : Type ℓ} (o : Outcome A)
    → ((a : A) × (o ≡ ok a)) ⊎ (((e : Error) × (o ≡ err e)) ⊎ (o ≡ panic))
Outcome-cases (ok a) = inl (a, refl)
Outcome-cases (err e) = inr (inl (e, refl))
Outcome-cases panic = inr (inr refl)

-- The bind of outcomes by name, where `◌>>=◌` is that of operations on a state.
abbrev pub and_then {ℓ κ} : {A : Type ℓ} {B : Type κ} → Outcome A → (A → Outcome B) → Outcome B
and_then o f = o >>= f

-- What holds of the value, where there is one.
abbrev pub IfOk {ℓ κ} : {A : Type ℓ} → (A → Type κ) → Outcome A → Type κ
IfOk P (ok a) = P a
IfOk P (err e) = Unit
IfOk P panic = Unit

pub IfOk-bind {ℓ κ μ} :
    {A : Type ℓ} {B : Type κ} (P : A → Type μ) (Q : B → Type μ) (o : Outcome A) (f : A → Outcome B)
    → IfOk P o
    → ((a : A) → P a → IfOk Q (f a))
    → IfOk Q (o >>= f)
IfOk-bind P Q (ok a) f p k = k a p
IfOk-bind P Q (err e) f p k = tt
IfOk-bind P Q panic f p k = tt

-- Nothing is asked of the first value.
pub IfOk-after {ℓ κ μ} :
    {A : Type ℓ} {B : Type κ} (Q : B → Type μ) (o : Outcome A) (f : A → Outcome B)
    → ((a : A) → IfOk Q (f a))
    → IfOk Q (o >>= f)
IfOk-after Q (ok a) f k = k a
IfOk-after Q (err e) f k = tt
IfOk-after Q panic f k = tt

pub IfOk-ok {ℓ κ} :
    {A : Type ℓ} (P : A → Type κ) (a : A) (o : Outcome A) → IfOk P o → o ≡ ok a → P a
IfOk-ok P a o h e = subst (IfOk P) e h
