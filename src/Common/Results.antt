-- ===== src/Common/Results.antt =====
-- What a call comes to: `Ok`, `Err`, or a panic (an index or a slice out of bounds, an `unwrap` of
-- an error). A panic unwinds through every caller, like an error that no code handles.
use mathlib.Core.Path.{◌≡◌, refl}
use mathlib.Core.Logic.{◌⊎◌, inl, inr}
use mathlib.Core.Bool.{Bool, true, false}

pub data Outcome {ℓ κ} (E : Type κ) (A : Type ℓ) : Type (ℓ ⊔ κ) where
  ok : A → Outcome E A
  err : E → Outcome E A
  panic : Outcome E A

infixl 5 ◌>>=◌ ◌>>◌
abbrev pub ◌>>=◌ {ℓ κ μ} :
    {E : Type μ} {A : Type ℓ} {B : Type κ} → Outcome E A → (A → Outcome E B) → Outcome E B
ok a >>= f = f a
err e >>= f = err e
panic >>= f = panic

abbrev pub ◌>>◌ {ℓ μ} : {E : Type μ} {B : Type ℓ} → Outcome E (Unit {0}) → Outcome E B → Outcome E B
m >> k = m >>= λ _. k

-- `if test { return Err(e); }`
abbrev pub refuse_if {μ} : {E : Type μ} → Bool → E → Outcome E (Unit {0})
refuse_if true e = err e
refuse_if false e = ok tt

module _ {ℓ κ μ} {E : Type μ} {A : Type ℓ} {B : Type κ} where
  -- One step of a `do` block whose first call is known to succeed, fail or panic.
  pub bind_ok :
      {m : Outcome E A} {a : A} (f : A → Outcome E B) {r : Outcome E B}
      → m ≡ ok a
      → f a ≡ r
      → (m >>= f) ≡ r
  bind_ok f p q = rw p q

-- To split on a computed outcome and keep the equation.
pub Outcome-cases {ℓ μ} :
    {E : Type μ} {A : Type ℓ} (m : Outcome E A)
    → ((a : A) × (m ≡ ok a)) ⊎ ((e : E) × (m ≡ err e)) ⊎ (m ≡ panic)
Outcome-cases (ok a) = inl (a, refl)
Outcome-cases (err e) = inr (inl (e, refl))
Outcome-cases panic = inr (inr refl)
