-- ===== src/Common/State.antt =====
-- Fallible methods on `&mut self`: the outcome, and the state that the call leaves, also when it
-- fails.
use mathlib.Core.Path.{ap, refl, ◌≡◌, ◌∙◌}
use mathlib.Core.Bool.{Bool, true, false}
use sacn_rust.Common.Results.{Outcome, ok, err, panic}

abbrev pub Stateful : Type 0 → Type 0 → Type 0 → Type 0
Stateful S E A = S → Outcome E A × S

-- The rest of a `do` block, after a call that ended so.
abbrev pub and_then : {S E A B : Type 0} → Outcome E A × S → (A → Stateful S E B) → Outcome E B × S
and_then (ok a, s) f = f a s
and_then (err e, s) f = (err e, s)
and_then (panic, s) f = (panic, s)

infixl 5 ◌>>=◌ ◌>>◌
abbrev pub ◌>>=◌ : {S E A B : Type 0} → Stateful S E A → (A → Stateful S E B) → Stateful S E B
◌>>=◌ m f s = and_then (m s) f

abbrev pub ◌>>◌ : {S E B : Type 0} → Stateful S E (Unit {0}) → Stateful S E B → Stateful S E B
m >> k = m >>= λ _. k

abbrev pub return : {S E A : Type 0} → A → Stateful S E A
return a s = (ok a, s)

abbrev pub fail : {S E A : Type 0} → E → Stateful S E A
fail e s = (err e, s)

-- A call that does not touch the state, with `?`.
abbrev pub lift : {S E A : Type 0} → Outcome E A → Stateful S E A
lift r s = (r, s)

abbrev pub refuse_if : {S E : Type 0} → Bool → E → Stateful S E (Unit {0})
refuse_if true e s = (err e, s)
refuse_if false e s = (ok tt, s)

module _ {S E A B : Type 0} where
  -- One step of a `do` block.
  pub bind_ok :
      (m : Stateful S E A) (f : A → Stateful S E B) {a : A} {s t : S}
      → m s ≡ (ok a, t)
      → (m >>= f) s ≡ f a t
  bind_ok m f e = ap (λ r. and_then r f) e

  pub bind_err :
      (m : Stateful S E A) (f : A → Stateful S E B) {e : E} {s t : S}
      → m s ≡ (err e, t)
      → (m >>= f) s ≡ (err e, t)
  bind_err m f e = ap (λ r. and_then r f) e

  -- What every step keeps, the block keeps.
  pub and_then_keeps :
      (P : S → Type 0) (r : Outcome E A × S) (f : A → Stateful S E B)
      → P (r.1)
      → ((a : A) → P ((f a (r.1)).1))
      → P ((and_then r f).1)
  and_then_keeps P (ok a, s) f h k = k a
  and_then_keeps P (err e, s) f h k = h
  and_then_keeps P (panic, s) f h k = h

  -- A block that succeeded has run its first step, and is the rest.
  pub and_then-eq-ok :
      (r : Outcome E A × S) (f : A → Stateful S E B) {b : B}
      → (and_then r f).0 ≡ ok b
      → (a : A) × (r.0 ≡ ok a) × (and_then r f ≡ f a (r.1))
  and_then-eq-ok (ok a, s) f h = (a, refl, refl)
  and_then-eq-ok (err e, s) f h = cc
  and_then-eq-ok (panic, s) f h = cc

-- A call that keeps what a view shows of the state.
abbrev pub Keeps : {R E A X : Type 0} → (R → X) → Stateful R E A → Type 0
Keeps {R} view m = (s : R) → view ((m s).1) ≡ view s

module _ {R E X : Type 0} (view : R → X) where
  pub bind-Keeps :
      {A B : Type 0} (m : Stateful R E A) (f : A → Stateful R E B)
      → Keeps view m
      → ((a : A) → Keeps view (f a))
      → Keeps view (m >>= f)
  bind-Keeps m f hm hf s =
      and_then_keeps (λ t. view t ≡ view s) (m s) f (hm s) (λ a. hf a ((m s).1) ∙ hm s)

  pub refuse_if-Keeps : (b : Bool) (e : E) → Keeps view (refuse_if {S = R} b e)
  refuse_if-Keeps true e s = refl
  refuse_if-Keeps false e s = refl
