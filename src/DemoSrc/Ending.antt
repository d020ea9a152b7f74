-- ===== src/DemoSrc/Ending.antt =====
-- What every command of the demo source (examples/demo_src/src/main.rs) has to do: end, and leave the
-- universes of the source in order.
use sacn_rust.Common.{
  refl, ◌≡◌, ℕ, zero, suc, ◌+◌, ◌-◌, ◌*◌, ◌≤◌, ◌<◌, ltb, Bool, true, false, Option, none, some,
  Outcome, ok, err, panic, Bool-cases, inl, inr, arith, if◌then◌else◌,
}
use sacn_rust.Common.State.{Stateful}
use sacn_rust.Error.{SacnError}
use sacn_rust.DemoSrc.Program.{
  DemoError, ClockCalls, Program, Command, on_source, sacn_result, pure, and_then, ◌>>=◌, ◌>>◌, now,
  sleep, run_while,
}
use sacn_rust.Source.Handle.{SacnSource}
use sacn_rust.Source.Handle.Threads.Calls.{IsSound, IsSound-trans}

-- A clock that does not go back, and on which a sleep takes its time: at `time`, a reading is at
-- least that, and the next ones are not less.
pub record Advances (W : Type 0) ⦃clock : ClockCalls W⦄ : Type 0 where
  pub time : W → ℕ
  pub reading : (w : W) → time w ≤ (clock.now w).0
  pub after_reading : (w : W) → (clock.now w).0 ≤ time ((clock.now w).1)
  pub sleeping : (d : ℕ) (w : W) → time w + d ≤ time (clock.sleep d w)

module _ {W S U : Type 0} ⦃clock : ClockCalls W⦄ (advances : Advances W) where
  -- The clock has not gone back, and the calls of the source have kept the order of its universes.
  abbrev pub After : Program W S U → Program W S U → Type 0
  After p q =
      (advances.time p.world ≤ advances.time q.world) × IsSound p.source.internal q.source.internal

  After-trans : (p q r : Program W S U) → After p q → After q r → After p r
  After-trans p q r (h, s) (h', s') = (
    omega (arith, h, h'),
    IsSound-trans p.source.internal q.source.internal r.source.internal s s',
  )

  -- There was fuel enough for a result.
  abbrev pub Returns :
      {A : Type 0} → Program W S U → Option (Outcome (DemoError U) A × Program W S U) → Type 0
  Returns p none = ⊥
  Returns p (some r) = After p (r.1)

  pub Returns-trans :
      {A : Type 0} (p q : Program W S U) (o : Option (Outcome (DemoError U) A × Program W S U))
      → After p q
      → Returns q o
      → Returns p o
  Returns-trans p q none h r = r
  Returns-trans p q (some x) h r = After-trans p q (x.1) h r

  pub and_then-Returns :
      {A B : Type 0} (p : Program W S U) (o : Option (Outcome (DemoError U) A × Program W S U))
      (f : A → Command W S U B)
      → Returns p o
      → ((a : A) (q : Program W S U) → After p q → Returns q (f a q))
      → Returns p (and_then o f)
  and_then-Returns p none f r k = r
  and_then-Returns p (some (ok a, q)) f r k = Returns-trans p q (f a q) r (k a q r)
  and_then-Returns p (some (err x, q)) f r k = r
  and_then-Returns p (some (panic, q)) f r k = r

module _ {W : Type 0} (S U : Type 0) ⦃clock : ClockCalls W⦄ (advances : Advances W) where
  -- A command that returns in every state, and how these are put together.
  unfoldable pub AlwaysReturns : {A : Type 0} → Command W S U A → Type 0
  AlwaysReturns m = (self : Program W S U) → Returns advances self (m self)

  pub bind-AlwaysReturns :
      {A B : Type 0} (m : Command W S U A) (f : A → Command W S U B)
      → AlwaysReturns m
      → ((a : A) → AlwaysReturns (f a))
      → AlwaysReturns (m >>= f)
  unfolding AlwaysReturns
  bind-AlwaysReturns m f h k self =
      and_then-Returns advances self (m self) f (h self) (λ a q _. k a q)

  pub pure-AlwaysReturns : {A : Type 0} (r : Outcome (DemoError U) A) → AlwaysReturns (pure r)
  unfolding AlwaysReturns
  pure-AlwaysReturns r self = (omega arith, (λ h. h, λ h. h))

  -- With what is known of the value.
  pub checked-AlwaysReturns :
      {A B : Type 0} (r : Outcome (DemoError U) A) (f : A → Command W S U B)
      → ((a : A) → r ≡ ok a → AlwaysReturns (f a))
      → AlwaysReturns (pure r >>= f)
  unfolding AlwaysReturns
  checked-AlwaysReturns (ok a) f k self = k a refl self
  checked-AlwaysReturns (err e) f k self = (omega arith, (λ h. h, λ h. h))
  checked-AlwaysReturns panic f k self = (omega arith, (λ h. h, λ h. h))

  pub if-AlwaysReturns :
      {A : Type 0} (b : Bool) (m n : Command W S U A)
      → AlwaysReturns m
      → AlwaysReturns n
      → AlwaysReturns (if b then m else n)
  if-AlwaysReturns true m n h k = h
  if-AlwaysReturns false m n h k = k

  pub now-AlwaysReturns : AlwaysReturns now
  unfolding AlwaysReturns
  now-AlwaysReturns self =
      let read = advances.reading self.world in
      let later = advances.after_reading self.world in (omega arith, (λ h. h, λ h. h))

  pub sleep-AlwaysReturns : (d : ℕ) → AlwaysReturns (sleep d)
  unfolding AlwaysReturns
  sleep-AlwaysReturns d self =
      let slept = advances.sleeping d self.world in (omega arith, (λ h. h, λ h. h))

  sacn_result-After :
      {A : Type 0} (r : Outcome (SacnError U) A × SacnSource S U) (self : Program W S U)
      → IsSound self.source.internal (r.1).internal
      → Returns advances self (some (sacn_result r self.world))
  sacn_result-After (ok a, src) self h = (omega arith, h)
  sacn_result-After (err e, src) self h = (omega arith, h)
  sacn_result-After (panic, src) self h = (omega arith, h)

  pub on_source-AlwaysReturns :
      {A : Type 0} (m : Stateful (SacnSource S U) (SacnError U) A)
      → ((s : SacnSource S U) → IsSound s.internal ((m s).1).internal)
      → AlwaysReturns (on_source m)
  unfolding AlwaysReturns
  on_source-AlwaysReturns m h self = sacn_result-After (m self.source) self (h self.source)

  -- A loop ends if its fuel is enough for its time, in turns that each take the period.
  module _ {C : Type 0} (duration period : ℕ) (body : C → Command W S U C)
      (returns : (c : C) → AlwaysReturns (body c)) where
    run_while-Returns :
        (start fuel : ℕ) (c : C) (self : Program W S U)
        → start + duration < advances.time self.world + fuel * period
        → Returns advances self (run_while (suc fuel) start duration period body c self)
    unfolding run_while AlwaysReturns
    run_while-Returns start zero c self h =
        let read = advances.reading self.world in
        let later = advances.after_reading self.world in
        elim (Bool-cases (ltb ((clock.now self.world).0 - start) duration)) [
          | inr e ↦ rw (Returns, run_while, e) (omega arith, (λ h. h, λ h. h))
          | inl e ↦ absurd (ground arith)
        ]
    run_while-Returns start (suc fuel) c self h =
        let next = record self { world = (clock.now self.world).1 } in
        let read = advances.reading self.world in
        let later = advances.after_reading self.world in
        let step : suc fuel * period ≡ period + fuel * period = omega arith in
        elim (Bool-cases (ltb ((clock.now self.world).0 - start) duration)) [
          | inr e ↦ rw (Returns, run_while, e) (omega arith, (λ h. h, λ h. h))
          | inl e ↦
              let rest : C → Command W S U (Unit {0}) =
                λ c'. sleep period >> run_while (suc fuel) start duration period body c' in
              rw (Returns, run_while, e)
                (Returns-trans advances self next (and_then (body c next) rest)
                  (omega arith, (λ h. h, λ h. h))
                  (and_then-Returns advances next (body c next) rest (returns c next) (λ c' q after.
                    let slept = advances.sleeping period q.world in
                    let gone = after.0 in
                    let woken = record q { world = clock.sleep period q.world } in
                    Returns-trans advances q woken
                      (run_while (suc fuel) start duration period body c' woken)
                      (omega arith, (λ h. h, λ h. h))
                      (run_while-Returns start fuel c' woken (omega arith)))))
        ]

  -- From the time on that is read first.
  pub timed-AlwaysReturns :
      {C : Type 0} (duration period : ℕ) (body : ℕ → C → Command W S U C)
      → ((start : ℕ) (c : C) → AlwaysReturns (body start c))
      → (fuel : ℕ) (c : C) → duration < fuel * period
      → AlwaysReturns (now >>= λ start. run_while (suc fuel) start duration period (body start) c)
  unfolding AlwaysReturns
  timed-AlwaysReturns duration period body returns fuel c enough self =
      let next = record self { world = (clock.now self.world).1 } in
      let start = (clock.now self.world).0 in
      let read = advances.reading self.world in
      let later = advances.after_reading self.world in
      Returns-trans advances self next
        (run_while (suc fuel) start duration period (body start) c next)
        (omega arith, (λ h. h, λ h. h))
        (run_while-Returns duration period (body start) (returns start) start fuel c next
          (omega arith))
