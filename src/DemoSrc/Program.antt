-- ===== src/DemoSrc/Program.antt =====
-- The state of the demo source (examples/demo_src/src/main.rs) and what its commands are made of:
-- calls of the source, the clock, and the loops that send until a time is over.
use sacn_rust.Common.{
  ℕ, zero, suc, ◌-◌, ltb, true, false, Option, none, some, List, Outcome, ok, err, panic,
}
use sacn_rust.Common.State.{Stateful}
use sacn_rust.Error.{SacnError, Message}
use sacn_rust.Source.Handle.{SacnSource}

-- `DemoError` of both demo programs. Of an `Io` error, those of kind `InvalidInput` have a message,
-- with or without the first word of the line in it; `read_failed` is that of standard input, and
-- `file_failed` that of the file that the demo receiver writes. `BoolStr` does not occur.
pub data DemoError (U : Type 0) : Type 0 where
  sacn : SacnError U → DemoError U
  invalid_input : Message → DemoError U
  unknown_input_type : List ℕ → DemoError U
  read_failed : DemoError U
  file_failed : DemoError U
  bool_str : DemoError U

-- The clock, in milliseconds: `Instant::now` and `sleep`.
pub record ClockCalls (W : Type 0) : Type 0 where
  pub now : W → ℕ × W
  pub sleep : ℕ → W → W

pub record Program (W S U : Type 0) : Type 0 where
  pub world : W
  pub source : SacnSource S U

-- A command, with `none` when a loop of it has run out of fuel.
abbrev pub Command : Type 0 → Type 0 → Type 0 → Type 0 → Type 0
Command W S U A = Program W S U → Option (Outcome (DemoError U) A × Program W S U)

module _ {W S U : Type 0} where
  -- `?` on a call of the source, and on what does not touch the state.
  abbrev pub sacn_result :
      {A : Type 0}
      → Outcome (SacnError U) A × SacnSource S U
      → W
      → Outcome (DemoError U) A × Program W S U
  sacn_result (ok a, src) world = (ok a, record { world = world; source = src })
  sacn_result (err e, src) world = (err (sacn e), record { world = world; source = src })
  sacn_result (panic, src) world = (panic, record { world = world; source = src })

  abbrev pub on_source : {A : Type 0} → Stateful (SacnSource S U) (SacnError U) A → Command W S U A
  on_source m self = some (sacn_result (m self.source) self.world)

  abbrev pub pure : {A : Type 0} → Outcome (DemoError U) A → Command W S U A
  pure r self = some (r, self)

  abbrev pub and_then :
      {A B : Type 0}
      → Option (Outcome (DemoError U) A × Program W S U)
      → (A → Command W S U B)
      → Option (Outcome (DemoError U) B × Program W S U)
  and_then none f = none
  and_then (some (ok a, self)) f = f a self
  and_then (some (err e, self)) f = some (err e, self)
  and_then (some (panic, self)) f = some (panic, self)

  infixl 5 ◌>>=◌ ◌>>◌
  abbrev pub ◌>>=◌ : {A B : Type 0} → Command W S U A → (A → Command W S U B) → Command W S U B
  ◌>>=◌ m f self = and_then (m self) f

  abbrev pub ◌>>◌ : {A B : Type 0} → Command W S U A → Command W S U B → Command W S U B
  m >> k = m >>= λ _. k

module _ {W S U : Type 0} ⦃clock : ClockCalls W⦄ where
  abbrev pub now : Command W S U ℕ
  now self = let r = clock.now self.world in some (ok (r.0), record self { world = r.1 })

  abbrev pub sleep : ℕ → Command W S U (Unit {0})
  sleep millis self = some (ok tt, record self { world = clock.sleep millis self.world })

  -- `while start_time.elapsed() < duration`, with the variables `C` that the loop changes. A turn
  -- sends, and sleeps in the end.
  unfoldable pub run_while :
      {C : Type 0} → ℕ → ℕ → ℕ → ℕ → (C → Command W S U C) → C → Command W S U (Unit {0})
  run_while zero start duration period body c = λ self. none
  run_while (suc fuel) start duration period body c = now >>= λ t. elim (ltb (t - start) duration) [
    | true ↦ body c >>= λ c'. sleep period >> run_while fuel start duration period body c'
    | false ↦ pure (ok tt)
  ]
