-- ===== src/DemoSrc/Lines.antt =====
-- Every line of input of the demo source (examples/demo_src/src/main.rs) comes to an end: it returns or
-- panics.
use sacn_rust.Receive.Listening.{IsOrdered}
use sacn_rust.DemoSrc.Loops.{handle_data_over_time_option, handle_test_preset_option, run_preset}
use sacn_rust.DemoSrc.Presets.{F64}
use sacn_rust.Source.Handle.Threads.Calls.{IsSound}
use sacn_rust.DemoSrc.Dispatch.{
  after_input, main_loop, Line, end_of_input, words_of, failed, handle_command, handle_input,
}
use sacn_rust.Common.{
  [], ◌∷◌, All, true, ◌+◌, false, refl, ◌≡◌, arith, suc, Outcome, err, panic, ◌<◌, ◌*◌, subst, ok,
  Bool, Option, some, none, ℕ, List,
}
use sacn_rust.Error.{text}
use sacn_rust.External.{UuidCrate, NetworkEndian}
use sacn_rust.Source.{SendCalls}
use sacn_rust.DemoSrc.Input.{Ipv6Text, number_at, Word}
use sacn_rust.DemoSrc.Program.{Command, Program, read_failed, DemoError, ClockCalls}
use sacn_rust.DemoSrc.Commands.{max_u16, max_u64}
use sacn_rust.DemoSrc.Ending.{
  Returns-trans, Returns, checked-AlwaysReturns, Advances, AlwaysReturns, bind-AlwaysReturns,
  pure-AlwaysReturns, if-AlwaysReturns,
}
use sacn_rust.DemoSrc.Total.{
  two_universes-AlwaysReturns, rapid_changes-AlwaysReturns, acceptance-AlwaysReturns,
  moving_channel-AlwaysReturns, high_data_rate-AlwaysReturns, over_time-AlwaysReturns,
}
use sacn_rust.DemoSrc.Handled.{
  need-AlwaysReturns, handle_full_data_option-AlwaysReturns, handle_all_data_option-AlwaysReturns,
  handle_data_option-AlwaysReturns, handle_unicast_option-AlwaysReturns,
  preview_option-AlwaysReturns, sync_option-AlwaysReturns, register_option-AlwaysReturns,
  terminate_option-AlwaysReturns, sleep_option-AlwaysReturns, unicast_sync_option-AlwaysReturns,
}

module _ {W : Type 0} (S U F : Type 0) ⦃net : NetworkEndian⦄ ⦃crate : UuidCrate U⦄
    ⦃calls : SendCalls S⦄ ⦃clock : ClockCalls W⦄ ⦃f64 : F64 F⦄ ⦃text_v6 : Ipv6Text⦄
    (advances : Advances W) where
  -- The duration that a line gives for `handle_data_over_time_option`, if it gives one.
  abbrev duration_of : Outcome (DemoError U) ℕ → ℕ
  duration_of (ok d) = d
  duration_of (err e) = 0
  duration_of panic = 0

  data_over_time_option-AlwaysReturns :
      (fuel : ℕ) (words : List Word)
      → duration_of (number_at max_u64 2 words) < fuel * 33
      → AlwaysReturns S U advances (handle_data_over_time_option F (suc fuel) words)
  unfolding handle_data_over_time_option
  data_over_time_option-AlwaysReturns fuel words enough =
      bind-AlwaysReturns S U advances _ _
        (need-AlwaysReturns S U advances 4 (text "Insufficient parts for data line ( < 4 )") words)
        (λ _.
          bind-AlwaysReturns S U advances _ _
            (pure-AlwaysReturns S U advances (number_at max_u16 1 words))
            (λ universe. checked-AlwaysReturns S U advances (number_at max_u64 2 words) _ (λ d e.
              let within = subst (λ r. duration_of r < fuel * 33) e enough in
              search
                (
                  bind-AlwaysReturns S U advances,
                  pure-AlwaysReturns S U advances,
                  over_time-AlwaysReturns S U advances F,
                )
                depth 10)))

  run_preset-AlwaysReturns :
      (fuel : ℕ) (words : List Word) (preset universe : ℕ)
      → 30000 < fuel * 33
      → AlwaysReturns S U advances (run_preset F (suc fuel) words preset universe)
  unfolding run_preset
  run_preset-AlwaysReturns fuel words preset universe enough =
      let shorter : 20000 < fuel * 33 = omega arith in
      search
        (
          if-AlwaysReturns S U advances,
          bind-AlwaysReturns S U advances,
          pure-AlwaysReturns S U advances,
          need-AlwaysReturns S U advances,
          moving_channel-AlwaysReturns S U advances F,
          rapid_changes-AlwaysReturns S U advances,
          high_data_rate-AlwaysReturns S U advances F,
          two_universes-AlwaysReturns S U advances,
          acceptance-AlwaysReturns S U advances,
        )
        depth 16 fits 5000

  test_preset_option-AlwaysReturns :
      (fuel : ℕ) (words : List Word)
      → 30000 < fuel * 33
      → AlwaysReturns S U advances (handle_test_preset_option F (suc fuel) words)
  unfolding handle_test_preset_option
  test_preset_option-AlwaysReturns fuel words enough =
      search
        (
          bind-AlwaysReturns S U advances,
          pure-AlwaysReturns S U advances,
          need-AlwaysReturns S U advances,
          run_preset-AlwaysReturns,
        )
        depth 10

  -- A number of milliseconds that no loop of the line runs longer than.
  abbrev pub longest : Line → ℕ
  longest (words_of words) = 30000 + duration_of (number_at max_u64 2 words)
  longest end_of_input = 30000
  longest failed = 30000

  handle_command-AlwaysReturns :
      (fuel : ℕ) (action : Word) (words : List Word)
      → longest (words_of words) < fuel * 33
      → AlwaysReturns S U advances (handle_command F (suc fuel) action words)
  unfolding handle_command
  handle_command-AlwaysReturns fuel action words enough =
      let preset : 30000 < fuel * 33 = omega arith in
      let over_time : duration_of (number_at max_u64 2 words) < fuel * 33 = omega arith in
      search
        (
          if-AlwaysReturns S U advances,
          pure-AlwaysReturns S U advances,
          handle_full_data_option-AlwaysReturns S U advances,
          handle_all_data_option-AlwaysReturns S U advances,
          handle_data_option-AlwaysReturns S U advances,
          handle_unicast_option-AlwaysReturns S U advances,
          preview_option-AlwaysReturns S U advances,
          sync_option-AlwaysReturns S U advances,
          register_option-AlwaysReturns S U advances,
          terminate_option-AlwaysReturns S U advances,
          sleep_option-AlwaysReturns S U advances,
          unicast_sync_option-AlwaysReturns S U advances,
          data_over_time_option-AlwaysReturns,
          test_preset_option-AlwaysReturns,
        )
        depth 20 fits 5000

  pub handle_input-AlwaysReturns :
      (fuel : ℕ) (line : Line)
      → longest line < fuel * 33
      → AlwaysReturns S U advances (handle_input F (suc fuel) line)
  unfolding handle_input
  handle_input-AlwaysReturns fuel end_of_input enough = pure-AlwaysReturns S U advances (ok false)
  handle_input-AlwaysReturns fuel failed enough = pure-AlwaysReturns S U advances (err read_failed)
  handle_input-AlwaysReturns fuel (words_of words) enough =
      search
        (
          bind-AlwaysReturns S U advances,
          pure-AlwaysReturns S U advances,
          need-AlwaysReturns S U advances,
          handle_command-AlwaysReturns,
        )
        depth 10

  Returns-result :
      {A : Type 0} (p : Program W S U) (o : Option (Outcome (DemoError U) A × Program W S U))
      → Returns advances p o
      → (r : Outcome (DemoError U) A × Program W S U) × (o ≡ some r)
        × IsSound p.source.internal ((r.1).source).internal
  Returns-result p none h = absurd h
  Returns-result p (some r) h = (r, refl, h.1)

  after_input-Returns :
      (p : Program W S U) (o : Option (Outcome (DemoError U) Bool × Program W S U))
      (m : Command W S U (Unit {0}))
      → Returns advances p o
      → AlwaysReturns S U advances m
      → Returns advances p (after_input o m)
  unfolding AlwaysReturns
  after_input-Returns p none m h k = h
  after_input-Returns p (some (ok true, q)) m h k = Returns-trans advances p q (m q) h (k q)
  after_input-Returns p (some (ok false, q)) m h k = h
  after_input-Returns p (some (err e, q)) m h k = Returns-trans advances p q (m q) h (k q)
  after_input-Returns p (some (panic, q)) m h k = h

  main_loop-AlwaysReturns :
      (fuel : ℕ) (lines : List Line)
      → All (λ line. longest line < fuel * 33) lines
      → AlwaysReturns S U advances (main_loop F (suc fuel) lines)
  unfolding main_loop AlwaysReturns
  main_loop-AlwaysReturns fuel [] enough self = pure-AlwaysReturns S U advances (ok tt) self
  main_loop-AlwaysReturns fuel (line ∷ lines) (enough, more) self =
      after_input-Returns self (handle_input F (suc fuel) line self) (main_loop F (suc fuel) lines)
        (handle_input-AlwaysReturns fuel line enough self) (main_loop-AlwaysReturns fuel lines more)

  -- On a clock that does not go back and on which a sleep takes its time (`Advances`), the main
  -- loop of the demo source returns on any lines of input, at their end or earlier, with the
  -- outcome of a line that ends it, a panic included, if its loops have fuel for more than
  -- `longest` milliseconds of each line in turns of 33 milliseconds; the universes of its source
  -- are then still in increasing order, each once.
  pub main_loop-returns :
      (fuel : ℕ) (lines : List Line) (self : Program W S U)
      → All (λ line. longest line < fuel * 33) lines
      → IsOrdered self.source.internal.universes
      → (r : Outcome (DemoError U) (Unit {0}) × Program W S U) × (main_loop F (suc fuel) lines self
          ≡ some r)
        × IsOrdered ((r.1).source).internal.universes
  unfolding AlwaysReturns
  main_loop-returns fuel lines self enough ordered =
      let result =
        Returns-result self (main_loop F (suc fuel) lines self)
          (main_loop-AlwaysReturns fuel lines enough self) in
      (result.0, result.1, result.2.0 ordered)
