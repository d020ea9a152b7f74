-- ===== src/DemoSrc/Acceptance.antt =====
-- The acceptance test of the demo source (examples/demo_src/src/main.rs): four steps of a light show
-- on two universes, whose data the functions `gen_acceptance_test_step_…` make.
use sacn_rust.Common.{
  ℕ, zero, suc, ◌+◌, ◌*◌, ◌/◌, ◌%◌, none, List, [], ◌∷◌, ◌++◌, Outcome, ok, panic, take, drop,
  replicate,
}
use sacn_rust.External.{UuidCrate, NetworkEndian}
use sacn_rust.Packet.Constants.{universe_channel_capacity}
use sacn_rust.Source.{SendCalls}
use sacn_rust.Source.Handle.{send}
use sacn_rust.DemoSrc.Program.{ClockCalls, Command, on_source, pure, ◌>>=◌, ◌>>◌, now, run_while}
use sacn_rust.DemoSrc.Presets.{test_preset_update_period}

abbrev pub accept_test_duration : ℕ
accept_test_duration = 30000

abbrev pub step_count : ℕ
step_count = 4

abbrev pub step_length : ℕ
step_length = 100

-- `ACCEPT_TEST_BACKLIGHT_ADDR_1` to `8`, and `ACCEPT_TEST_FRONTLIGHT_ADDR_1` to `3`.
abbrev pub backlight_addrs : List ℕ
backlight_addrs = 1 ∷ 50 ∷ 100 ∷ 150 ∷ 200 ∷ 250 ∷ 300 ∷ 350 ∷ []

abbrev pub frontlight_addrs : List ℕ
frontlight_addrs =
    (universe_channel_capacity + 1)
    ∷ (universe_channel_capacity + 2)
    ∷ (universe_channel_capacity + 3)
    ∷ []

abbrev pub backlight_ch_count : ℕ
backlight_ch_count = 16

abbrev pub frontlight_ch_count : ℕ
frontlight_ch_count = 1

-- `buf[i] = value`, for one assignment after the other.
unfoldable pub set_at : ℕ → ℕ → List ℕ → List ℕ
set_at i value [] = []
set_at zero value (x ∷ xs) = value ∷ xs
set_at (suc i) value (x ∷ xs) = x ∷ set_at i value xs

abbrev pub set_all : List (ℕ × ℕ) → List ℕ → List ℕ
set_all [] buf = buf
set_all ((i, value) ∷ more) buf = set_all more (set_at i value buf)

-- A call on the slice of `count` channels at each of the addresses.
abbrev pub on_each : ℕ → (List ℕ → List ℕ) → List ℕ → List ℕ → List ℕ
on_each count f [] buf = buf
on_each count f (a ∷ addrs) buf =
    on_each count f addrs (take a buf ++ f (take count (drop a buf)) ++ drop (a + count) buf)

abbrev pub gen_acceptance_test_step_1_backlight_state : List ℕ → List ℕ
gen_acceptance_test_step_1_backlight_state = set_all (
    (0, 128)
    ∷ (1, 0)
    ∷ (2, 148)
    ∷ (3, 114)
    ∷ (4, 0)
    ∷ (5, 0)
    ∷ (6, 0)
    ∷ (7, 0)
    ∷ (8, 0)
    ∷ (9, 0)
    ∷ (10, 255)
    ∷ (11, 0)
    ∷ (12, 45)
    ∷ (13, 91)
    ∷ (14, 255)
    ∷ (15, 255)
    ∷ [])

abbrev pub gen_acceptance_test_step_1_frontlight_state : List ℕ → List ℕ
gen_acceptance_test_step_1_frontlight_state = set_all ((0, 255) ∷ [])

abbrev pub gen_acceptance_test_step_2_backlight_state : List ℕ → List ℕ
gen_acceptance_test_step_2_backlight_state = set_all ((7, 255) ∷ (10, 0) ∷ [])

abbrev pub gen_acceptance_test_step_3_backlight_state : List ℕ → List ℕ
gen_acceptance_test_step_3_backlight_state = set_all ((7, 0) ∷ (9, 255) ∷ [])

abbrev pub gen_acceptance_test_step_4_backlight_state : List ℕ → List ℕ
gen_acceptance_test_step_4_backlight_state = set_all ((15, 0) ∷ [])

abbrev pub gen_acceptance_test_step_4_frontlight_state : List ℕ → List ℕ
gen_acceptance_test_step_4_frontlight_state = set_all ((0, 0) ∷ [])

unfoldable pub gen_acceptance_test_step_1 : List ℕ → List ℕ
gen_acceptance_test_step_1 buf =
    on_each frontlight_ch_count gen_acceptance_test_step_1_frontlight_state frontlight_addrs
      (on_each backlight_ch_count gen_acceptance_test_step_1_backlight_state backlight_addrs buf)

unfoldable pub gen_acceptance_test_step_2 : List ℕ → List ℕ
unfolding gen_acceptance_test_step_1
gen_acceptance_test_step_2 buf =
    on_each backlight_ch_count gen_acceptance_test_step_2_backlight_state backlight_addrs
      (gen_acceptance_test_step_1 buf)

unfoldable pub gen_acceptance_test_step_3 : List ℕ → List ℕ
unfolding gen_acceptance_test_step_2
gen_acceptance_test_step_3 buf =
    on_each backlight_ch_count gen_acceptance_test_step_3_backlight_state backlight_addrs
      (gen_acceptance_test_step_2 buf)

unfoldable pub gen_acceptance_test_step_4 : List ℕ → List ℕ
unfolding gen_acceptance_test_step_3
gen_acceptance_test_step_4 buf =
    on_each frontlight_ch_count gen_acceptance_test_step_4_frontlight_state frontlight_addrs (
      on_each backlight_ch_count gen_acceptance_test_step_4_backlight_state backlight_addrs
        (gen_acceptance_test_step_3 buf))

-- The array of the four steps.
unfoldable pub step_data : List (List ℕ)
unfolding gen_acceptance_test_step_4
step_data =
    let empty = replicate (universe_channel_capacity * 2) 0 in
    gen_acceptance_test_step_1 empty
    ∷ gen_acceptance_test_step_2 empty
    ∷ gen_acceptance_test_step_3 empty
    ∷ gen_acceptance_test_step_4 empty
    ∷ []

-- `data[pos]`, which panics out of bounds.
abbrev pub step_at : {E : Type 0} → ℕ → List (List ℕ) → Outcome E (List ℕ)
step_at pos [] = panic
step_at zero (d ∷ ds) = ok d
step_at (suc pos) (d ∷ ds) = step_at pos ds

module _ {W S U : Type 0} ⦃net : NetworkEndian⦄ ⦃crate : UuidCrate U⦄ ⦃calls : SendCalls S⦄
    ⦃clock : ClockCalls W⦄ where
  unfoldable pub acceptance_turn : ℕ → ℕ → Command W S U ℕ
  unfolding step_data
  acceptance_turn start step_counter =
      pure (step_at (step_counter / step_length) step_data) >>= λ values.
      on_source (send (1 ∷ 2 ∷ []) values none none none)
      >> pure (ok ((step_counter + 1) % (step_length * step_count)))

  unfoldable pub run_acceptance_test_demo : ℕ → Command W S U (Unit {0})
  unfolding acceptance_turn
  run_acceptance_test_demo fuel = now >>= λ start.
      run_while fuel start accept_test_duration test_preset_update_period (acceptance_turn start) 0
