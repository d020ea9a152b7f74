-- ===== src/DemoSrc/Presets.antt =====
-- The test presets of the demo source (examples/demo_src/src/main.rs): loops that send changing
-- data to universes until a time is over.
use sacn_rust.Common.{
  zero, suc, panic, some, ℕ, ◌+◌, ◌-◌, ◌/◌, ◌%◌, ltb, Option, none, List, [], ◌∷◌, ok, replicate,
  if◌then◌else◌,
}
use sacn_rust.External.{UuidCrate, NetworkEndian}
use sacn_rust.Packet.Constants.{universe_channel_capacity}
use sacn_rust.Packet.Universe.{SocketAddr}
use sacn_rust.Source.{SendCalls}
use sacn_rust.Source.Handle.{send}
use sacn_rust.DemoSrc.Program.{ClockCalls, Command, on_source, pure, ◌>>=◌, ◌>>◌, now, run_while}

abbrev pub shape_data_send_period : ℕ
shape_data_send_period = 33

abbrev pub test_preset_duration : ℕ
test_preset_duration = 20000

abbrev pub test_preset_update_period : ℕ
test_preset_update_period = 33

abbrev pub test_preset_rapid_change_period : ℕ
test_preset_rapid_change_period = 10

-- The operations of `f64`; `of_nat` is `as f64` and `to_u8` is `as u8`.
pub record F64 (F : Type 0) : Type 0 where
  pub of_nat : ℕ → F
  pub add : F → F → F
  pub mul : F → F → F
  pub div : F → F → F
  pub sin : F → F
  pub to_u8 : F → ℕ

-- A universe of one value, with start code zero.
abbrev pub all_of : ℕ → List ℕ
all_of d = 0 ∷ replicate (universe_channel_capacity - 1) d

module _ {W S U : Type 0} ⦃net : NetworkEndian⦄ ⦃crate : UuidCrate U⦄ ⦃calls : SendCalls S⦄
    ⦃clock : ClockCalls W⦄ where
  -- `src.send(&[universe], &data, None, dst_ip, None)?`
  abbrev pub send_data : ℕ → List ℕ → Option SocketAddr → Command W S U (Unit {0})
  send_data universe data_ dst_ip = on_source (send (universe ∷ []) data_ none dst_ip none)

  -- The turns of the loops: what is sent in one, with the start time and what the loop changes.
  abbrev pub two_universes_turn :
      ℕ → ℕ → ℕ → ℕ → Option SocketAddr → ℕ → Unit {0} → Command W S U (Unit {0})
  two_universes_turn uni_1 uni_2 uni1_val uni2_val dst_ip start _ =
      send_data uni_1 (all_of uni1_val) dst_ip >> send_data uni_2 (all_of uni2_val) dst_ip

  unfoldable pub run_test_2_universes_distinct_values :
      ℕ → ℕ → ℕ → ℕ → ℕ → Option SocketAddr → Command W S U (Unit {0})
  run_test_2_universes_distinct_values fuel uni_1 uni_2 uni1_val uni2_val dst_ip = now >>= λ start.
      run_while fuel start test_preset_duration test_preset_update_period
        (two_universes_turn uni_1 uni_2 uni1_val uni2_val dst_ip start) tt

  abbrev pub rapid_changes_turn : ℕ → ℕ → ℕ → Command W S U ℕ
  rapid_changes_turn universe start counter =
      let value = if ltb counter (test_preset_rapid_change_period / 2) then 0 else 255 in
      send_data universe (all_of value) none
      >> pure (ok ((counter + 1) % test_preset_rapid_change_period))

  unfoldable pub run_test_rapid_changes_preset : ℕ → ℕ → Command W S U (Unit {0})
  run_test_rapid_changes_preset fuel universe = now >>= λ start.
      run_while fuel start test_preset_duration test_preset_update_period
        (rapid_changes_turn universe start) 0

module _ (F : Type 0) ⦃f64 : F64 F⦄ where
  -- The wave of `run_test_moving_channel_preset` at channel `i`; the clock is read for each.
  unfoldable pub channel_value : ℕ → ℕ → ℕ
  channel_value elapsed i =
      let x =
        f64.div (f64.add (f64.of_nat elapsed) (f64.mul (f64.of_nat i) (f64.of_nat 10)))
          (f64.of_nat 4000) in
      f64.to_u8 (f64.mul (f64.of_nat 255) (f64.sin x))

module _ {W S U : Type 0} (F : Type 0) ⦃f64 : F64 F⦄ ⦃net : NetworkEndian⦄ ⦃crate : UuidCrate U⦄
    ⦃calls : SendCalls S⦄ ⦃clock : ClockCalls W⦄ where
  -- The inner loop: the values of the channels from `i` on.
  unfoldable pub fill_channels : ℕ → ℕ → ℕ → Command W S U (List ℕ)
  unfolding channel_value
  fill_channels start zero i = pure (ok [])
  fill_channels start (suc left) i = now >>= λ t. fill_channels start left (i + 1) >>= λ values.
      pure (ok (channel_value F (t - start) i ∷ values))

  unfoldable pub moving_channel_turn : ℕ → ℕ → Unit {0} → Command W S U (Unit {0})
  unfolding fill_channels
  moving_channel_turn universe start _ =
      fill_channels start (universe_channel_capacity - 1) 1 >>= λ values.
      send_data universe (0 ∷ values) none

  unfoldable pub run_test_moving_channel_preset : ℕ → ℕ → Command W S U (Unit {0})
  unfolding moving_channel_turn
  run_test_moving_channel_preset fuel universe = now >>= λ start.
      run_while fuel start test_preset_duration test_preset_update_period
        (moving_channel_turn universe start) tt

  -- The inner loop of `run_test_high_data_rate`, from the universe `start_universe + offset` on.
  unfoldable pub send_rates : ℕ → F → ℕ → ℕ → Command W S U (Unit {0})
  send_rates start_universe counter zero offset = pure (ok tt)
  send_rates start_universe counter (suc left) offset =
      let d = f64.mul (f64.of_nat offset) (f64.mul (f64.of_nat 10) (f64.sin counter)) in
      send_data (start_universe + offset) (all_of (f64.to_u8 d)) none
      >> send_rates start_universe counter left (offset + 1)

  -- The end of the range is a `u16`: its sum panics when it overflows, with overflow checks. The
  -- step of the counter, 0.05, is the quotient of 5 and 100.
  unfoldable pub high_data_rate_turn : ℕ → ℕ → ℕ → F → Command W S U F
  unfolding send_rates
  high_data_rate_turn start_universe universe_count start counter =
      (if ltb 65535 (start_universe + universe_count)
        then pure panic
        else send_rates start_universe counter universe_count 0)
      >> pure (ok (f64.add counter (f64.div (f64.of_nat 5) (f64.of_nat 100))))

  unfoldable pub run_test_high_data_rate : ℕ → ℕ → ℕ → Command W S U (Unit {0})
  unfolding high_data_rate_turn
  run_test_high_data_rate fuel start_universe universe_count = now >>= λ start.
      run_while fuel start test_preset_duration test_preset_update_period
        (high_data_rate_turn start_universe universe_count start) (f64.of_nat 0)

  -- The loop of `handle_data_over_time_option`.
  abbrev pub over_time_turn : ℕ → ℕ → ℕ → Unit {0} → Command W S U (Unit {0})
  over_time_turn universe priority start _ = now >>= λ t.
      let x = f64.div (f64.of_nat (t - start)) (f64.of_nat 1000) in
      let d = f64.to_u8 (f64.mul (f64.of_nat 255) (f64.sin x)) in
      on_source (send (universe ∷ []) (all_of d) (some priority) none none)

  unfoldable pub send_over_time : ℕ → ℕ → ℕ → ℕ → Command W S U (Unit {0})
  send_over_time fuel universe duration_millis priority = now >>= λ start.
      run_while fuel start duration_millis shape_data_send_period
        (over_time_turn universe priority start) tt
