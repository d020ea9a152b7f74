-- ===== src/DemoSrc/Total.antt =====
-- Every line of input of the demo source (examples/demo_src/src/main.rs) comes to an end: it returns or
-- panics.
use sacn_rust.DemoSrc.Acceptance.{acceptance_turn, run_acceptance_test_demo, accept_test_duration}
use sacn_rust.Common.{ok, zero, ℕ, suc, ◌*◌, ◌<◌, Option, none, List, [], ◌∷◌}
use sacn_rust.External.{UuidCrate, NetworkEndian}
use sacn_rust.Packet.Universe.{SocketAddr}
use sacn_rust.Source.{SendCalls}
use sacn_rust.Source.Handle.{send}
use sacn_rust.Source.Handle.Threads.{perform, sending}
use sacn_rust.Source.Handle.Threads.Calls.{perform-IsSound}
use sacn_rust.DemoSrc.Program.{ClockCalls, on_source}
use sacn_rust.DemoSrc.Presets.{
  two_universes_turn, rapid_changes_turn, moving_channel_turn, high_data_rate_turn, over_time_turn,
  F64, fill_channels, send_rates, run_test_moving_channel_preset, run_test_high_data_rate,
  send_over_time, shape_data_send_period, run_test_rapid_changes_preset, send_data,
  run_test_2_universes_distinct_values, test_preset_duration, test_preset_update_period,
}
use sacn_rust.DemoSrc.Ending.{
  if-AlwaysReturns, now-AlwaysReturns, pure-AlwaysReturns, Advances, AlwaysReturns,
  bind-AlwaysReturns, on_source-AlwaysReturns, timed-AlwaysReturns,
}

module _ {W : Type 0} (S U : Type 0) ⦃net : NetworkEndian⦄ ⦃crate : UuidCrate U⦄
    ⦃calls : SendCalls S⦄ ⦃clock : ClockCalls W⦄ (advances : Advances W) where
  -- The calls of the source.
  pub send-AlwaysReturns :
      (us values : List ℕ) (priority : Option ℕ) (dst_ip : Option SocketAddr) (sync_addr : Option ℕ)
      → AlwaysReturns S U advances (on_source (send us values priority dst_ip sync_addr))
  unfolding perform
  send-AlwaysReturns us values priority dst_ip sync_addr =
      on_source-AlwaysReturns S U advances (send us values priority dst_ip sync_addr)
        (perform-IsSound (sending us values priority dst_ip sync_addr))

  pub send_data-AlwaysReturns :
      (u : ℕ) (values : List ℕ) (dst_ip : Option SocketAddr)
      → AlwaysReturns S U advances (send_data u values dst_ip)
  send_data-AlwaysReturns u values dst_ip = send-AlwaysReturns (u ∷ []) values none dst_ip none

  -- The turns.
  two_universes_turn-AlwaysReturns :
      (uni_1 uni_2 uni1_val uni2_val : ℕ) (dst_ip : Option SocketAddr) (start : ℕ) (c : Unit {0})
      → AlwaysReturns S U advances (two_universes_turn uni_1 uni_2 uni1_val uni2_val dst_ip start c)
  two_universes_turn-AlwaysReturns uni_1 uni_2 uni1_val uni2_val dst_ip start c =
      search (bind-AlwaysReturns S U advances, send_data-AlwaysReturns)

  rapid_changes_turn-AlwaysReturns :
      (universe start counter : ℕ)
      → AlwaysReturns S U advances (rapid_changes_turn universe start counter)
  rapid_changes_turn-AlwaysReturns universe start counter =
      search
        (bind-AlwaysReturns S U advances, pure-AlwaysReturns S U advances, send_data-AlwaysReturns)

  acceptance_turn-AlwaysReturns :
      (start step_counter : ℕ) → AlwaysReturns S U advances (acceptance_turn start step_counter)
  unfolding acceptance_turn
  acceptance_turn-AlwaysReturns start step_counter =
      search (bind-AlwaysReturns S U advances, pure-AlwaysReturns S U advances, send-AlwaysReturns)

  -- The loops.
  pub two_universes-AlwaysReturns :
      (fuel uni_1 uni_2 uni1_val uni2_val : ℕ) (dst_ip : Option SocketAddr)
      → test_preset_duration < fuel * test_preset_update_period
      → AlwaysReturns S U advances
          (run_test_2_universes_distinct_values (suc fuel) uni_1 uni_2 uni1_val uni2_val dst_ip)
  unfolding run_test_2_universes_distinct_values
  two_universes-AlwaysReturns fuel uni_1 uni_2 uni1_val uni2_val dst_ip =
      timed-AlwaysReturns S U advances test_preset_duration test_preset_update_period
        (two_universes_turn uni_1 uni_2 uni1_val uni2_val dst_ip)
        (two_universes_turn-AlwaysReturns uni_1 uni_2 uni1_val uni2_val dst_ip) fuel tt

  pub rapid_changes-AlwaysReturns :
      (fuel universe : ℕ)
      → test_preset_duration < fuel * test_preset_update_period
      → AlwaysReturns S U advances (run_test_rapid_changes_preset (suc fuel) universe)
  unfolding run_test_rapid_changes_preset
  rapid_changes-AlwaysReturns fuel universe =
      timed-AlwaysReturns S U advances test_preset_duration test_preset_update_period
        (rapid_changes_turn universe) (rapid_changes_turn-AlwaysReturns universe) fuel 0

  pub acceptance-AlwaysReturns :
      (fuel : ℕ)
      → accept_test_duration < fuel * test_preset_update_period
      → AlwaysReturns S U advances (run_acceptance_test_demo (suc fuel))
  unfolding run_acceptance_test_demo
  acceptance-AlwaysReturns fuel =
      timed-AlwaysReturns S U advances accept_test_duration test_preset_update_period
        acceptance_turn acceptance_turn-AlwaysReturns fuel 0

  module _ (F : Type 0) ⦃f64 : F64 F⦄ where
    fill_channels-AlwaysReturns :
        (start left i : ℕ) → AlwaysReturns S U advances (fill_channels F start left i)
    unfolding fill_channels
    fill_channels-AlwaysReturns start zero i = pure-AlwaysReturns S U advances (ok [])
    fill_channels-AlwaysReturns start (suc left) i = search (
      bind-AlwaysReturns S U advances,
      pure-AlwaysReturns S U advances,
      now-AlwaysReturns S U advances,
      fill_channels-AlwaysReturns start left,
    )

    moving_channel_turn-AlwaysReturns :
        (universe start : ℕ) (c : Unit {0})
        → AlwaysReturns S U advances (moving_channel_turn F universe start c)
    unfolding moving_channel_turn
    moving_channel_turn-AlwaysReturns universe start c =
        search
          (bind-AlwaysReturns S U advances, fill_channels-AlwaysReturns, send_data-AlwaysReturns)

    pub moving_channel-AlwaysReturns :
        (fuel universe : ℕ)
        → test_preset_duration < fuel * test_preset_update_period
        → AlwaysReturns S U advances (run_test_moving_channel_preset F (suc fuel) universe)
    unfolding run_test_moving_channel_preset
    moving_channel-AlwaysReturns fuel universe =
        timed-AlwaysReturns S U advances test_preset_duration test_preset_update_period
          (moving_channel_turn F universe) (moving_channel_turn-AlwaysReturns universe) fuel tt

    send_rates-AlwaysReturns :
        (start_universe : ℕ) (counter : F) (left offset : ℕ)
        → AlwaysReturns S U advances (send_rates F start_universe counter left offset)
    unfolding send_rates
    send_rates-AlwaysReturns start_universe counter zero offset =
        pure-AlwaysReturns S U advances (ok tt)
    send_rates-AlwaysReturns start_universe counter (suc left) offset = search (
      bind-AlwaysReturns S U advances,
      send_data-AlwaysReturns,
      send_rates-AlwaysReturns start_universe counter left,
    )

    high_data_rate_turn-AlwaysReturns :
        (start_universe universe_count start : ℕ) (counter : F)
        → AlwaysReturns S U advances
            (high_data_rate_turn F start_universe universe_count start counter)
    unfolding high_data_rate_turn
    high_data_rate_turn-AlwaysReturns start_universe universe_count start counter = search (
      bind-AlwaysReturns S U advances,
      pure-AlwaysReturns S U advances,
      if-AlwaysReturns S U advances,
      send_rates-AlwaysReturns,
    )

    pub high_data_rate-AlwaysReturns :
        (fuel start_universe universe_count : ℕ)
        → test_preset_duration < fuel * test_preset_update_period
        → AlwaysReturns S U advances
            (run_test_high_data_rate F (suc fuel) start_universe universe_count)
    unfolding run_test_high_data_rate
    high_data_rate-AlwaysReturns fuel start_universe universe_count =
        timed-AlwaysReturns S U advances test_preset_duration test_preset_update_period
          (high_data_rate_turn F start_universe universe_count)
          (high_data_rate_turn-AlwaysReturns start_universe universe_count) fuel (f64.of_nat 0)

    over_time_turn-AlwaysReturns :
        (universe priority start : ℕ) (c : Unit {0})
        → AlwaysReturns S U advances (over_time_turn F universe priority start c)
    over_time_turn-AlwaysReturns universe priority start c =
        search (bind-AlwaysReturns S U advances, now-AlwaysReturns S U advances, send-AlwaysReturns)

    pub over_time-AlwaysReturns :
        (fuel universe duration_millis priority : ℕ)
        → duration_millis < fuel * shape_data_send_period
        → AlwaysReturns S U advances (send_over_time F (suc fuel) universe duration_millis priority)
    unfolding send_over_time
    over_time-AlwaysReturns fuel universe duration_millis priority =
        timed-AlwaysReturns S U advances duration_millis shape_data_send_period
          (over_time_turn F universe priority) (over_time_turn-AlwaysReturns universe priority) fuel
          tt
