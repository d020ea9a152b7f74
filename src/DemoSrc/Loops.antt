-- ===== src/DemoSrc/Loops.antt =====
-- The commands of the demo source (examples/demo_src/src/main.rs) that run loops.
use sacn_rust.Common.{ℕ, ◌==◌, Bool, Option, none, some, List, err, if◌then◌else◌}
use sacn_rust.Error.{text}
use sacn_rust.External.{UuidCrate, NetworkEndian}
use sacn_rust.Packet.Constants.{acn_sdt_multicast_port}
use sacn_rust.Packet.Universe.{SocketAddr}
use sacn_rust.Source.{SendCalls}
use sacn_rust.DemoSrc.Input.{Word, parse_ip, Ipv6Text, word_at, unwrap, number_at}
use sacn_rust.DemoSrc.Program.{invalid_input, ClockCalls, Command, pure, ◌>>=◌, ◌>>◌}
use sacn_rust.DemoSrc.Presets.{
  F64, run_test_2_universes_distinct_values, run_test_rapid_changes_preset,
  run_test_moving_channel_preset, run_test_high_data_rate, send_over_time,
}
use sacn_rust.DemoSrc.Acceptance.{run_acceptance_test_demo}
use sacn_rust.DemoSrc.Commands.{max_u8, max_u16, max_u64, need, and_continue}

module _ {W S U : Type 0} (F : Type 0) ⦃f64 : F64 F⦄ ⦃net : NetworkEndian⦄ ⦃crate : UuidCrate U⦄
    ⦃calls : SendCalls S⦄ ⦃clock : ClockCalls W⦄ where
  unfoldable pub handle_data_over_time_option : ℕ → List Word → Command W S U Bool
  unfolding send_over_time
  handle_data_over_time_option fuel words =
      need 4 (text "Insufficient parts for data line ( < 4 )") words
      >> (pure (number_at max_u16 1 words) >>= λ universe.
          pure (number_at max_u64 2 words) >>= λ duration_millis.
          pure (number_at max_u8 3 words) >>= λ priority.
          and_continue (send_over_time F fuel universe duration_millis priority))

  module _ ⦃text_v6 : Ipv6Text⦄ where
    -- The two presets with two universes.
    abbrev pub two_universes : ℕ → List Word → ℕ → Option SocketAddr → Command W S U (Unit {0})
    two_universes fuel words universe dst_ip = pure (number_at max_u16 3 words) >>= λ universe_2.
        run_test_2_universes_distinct_values fuel universe universe_2 127 255 dst_ip

    abbrev pub two_universes_unicast : ℕ → List Word → ℕ → Command W S U (Unit {0})
    two_universes_unicast fuel words universe = pure (number_at max_u16 3 words) >>= λ universe_2.
        pure (word_at 4 words) >>= λ word.
        pure (unwrap (parse_ip word acn_sdt_multicast_port)) >>= λ addr.
        run_test_2_universes_distinct_values fuel universe universe_2 127 255 (some addr)

    -- The `match` on the number of the preset.
    unfoldable pub run_preset : ℕ → List Word → ℕ → ℕ → Command W S U (Unit {0})
    run_preset fuel words preset universe =
        if preset == 7
        then run_test_moving_channel_preset F fuel universe
        else (if preset == 8
            then run_test_rapid_changes_preset fuel universe
            else (if preset == 9
                then run_test_high_data_rate F fuel universe 16
                else (if preset == 3
                    then need 4
                        (text "Insufficient parts for test preset 2 universes option ( < 4 )") words
                      >> two_universes fuel words universe none
                    else (if preset == 4
                        then need 5
                            (text "Insufficient parts for test preset 2 universes option ( < 4 )")
                            words
                          >> two_universes_unicast fuel words universe
                        else (if preset == 100
                            then run_acceptance_test_demo fuel
                            else pure
                                (err (invalid_input (text "Unrecognised test preset option"))))))))

    unfoldable pub handle_test_preset_option : ℕ → List Word → Command W S U Bool
    unfolding run_preset
    handle_test_preset_option fuel words =
        need 3 (text "Insufficient parts for test preset option ( < 3 )") words
        >> (pure (number_at max_u64 1 words) >>= λ preset.
            pure (number_at max_u16 2 words) >>= λ universe.
            and_continue (run_preset fuel words preset universe))
