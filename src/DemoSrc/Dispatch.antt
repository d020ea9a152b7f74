-- ===== src/DemoSrc/Dispatch.antt =====
-- `handle_input` of the demo source (examples/demo_src/src/main.rs): it reads a line and does what the
-- line says. What is printed is left out.
use sacn_rust.Source.Handle.{
  send_sync_packet, register_universe, set_preview_mode, terminate_stream,
}
use sacn_rust.Common.{
  panic, Outcome, Option, ok, false, true, ℕ, ◌==◌, Bool, none, some, List, [], ◌∷◌, err,
  if◌then◌else◌,
}
use sacn_rust.Error.{text}
use sacn_rust.External.{UuidCrate, NetworkEndian}
use sacn_rust.Source.{SendCalls}
use sacn_rust.DemoSrc.Input.{
  is_word, parse_bool, parse_socket_addr, Word, Ipv6Text, word_at, unwrap, number_at,
}
use sacn_rust.DemoSrc.Program.{
  DemoError, Program, on_source, unknown_input_type, read_failed, sleep, invalid_input, ClockCalls,
  Command, pure, ◌>>=◌, ◌>>◌,
}
use sacn_rust.DemoSrc.Presets.{F64}
use sacn_rust.DemoSrc.Commands.{
  handle_full_data_option, handle_all_data_option, handle_data_option, handle_unicast_option,
  max_u16, max_u64, need, and_continue,
}
use sacn_rust.DemoSrc.Loops.{handle_data_over_time_option, handle_test_preset_option}

-- The first words of the commands.
abbrev pub action_preview_option : Word
action_preview_option = 112 ∷ []

abbrev pub action_data_option : Word
action_data_option = 100 ∷ []

abbrev pub action_full_data_option : Word
action_full_data_option = 102 ∷ []

abbrev pub action_unicast_option : Word
action_unicast_option = 117 ∷ []

abbrev pub action_register_option : Word
action_register_option = 114 ∷ []

abbrev pub action_terminate_option : Word
action_terminate_option = 113 ∷ []

abbrev pub action_sleep_option : Word
action_sleep_option = 119 ∷ []

abbrev pub action_sync_option : Word
action_sync_option = 115 ∷ []

abbrev pub action_unicast_sync_option : Word
action_unicast_sync_option = 117 ∷ 115 ∷ []

abbrev pub action_data_over_time_option : Word
action_data_over_time_option = 120 ∷ []

abbrev pub action_test_present_option : Word
action_test_present_option = 116 ∷ []

abbrev pub action_ignore : Word
action_ignore = 35 ∷ []

abbrev pub action_all_data_option : Word
action_all_data_option = 97 ∷ []

abbrev pub terminate_start_code : ℕ
terminate_start_code = 0

-- What `read_line` gives: the end of the input, the words of a line, or an error.
pub data Line : Type 0 where
  end_of_input : Line
  words_of : List Word → Line
  failed : Line

module _ {W S U : Type 0} ⦃net : NetworkEndian⦄ ⦃crate : UuidCrate U⦄ ⦃calls : SendCalls S⦄ where
  -- The arms of `handle_input` that are not functions of their own.
  abbrev pub sync_option : List Word → Command W S U Bool
  sync_option words = pure (number_at max_u16 1 words) >>= λ universe.
      and_continue (on_source (send_sync_packet universe none))

  abbrev pub unicast_sync_option : ⦃text_v6 : Ipv6Text⦄ → List Word → Command W S U Bool
  unicast_sync_option words =
      need 3 (text "Insufficient parts for data line ( < 3 )") words
      >> (pure (number_at max_u16 1 words) >>= λ universe. pure (word_at 2 words) >>= λ dst_ip.
          pure (unwrap (parse_socket_addr dst_ip)) >>= λ addr.
          and_continue (on_source (send_sync_packet universe (some addr))))

  abbrev pub register_option : List Word → Command W S U Bool
  register_option words = pure (number_at max_u16 1 words) >>= λ universe.
      and_continue (on_source (register_universe universe))

  -- The `match` on the parsed flag.
  abbrev pub preview_of : Option Bool → Command W S U Bool
  preview_of (some v) = and_continue (on_source (set_preview_mode v))
  preview_of none = pure (
      err (
        invalid_input
          (text "Preview flag option not 'true'/'false' or otherwise parsable as boolean")))

  abbrev pub preview_option : List Word → Command W S U Bool
  preview_option words = pure (word_at 1 words) >>= λ word. preview_of (parse_bool word)

  -- Universe 0 ends the program.
  abbrev pub terminate_option : List Word → Command W S U Bool
  terminate_option words = pure (number_at max_u16 1 words) >>= λ universe.
      if universe == 0
      then pure (ok false)
      else and_continue (on_source (terminate_stream universe terminate_start_code))

  abbrev pub sleep_option : ⦃clock : ClockCalls W⦄ → List Word → Command W S U Bool
  sleep_option words =
      need 2 (text "Insufficient parts ( < 2 )") words
      >> (pure (number_at max_u64 1 words) >>= λ millis. and_continue (sleep millis))

module _ {W S U : Type 0} (F : Type 0) ⦃f64 : F64 F⦄ ⦃net : NetworkEndian⦄ ⦃crate : UuidCrate U⦄
    ⦃calls : SendCalls S⦄ ⦃clock : ClockCalls W⦄ ⦃text_v6 : Ipv6Text⦄ where
  -- The `match` on the first word.
  unfoldable pub handle_command : ℕ → Word → List Word → Command W S U Bool
  unfolding handle_data_over_time_option handle_test_preset_option
  handle_command fuel action words =
      if is_word action action_ignore
      then pure (ok true)
      else (if is_word action action_data_option
          then handle_data_option words
          else (if is_word action action_full_data_option
              then handle_full_data_option words
              else (if is_word action action_unicast_option
                  then handle_unicast_option words
                  else (if is_word action action_data_over_time_option
                      then handle_data_over_time_option F fuel words
                      else (if is_word action action_sync_option
                          then sync_option words
                          else (if is_word action action_unicast_sync_option
                              then unicast_sync_option words
                              else (if is_word action action_register_option
                                  then register_option words
                                  else (if is_word action action_preview_option
                                      then preview_option words
                                      else (if is_word action action_terminate_option
                                          then terminate_option words
                                          else (if is_word action action_sleep_option
                                              then sleep_option words
                                              else (if is_word action action_all_data_option
                                                  then handle_all_data_option words
                                                  else (if is_word action action_test_present_option
                                                      then handle_test_preset_option F fuel words
                                                      else pure (
                                                          err
                                                            (unknown_input_type action))))))))))))))

  -- The result says whether the program goes on.
  unfoldable pub handle_input : ℕ → Line → Command W S U Bool
  unfolding handle_command
  handle_input fuel end_of_input = pure (ok false)
  handle_input fuel failed = pure (err read_failed)
  handle_input fuel (words_of words) =
      need 2 (text "Insufficient parts ( < 2 )") words
      >> (pure (word_at 0 words) >>= λ action. handle_command fuel action words)

module _ {W S U : Type 0} where
  -- An error is printed, and ignored.
  abbrev pub after_input :
      Option (Outcome (DemoError U) Bool × Program W S U)
      → Command W S U (Unit {0})
      → Option (Outcome (DemoError U) (Unit {0}) × Program W S U)
  after_input none continue = none
  after_input (some (ok true, self)) continue = continue self
  after_input (some (ok false, self)) continue = some (ok tt, self)
  after_input (some (err e, self)) continue = continue self
  after_input (some (panic, self)) continue = some (panic, self)

module _ {W S U : Type 0} (F : Type 0) ⦃f64 : F64 F⦄ ⦃net : NetworkEndian⦄ ⦃crate : UuidCrate U⦄
    ⦃calls : SendCalls S⦄ ⦃clock : ClockCalls W⦄ ⦃text_v6 : Ipv6Text⦄ where
  -- The loop of `main`, on the lines of the input.
  unfoldable pub main_loop : ℕ → List Line → Command W S U (Unit {0})
  unfolding handle_input
  main_loop fuel [] = pure (ok tt)
  main_loop fuel (line ∷ lines) =
      λ self. after_input (handle_input F fuel line self) (main_loop fuel lines)
