-- ===== src/DemoRcv/Dispatch.antt =====
-- `handle_input` of the demo receiver (examples/demo_rcv/src/main.rs), what its arms do, and the loop of
-- `main`.
use sacn_rust.Common.{
  ℕ, zero, suc, ◌+◌, Bool, true, false, Option, none, some, List, [], ◌∷◌, Outcome, ok, err, panic,
  if◌then◌else◌,
}
use sacn_rust.Error.{SacnError, text}
use sacn_rust.External.{UuidCrate, NetworkEndian}
use sacn_rust.Receive.Merge.{DmxData}
use sacn_rust.Receive.Network.{SocketCalls, ReadCalls}
use sacn_rust.Receive.Receiver.{listen_universes, mute_universe, get_discovered_sources}
use sacn_rust.Receive.Creation.{
  get_discovered_sources_no_check, set_process_preview_data, set_announce_source_discovery,
  set_announce_stream_termination,
}
use sacn_rust.Receive.Recv.{instant}
use sacn_rust.DemoSrc.Input.{Word, is_word, word_at, number_at}
use sacn_rust.DemoSrc.Program.{DemoError, unknown_input_type, read_failed}
use sacn_rust.DemoSrc.Commands.{max_u16, max_u64}
use sacn_rust.DemoSrc.Dispatch.{Line, end_of_input, words_of, failed}
use sacn_rust.DemoRcv.Printing.{help, print_discovered_sources, line_of}
use sacn_rust.DemoRcv.Program.{
  HostCalls, Program, Command, pure, ◌>>=◌, ◌>>◌, on_receiver, print, on_host, try_recv,
}
use sacn_rust.DemoRcv.Commands.{
  action_recv, action_recv_continuous, action_print_discovered_sources,
  action_print_discovered_sources_no_timeout, action_quit, action_help, action_listen_universe,
  action_stop_listen_universe, action_sleep, action_preview, action_announce_discovered,
  action_ignore, action_file_out, action_announce_termination, timeout_of, need, flag_option,
  recv_option, recv_continuous_option,
}

-- `WRITE_TO_FILE_HEADERS`, and its line.
abbrev pub write_to_file_headers : List ℕ
write_to_file_headers =
    68 ∷ 97 ∷ 116 ∷ 97 ∷ 95 ∷ 73 ∷ 68 ∷ 44 ∷ 32 ∷ 85 ∷ 110 ∷ 105 ∷ 118 ∷ 101 ∷ 114 ∷ 115 ∷ 101 ∷ 44
    ∷ 32 ∷ 83 ∷ 121 ∷ 110 ∷ 99 ∷ 95 ∷ 65 ∷ 100 ∷ 100 ∷ 114 ∷ 44 ∷ 32 ∷ 80 ∷ 114 ∷ 105 ∷ 111 ∷ 114
    ∷ 105 ∷ 116 ∷ 121 ∷ 44 ∷ 32 ∷ 80 ∷ 114 ∷ 101 ∷ 118 ∷ 105 ∷ 101 ∷ 119 ∷ 95 ∷ 100 ∷ 97 ∷ 116 ∷ 97
    ∷ 63 ∷ 44 ∷ 32 ∷ 80 ∷ 97 ∷ 121 ∷ 108 ∷ 111 ∷ 97 ∷ 100 ∷ 10 ∷ []

module _ {W S U : Type 0} ⦃host : HostCalls W⦄ where
  unfoldable pub write_to_file : List (DmxData U) → ℕ → Command W S U (Unit {0})
  write_to_file [] data_id = pure (ok tt)
  write_to_file (d ∷ ds) data_id =
      on_host (host.write (line_of data_id d)) >> write_to_file ds data_id

  abbrev pub sleep_option : List Word → Command W S U (Unit {0})
  sleep_option words =
      need 2 (text "Insufficient parts ( < 2 )") words
      >> (pure (number_at max_u64 1 words) >>= λ millisecs.
          λ self. some (ok tt, record self { world = host.sleep millisecs self.world }))

module _ {W S U : Type 0} ⦃calls : ReadCalls S⦄ where
  -- The clock is read in `get_discovered_sources`.
  abbrev pub print_sources : Command W S U (Unit {0})
  print_sources = on_receiver instant >>= λ now.
      on_receiver (λ r. let found = get_discovered_sources now r in (ok (found.0), found.1))
      >>= λ srcs. print (print_discovered_sources srcs)

  abbrev pub print_sources_no_timeout : Command W S U (Unit {0})
  print_sources_no_timeout self =
      print (print_discovered_sources (get_discovered_sources_no_check self.receiver)) self

module _ {W S U : Type 0} ⦃sockets : SocketCalls S⦄ where
  abbrev pub listen_option : List Word → Command W S U (Unit {0})
  listen_option words =
      need 2 (text "Insufficient parts ( < 2 )") words
      >> (pure (number_at max_u16 1 words) >>= λ universe.
          on_receiver (listen_universes (universe ∷ [])))

  abbrev pub stop_listen_option : List Word → Command W S U (Unit {0})
  stop_listen_option words =
      need 2 (text "Insufficient parts ( < 2 )") words
      >> (pure (number_at max_u16 1 words) >>= λ universe. on_receiver (mute_universe universe))

-- `unwrap` of what `recv` returns.
abbrev pub unwrap_data :
    {U : Type 0}
    → Outcome (SacnError U) (List (DmxData U))
    → Outcome (DemoError U) (List (DmxData U))
unwrap_data (ok ds) = ok ds
unwrap_data (err e) = panic
unwrap_data panic = panic

module _ {W S U : Type 0} ⦃crate : UuidCrate U⦄ ⦃net : NetworkEndian⦄ ⦃sockets : SocketCalls S⦄
    ⦃calls : ReadCalls S⦄ ⦃host : HostCalls W⦄ where
  -- The loop that writes what is received, with the number `i` of the first.
  unfoldable pub file_times : ℕ → Option ℕ → ℕ → ℕ → Command W S U (Unit {0})
  unfolding write_to_file
  file_times fuel timeout zero i = pure (ok tt)
  file_times fuel timeout (suc count) i = try_recv fuel timeout >>= λ res.
      pure (unwrap_data res) >>= λ received_data.
      write_to_file received_data i >> file_times fuel timeout count (i + 1)

  unfoldable pub file_option : ℕ → List Word → Command W S U (Unit {0})
  unfolding file_times
  file_option fuel words =
      need 4 (text "Insufficient parts ( < 4 )") words
      >> (pure (word_at 1 words) >>= λ file_path. pure (number_at max_u64 2 words) >>= λ count.
          pure (number_at max_u64 3 words) >>= λ secs.
          on_host (host.create file_path)
          >> on_host (host.write write_to_file_headers)
          >> file_times fuel (timeout_of secs) count 0)

  -- The `match` on the first word, but for the command that ends the program.
  unfoldable pub handle_command : ℕ → Word → List Word → Command W S U (Unit {0})
  unfolding recv_continuous_option file_option
  handle_command fuel action words =
      if is_word action action_ignore
      then pure (ok tt)
      else (if is_word action action_help
          then print help
          else (if is_word action action_recv
              then recv_option fuel words
              else (if is_word action action_recv_continuous
                  then recv_continuous_option fuel words
                  else (if is_word action action_print_discovered_sources
                      then print_sources
                      else (if is_word action action_print_discovered_sources_no_timeout
                          then print_sources_no_timeout
                          else (if is_word action action_sleep
                              then sleep_option words
                              else (if is_word action action_listen_universe
                                  then listen_option words
                                  else (if is_word action action_stop_listen_universe
                                      then stop_listen_option words
                                      else (if is_word action action_preview
                                          then flag_option set_process_preview_data
                                              (text
                                                "Preview flag option not 'true'/'false' or otherwise parsable as boolean")
                                              words
                                          else (if is_word action action_announce_discovered
                                              then flag_option set_announce_source_discovery
                                                  (text
                                                    "Announce discovery option not 'true'/'false' or otherwise parsable as boolean")
                                                  words
                                              else (if is_word action action_announce_termination
                                                  then flag_option set_announce_stream_termination
                                                      (text
                                                        "Announce stream termination option not 'true'/'false' or otherwise parsable as boolean")
                                                      words
                                                  else (if is_word action action_file_out
                                                      then file_option fuel words
                                                      else pure (
                                                          err
                                                            (unknown_input_type action))))))))))))))

  -- The result says whether the program goes on.
  unfoldable pub handle_input : ℕ → Line → Command W S U Bool
  unfolding handle_command
  handle_input fuel end_of_input = pure (ok false)
  handle_input fuel failed = pure (err read_failed)
  handle_input fuel (words_of []) = print help >> pure (ok true)
  handle_input fuel (words_of (action ∷ words)) =
      if is_word action action_quit
      then pure (ok false)
      else handle_command fuel action (action ∷ words) >> pure (ok true)

  -- An error is printed, and ignored.
  abbrev pub after_input :
      Option (Outcome (DemoError U) Bool × Program W S U)
      → Command W S U (Unit {0})
      → Option (Outcome (DemoError U) (Unit {0}) × Program W S U)
  after_input none continue = none
  after_input (some (ok true, self)) continue = continue self
  after_input (some (ok false, self)) continue = some (ok tt, self)
  after_input (some (err e, self)) continue = continue self
  after_input (some (panic, self)) continue = some (panic, self)

  -- The loop of `main`, on the lines of the input.
  unfoldable pub main_loop : ℕ → List Line → Command W S U (Unit {0})
  unfolding handle_input
  main_loop fuel [] = pure (ok tt)
  main_loop fuel (line ∷ lines) =
      λ self. after_input (handle_input fuel line self) (main_loop fuel lines)
