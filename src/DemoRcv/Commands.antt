-- ===== src/DemoRcv/Commands.antt =====
-- The commands of the demo receiver (examples/demo_rcv/src/main.rs): `handle_input` and the loop of
-- `main`.
use sacn_rust.Common.{
  ℕ, zero, suc, ◌*◌, ◌==◌, ltb, Bool, Option, none, some, List, [], ◌∷◌, ok, err, length,
  if◌then◌else◌,
}
use sacn_rust.Error.{Message, text}
use sacn_rust.External.{UuidCrate, NetworkEndian}
use sacn_rust.Receive.Network.{SocketCalls, ReadCalls}
use sacn_rust.Receive.Receiver.{SacnReceiver}
use sacn_rust.DemoSrc.Input.{Word, parse_bool, word_at, number_at}
use sacn_rust.DemoSrc.Program.{invalid_input}
use sacn_rust.DemoSrc.Commands.{max_u64}
use sacn_rust.DemoRcv.Printing.{help, print_recv}
use sacn_rust.DemoRcv.Program.{Command, pure, ◌>>=◌, ◌>>◌, setting, print, try_recv}

-- The first words of the commands.
abbrev pub action_recv : Word
action_recv = 114 ∷ []

abbrev pub action_recv_continuous : Word
action_recv_continuous = 99 ∷ []

abbrev pub action_print_discovered_sources : Word
action_print_discovered_sources = 115 ∷ []

abbrev pub action_print_discovered_sources_no_timeout : Word
action_print_discovered_sources_no_timeout = 120 ∷ []

abbrev pub action_quit : Word
action_quit = 113 ∷ []

abbrev pub action_help : Word
action_help = 104 ∷ []

abbrev pub action_listen_universe : Word
action_listen_universe = 108 ∷ []

abbrev pub action_stop_listen_universe : Word
action_stop_listen_universe = 116 ∷ []

abbrev pub action_sleep : Word
action_sleep = 119 ∷ []

abbrev pub action_preview : Word
action_preview = 112 ∷ []

abbrev pub action_announce_discovered : Word
action_announce_discovered = 97 ∷ []

abbrev pub action_ignore : Word
action_ignore = 35 ∷ []

abbrev pub action_file_out : Word
action_file_out = 102 ∷ []

abbrev pub action_announce_termination : Word
action_announce_termination = 101 ∷ []

-- A timeout in seconds, of which zero is none, in milliseconds.
abbrev pub timeout_of : ℕ → Option ℕ
timeout_of secs = if secs == 0 then none else some (secs * 1000)

module _ {W S U : Type 0} where
  -- The checks of the number of words, which print the help.
  abbrev pub need : ℕ → Message → List Word → Command W S U (Unit {0})
  need n message words =
      if ltb (length words) n
      then print help >> pure (err (invalid_input message))
      else pure (ok tt)

  -- The `match` on a parsed flag.
  abbrev pub set_flag :
      (Bool → SacnReceiver S U → SacnReceiver S U)
      → Message
      → Option Bool
      → Command W S U (Unit {0})
  set_flag set message (some v) = setting (set v)
  set_flag set message none = pure (err (invalid_input message))

  abbrev pub flag_option :
      (Bool → SacnReceiver S U → SacnReceiver S U) → Message → List Word → Command W S U (Unit {0})
  flag_option set message words =
      pure (word_at 1 words) >>= λ word. set_flag set message (parse_bool word)

module _ {W S U : Type 0} ⦃crate : UuidCrate U⦄ ⦃net : NetworkEndian⦄ ⦃sockets : SocketCalls S⦄
    ⦃calls : ReadCalls S⦄ where
  abbrev pub recv_and_print : ℕ → Option ℕ → Command W S U (Unit {0})
  recv_and_print fuel timeout =
      try_recv fuel timeout >>= λ res. pure (print_recv res) >>= λ line. print line

  unfoldable pub recv_times : ℕ → Option ℕ → ℕ → Command W S U (Unit {0})
  recv_times fuel timeout zero = pure (ok tt)
  recv_times fuel timeout (suc count) = recv_and_print fuel timeout >> recv_times fuel timeout count

  abbrev pub recv_option : ℕ → List Word → Command W S U (Unit {0})
  recv_option fuel words =
      need 2 (text "Insufficient parts ( < 2 )") words
      >> (pure (number_at max_u64 1 words) >>= λ secs. recv_and_print fuel (timeout_of secs))

  unfoldable pub recv_continuous_option : ℕ → List Word → Command W S U (Unit {0})
  unfolding recv_times
  recv_continuous_option fuel words =
      need 3 (text "Insufficient parts ( < 3 )") words
      >> (pure (number_at max_u64 1 words) >>= λ secs.
          pure (number_at max_u64 2 words) >>= λ count. recv_times fuel (timeout_of secs) count)
