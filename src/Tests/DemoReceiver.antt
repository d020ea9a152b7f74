-- ===== src/Tests/DemoReceiver.antt =====
-- The demo receiver, on a quiet socket.
use sacn_rust.Common.{true, ℕ, ◌≡◌, refl, some, [], ◌∷◌, ok, panic}
use sacn_rust.DemoSrc.Dispatch.{words_of}
use sacn_rust.DemoRcv.Printing.{help, digits, create_values_str}
use sacn_rust.DemoRcv.Program.{HostCalls, Program}
use sacn_rust.DemoRcv.Dispatch.{handle_input, handle_command}
use sacn_rust.Receive.Ordering.{eq_values}
use sacn_rust.Tests.Instances.{big_endian, uuid_crate, Uuid}
use sacn_rust.Tests.Links.{quiet_socket, quiet_reads, listener}

instance abbrev quiet_host : HostCalls (Unit {0})
quiet_host = record {
  sleep = λ millis w. w;
  create = λ path w. (ok tt, w);
  write = λ line w. (ok tt, w);
}

abbrev idle : Program (Unit {0}) ℕ Uuid
idle = record { world = tt; receiver = listener; printed = [] }

-- The line `h` prints the help.
help_line :
    handle_input 10 (words_of ((104 ∷ []) ∷ [])) idle
    ≡ some (ok true, record idle { printed = help ∷ [] })
unfolding handle_input handle_command eq_values
help_line = refl

-- The line `p` panics.
preview_without_flag : handle_input 10 (words_of ((112 ∷ []) ∷ [])) idle ≡ some (panic, idle)
unfolding handle_input handle_command eq_values
preview_without_flag = refl

-- Values as they are written to a file.
values_text : create_values_str (0 ∷ 105 ∷ 9 ∷ []) ≡ 48 ∷ 44 ∷ 49 ∷ 48 ∷ 53 ∷ 44 ∷ 57 ∷ []
unfolding create_values_str digits
values_text = refl
