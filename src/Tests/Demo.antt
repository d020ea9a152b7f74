-- ===== src/Tests/Demo.antt =====
-- The demo source, on a clock that a reading moves on by one, with three lines of input.
use sacn_rust.DemoSrc.Acceptance.{gen_acceptance_test_step_1, set_at}
use sacn_rust.Common.{
  take, drop, replicate, ℕ, ◌+◌, ◌*◌, ◌/◌, ◌%◌, ◌≡◌, refl, none, some, List, [], ◌∷◌, Outcome,
  arith,
}
use sacn_rust.Receive.Listening.{IsOrdered}
use sacn_rust.DemoSrc.Input.{
  Ipv6Text, parse_unsigned, parse_digits, parse_ipv4, parse_octet, split_on,
}
use sacn_rust.DemoSrc.Program.{ClockCalls, Program, DemoError}
use sacn_rust.DemoSrc.Presets.{F64}
use sacn_rust.DemoSrc.Dispatch.{Line, words_of, main_loop}
use sacn_rust.DemoSrc.Ending.{Advances}
use sacn_rust.DemoSrc.Lines.{main_loop-returns}
use sacn_rust.Session.{Link, link}
use sacn_rust.Tests.Instances.{big_endian, uuid_crate, Uuid}
use sacn_rust.Tests.Threads.{handle, sender-IsOrdered}

instance abbrev counting_clock : ClockCalls ℕ
counting_clock = record { now = λ w. (w, w + 1); sleep = λ d w. w + d }

abbrev counting_advances : Advances ℕ
counting_advances = record {
  time = λ w. w;
  reading = λ w. omega arith;
  after_reading = λ w. omega arith;
  sleeping = λ d w. omega arith;
}

-- Whole numbers in place of floating point numbers, and no IPv6 addresses.
instance abbrev whole_numbers : F64 ℕ
whole_numbers = record {
  of_nat = λ n. n;
  add = λ a b. a + b;
  mul = λ a b. a * b;
  div = λ a b. a / b;
  sin = λ a. a % 2;
  to_u8 = λ a. a % 256;
}

instance abbrev no_ipv6 : Ipv6Text
no_ipv6 = record { parse_ipv6 = λ word. none; parse_socket_v6 = λ word. none }

abbrev demo : Program ℕ Link Uuid
demo = record { world = 0; source = handle }

-- `r 7`, `x 7 100 50` and `q 0`.
abbrev three_lines : List Line
three_lines =
    words_of ((114 ∷ []) ∷ (55 ∷ []) ∷ [])
    ∷ words_of ((120 ∷ []) ∷ (55 ∷ []) ∷ (49 ∷ 48 ∷ 48 ∷ []) ∷ (53 ∷ 48 ∷ []) ∷ [])
    ∷ words_of ((113 ∷ []) ∷ (48 ∷ []) ∷ [])
    ∷ []

main_loop-returns_example :
    (r : Outcome (DemoError Uuid) (Unit {0}) × Program ℕ Link Uuid) × (main_loop ℕ 1001 three_lines
        demo
      ≡ some r)
    × IsOrdered ((r.1).source).internal.universes
unfolding parse_unsigned parse_digits
main_loop-returns_example =
    main_loop-returns Link Uuid ℕ counting_advances 1000 three_lines demo
      (omega arith, (omega arith, (omega arith, tt))) sender-IsOrdered

-- Numbers and addresses: 65535, 65536, and 192.168.0.2.
parse_max : parse_unsigned 65535 (54 ∷ 53 ∷ 53 ∷ 51 ∷ 53 ∷ []) ≡ some 65535
unfolding parse_unsigned parse_digits
parse_max = refl

parse_too_large : parse_unsigned 65535 (54 ∷ 53 ∷ 53 ∷ 51 ∷ 54 ∷ []) ≡ none
unfolding parse_unsigned parse_digits
parse_too_large = refl

parse_address :
    parse_ipv4 (49 ∷ 57 ∷ 50 ∷ 46 ∷ 49 ∷ 54 ∷ 56 ∷ 46 ∷ 48 ∷ 46 ∷ 50 ∷ [])
    ≡ some (192 ∷ 168 ∷ 0 ∷ 2 ∷ [])
unfolding parse_ipv4 parse_octet split_on parse_digits
parse_address = refl

-- Step 1 of the acceptance test: the front lights are on, and so is the first back light.
front_lights :
    take 3 (drop 514 (gen_acceptance_test_step_1 (replicate 1026 0))) ≡ 255 ∷ 255 ∷ 255 ∷ []
unfolding gen_acceptance_test_step_1 set_at
front_lights = refl

back_light :
    take 16 (drop 1 (gen_acceptance_test_step_1 (replicate 1026 0)))
    ≡ 128 ∷ 0 ∷ 148 ∷ 114 ∷ 0 ∷ 0 ∷ 0 ∷ 0 ∷ 0 ∷ 0 ∷ 255 ∷ 0 ∷ 45 ∷ 91 ∷ 255 ∷ 255 ∷ []
unfolding gen_acceptance_test_step_1 set_at
back_light = refl
