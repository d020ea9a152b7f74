-- ===== src/DemoSrc/Commands.antt =====
-- The commands of the demo source (examples/demo_src/src/main.rs) and `handle_input`, which reads a
-- line and does what it says. What is printed is left out.
use sacn_rust.Common.{
  ℕ, ◌-◌, ◌==◌, ltb, Bool, true, Option, none, some, List, [], ◌∷◌, ◌++◌, Outcome, ok, err, panic,
  length, drop, replicate, if◌then◌else◌,
}
use sacn_rust.Error.{Message, text}
use sacn_rust.External.{UuidCrate, NetworkEndian}
use sacn_rust.Packet.Constants.{acn_sdt_multicast_port}
use sacn_rust.Packet.Universe.{v4}
use sacn_rust.Source.{SendCalls}
use sacn_rust.Source.Handle.{send}
use sacn_rust.DemoSrc.Input.{Word, parse_ipv4, word_at, unwrap, number_at, parse_all}
use sacn_rust.DemoSrc.Program.{invalid_input, Command, on_source, pure, ◌>>=◌, ◌>>◌}
use sacn_rust.DemoSrc.Presets.{all_of}

-- The maxima of `u8`, `u16` and `u64`; a `usize` has 64 bits.
abbrev pub max_u8 : ℕ
max_u8 = 255

abbrev pub max_u16 : ℕ
max_u16 = 65535

abbrev pub max_u64 : ℕ
max_u64 = 18446744073709551615

-- `sync_uni` as `send` takes it: zero is no synchronisation.
abbrev pub sync_addr_of : ℕ → Option ℕ
sync_addr_of sync_uni = if sync_uni == 0 then none else some sync_uni

-- The array of 513 bytes with the values in front, or a panic if there are more.
abbrev pub full_data : {E : Type 0} → List ℕ → Outcome E (List ℕ)
full_data values =
    if ltb 513 (length values) then panic else ok (values ++ replicate (513 - length values) 0)

module _ {W S U : Type 0} where
  -- The checks of the number of words, and `Ok(true)`.
  abbrev pub need : ℕ → Message → List Word → Command W S U (Unit {0})
  need n message words =
      if ltb (length words) n then pure (err (invalid_input message)) else pure (ok tt)

  abbrev pub and_continue : Command W S U (Unit {0}) → Command W S U Bool
  and_continue m = m >> pure (ok true)

module _ {W S U : Type 0} ⦃net : NetworkEndian⦄ ⦃crate : UuidCrate U⦄ ⦃calls : SendCalls S⦄ where
  unfoldable pub handle_full_data_option : List Word → Command W S U Bool
  handle_full_data_option words =
      need 4 (text "Insufficient parts for data line ( < 4 )") words
      >> (pure (number_at max_u16 1 words) >>= λ universe.
          pure (number_at max_u16 2 words) >>= λ sync_uni.
          pure (number_at max_u8 3 words) >>= λ priority.
          pure (parse_all max_u8 (drop 4 words)) >>= λ values. pure (full_data values) >>= λ full.
          and_continue
            (on_source (send (universe ∷ []) full (some priority) none (sync_addr_of sync_uni))))

  unfoldable pub handle_all_data_option : List Word → Command W S U Bool
  handle_all_data_option words =
      need 3 (text "Insufficient parts for data line ( < 3 )") words
      >> (pure (number_at max_u16 1 words) >>= λ universe.
          pure (number_at max_u8 2 words) >>= λ value.
          and_continue (on_source (send (universe ∷ []) (all_of value) none none none)))

  unfoldable pub handle_data_option : List Word → Command W S U Bool
  handle_data_option words = pure (number_at max_u16 1 words) >>= λ universe.
      need 4 (text "Insufficient parts for data line ( < 3 )") words
      >> (pure (number_at max_u16 2 words) >>= λ sync_uni.
          pure (number_at max_u8 3 words) >>= λ priority.
          pure (parse_all max_u8 (drop 4 words)) >>= λ values.
          and_continue
            (on_source (send (universe ∷ []) values (some priority) none (sync_addr_of sync_uni))))

  unfoldable pub handle_unicast_option : List Word → Command W S U Bool
  handle_unicast_option words = pure (number_at max_u16 1 words) >>= λ universe.
      need 5 (text "Insufficient parts for data line ( < 5 )") words
      >> (pure (number_at max_u16 2 words) >>= λ sync_uni.
          pure (number_at max_u8 3 words) >>= λ priority. pure (word_at 4 words) >>= λ dst_ip.
          pure (parse_all max_u8 (drop 5 words)) >>= λ values.
          pure (unwrap (parse_ipv4 dst_ip)) >>= λ ip. and_continue (
            on_source (
              send (universe ∷ []) values (some priority) (some (v4 ip acn_sdt_multicast_port))
                (sync_addr_of sync_uni))))
