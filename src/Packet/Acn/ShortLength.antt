-- ===== src/Packet/Acn/ShortLength.antt =====
-- A packet that makes the parser of src/packet.rs panic.
use sacn_rust.Common.{ℕ, ◌<◌, ◌≡◌, ◌⊎◌, false, List, ◌++◌, arith, tests, length, panic, ltb}
use sacn_rust.External.{NetworkEndian, UuidCrate}
use sacn_rust.Packet.Pdu.Header.{be32, header}
use sacn_rust.Packet.Root.ShortLength as RootShort
use sacn_rust.Packet.Acn.{parse, bytes_eq}
use sacn_rust.Packet.Acn.RoundTrip.{preamble}

module _ {U : Type 0} ⦃net : NetworkEndian⦄ ⦃crate : UuidCrate U⦄ where
  -- A packet that declares a root layer shorter than the 22 bytes of that layer's own fields, and
  -- is well formed up to there with a known vector, makes `parse` panic, whatever follows.
  pub parse_short_length :
      (cid : U) (n v : ℕ) (rest : List ℕ)
      → n < 22
      → (v ≡ 4) ⊎ (v ≡ 8)
      → parse {U = U} (preamble ++ (header n ++ (be32 v ++ (crate.as_bytes cid ++ rest)))) ≡ panic
  unfolding parse bytes_eq
  parse_short_length cid n v rest h known =
      let body : List ℕ = header n ++ (be32 v ++ (crate.as_bytes cid ++ rest)) in
      let enough : ltb (length (preamble ++ body)) 16 ≡ false = omega tests in
      rw (
        enough,
        net.read_u16_lem 0 16 (omega arith) (omega arith),
        net.read_u16_lem 0 0 (omega arith) (omega arith),
        RootShort.parse_short cid n v rest h known,
      )
