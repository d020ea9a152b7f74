-- ===== src/Packet/Root/ShortLength.antt =====
-- A root layer whose length field is smaller than its own fields: src/packet.rs slices backwards.
use sacn_rust.Common.{
  ℕ, ◌<◌, ◌≡◌, ◌⊎◌, inl, inr, refl, ◌∙◌, false, not, ◌&&◌, ◌==◌, List, ◌++◌, arith, tests, length,
  panic, ok, ltb, length-append,
}
use sacn_rust.Error.{SacnError}
use sacn_rust.External.{NetworkEndian, UuidCrate}
use sacn_rust.Packet.Buffer.{slice}
use sacn_rust.Packet.Buffer.Slices.{slice_middle, slice_reversed}
use sacn_rust.Packet.Pdu.Header.{be32, header, pdu_info-header}
use sacn_rust.Packet.Root.{parse, parse_payload}
use sacn_rust.Packet.Root.RoundTrip.{read_cid-as_bytes}

module _ {U : Type 0} ⦃net : NetworkEndian⦄ where
  parse_payload_short :
      (buf : List ℕ) (n v : ℕ) → n < 22 → (v ≡ 4) ⊎ (v ≡ 8) → parse_payload {U = U} buf n v ≡ panic
  unfolding parse_payload
  parse_payload_short buf n v h (inl e) =
      let E = SacnError U in rw (e, slice_reversed {E = E} buf 22 n h)
  parse_payload_short buf n v h (inr e) =
      let E = SacnError U in rw (e, slice_reversed {E = E} buf 22 n h)

module _ {U : Type 0} ⦃net : NetworkEndian⦄ ⦃crate : UuidCrate U⦄ where
  pub parse_short :
      (cid : U) (n v : ℕ) (rest : List ℕ)
      → n < 22
      → (v ≡ 4) ⊎ (v ≡ 8)
      → parse {U = U} (header n ++ (be32 v ++ (crate.as_bytes cid ++ rest))) ≡ panic
  unfolding parse
  parse_short cid n v rest h known =
      let E = SacnError U in
      let bytes = crate.as_bytes cid in
      let lc = crate.length-as_bytes cid in
      let front : List ℕ = header n ++ be32 v in
      let body : List ℕ = be32 v ++ (bytes ++ rest) in
      let vector : net.read_uint body 4 ≡ v =
        net.read_uint_four _ _ _ _ _ (omega arith) ∙ omega arith in
      let info =
        pdu_info-header {U = U} n v 4 body (omega arith) (omega arith) vector (omega arith) in
      let fits : ltb (length (header n ++ body)) n ≡ false =
        omega (tests, length-append bytes rest) in
      let allowed : (not (v == 4) && not (v == 8)) ≡ false = ground arith in
      let cid_bytes : slice {E = E} (front ++ (bytes ++ rest)) 6 22 ≡ ok bytes =
        slice_middle front bytes rest 6 22 refl (omega arith) in
      rw (
        info,
        fits,
        allowed,
        cid_bytes,
        read_cid-as_bytes cid,
        parse_payload_short {U = U} (front ++ (bytes ++ rest)) n v h known,
      )
