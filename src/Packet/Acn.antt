-- ===== src/Packet/Acn.antt =====
-- `AcnRootLayerProtocol`: the whole packet.
pub mod RoundTrip
pub mod ShortLength
use sacn_rust.Common.{
  ℕ, ◌+◌, not, Bool, true, false, ◌&&◌, List, [], ◌∷◌, ok, ◌>>=◌, ◌>>◌, refuse_if, ltb, ◌==◌,
  length, replicate,
}
use sacn_rust.Error.{
  SacnError, sacn_parse_pack_error, parse_insufficient_data, parse_invalid_data, text, Result,
}
use sacn_rust.External.{NetworkEndian, UuidCrate}
use sacn_rust.Packet.Constants.{e131_preamble_size, e131_postamble_size, e131_acn_packet_identifier}
use sacn_rust.Packet.Buffer.{slice, slice_from, write_slice, write_from, copy_from_slice, zeros}
use sacn_rust.Packet.Pdu.{write_u16_at}
use sacn_rust.Packet.Root.{E131RootLayer}
use sacn_rust.Packet.Root

pub record AcnRootLayerProtocol (U : Type 0) : Type 0 where
  pub pdu : E131RootLayer U

-- `==` on byte slices.
unfoldable pub bytes_eq : List ℕ → List ℕ → Bool
bytes_eq [] [] = true
bytes_eq [] (y ∷ ys) = false
bytes_eq (x ∷ xs) [] = false
bytes_eq (x ∷ xs) (y ∷ ys) = x == y && bytes_eq xs ys

module _ {U : Type 0} where
  unfoldable pub len : AcnRootLayerProtocol U → ℕ
  len self = 2 + 2 + length e131_acn_packet_identifier + Root.len self.pdu

module _ {U : Type 0} ⦃net : NetworkEndian⦄ ⦃crate : UuidCrate U⦄ where
  unfoldable pub parse : List ℕ → Result U (AcnRootLayerProtocol U)
  unfolding slice slice_from
  parse buf = do
    refuse_if (ltb (length buf) e131_preamble_size) (
        sacn_parse_pack_error
          (parse_insufficient_data (text "Insufficient data for ACN root layer preamble")))
    preamble ← slice buf 0 2
    refuse_if (not (net.read_u16 preamble == e131_preamble_size))
        (sacn_parse_pack_error (parse_invalid_data (text "invalid Preamble Size")))
    postamble ← slice buf 2 4
    refuse_if (not (net.read_u16 postamble == e131_postamble_size))
        (sacn_parse_pack_error (parse_invalid_data (text "invalid Post-amble Size")))
    identifier ← slice buf 4 e131_preamble_size
    refuse_if (not (bytes_eq identifier e131_acn_packet_identifier))
        (sacn_parse_pack_error (parse_invalid_data (text "invalid ACN packet identifier")))
    block ← slice_from buf e131_preamble_size
    pdu ← Root.parse block
    ok (record { pdu = pdu })

  unfoldable pub pack : AcnRootLayerProtocol U → List ℕ → Result U (List ℕ)
  pack self buf₀ = do
    refuse_if (ltb (length buf₀) (len self))
        (sacn_parse_pack_error (parse_invalid_data (text "Invalid ACN packet identifier")))
    buf₁ ← write_u16_at buf₀ 0 2 0x0010
    buf₂ ← write_slice buf₁ 2 4 (λ old. ok (zeros old 2))
    buf₃ ← write_slice buf₂ 4 16 (λ old. copy_from_slice old e131_acn_packet_identifier)
    write_from buf₃ 16 (Root.pack self.pdu)

  -- The vector is cleared and grown with zeros to the length of the packet.
  unfoldable pub pack_vec : AcnRootLayerProtocol U → List ℕ → Result U (List ℕ)
  pack_vec self buf = pack self (replicate (len self) 0)

  unfoldable pub pack_alloc : AcnRootLayerProtocol U → Result U (List ℕ)
  unfolding pack_vec
  pack_alloc self = pack_vec self []
