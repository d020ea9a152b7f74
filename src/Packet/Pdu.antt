-- ===== src/Packet/Pdu.antt =====
-- The flags, length and vector at the head of every layer: `pdu_info`, and how layers write them.
pub mod Header
use sacn_rust.Common.{
  ℕ, ◌+◌, ◌/◌, ◌%◌, ◌^◌, not, List, [], ◌∷◌, Outcome, ok, ◌>>=◌, ◌>>◌, refuse_if, ltb, ◌==◌,
  bit_and, bit_or,
}
use sacn_rust.Common
use sacn_rust.Error.{
  SacnError, sacn_parse_pack_error, ParsePacketError, parse_insufficient_data,
  parse_pdu_invalid_flags, text, Result,
}
use sacn_rust.External.{NetworkEndian}
use sacn_rust.Packet.Constants.{e131_pdu_length_flags_length, e131_pdu_flags}
use sacn_rust.Packet.Buffer.{slice, slice_from, index, write_slice}

pub record PduInfo : Type 0 where
  pub length : ℕ
  pub vector : ℕ

module _ {U : Type 0} ⦃net : NetworkEndian⦄ where
  unfoldable pub pdu_info : List ℕ → ℕ → Result U PduInfo
  unfolding slice slice_from index
  pdu_info buf vector_length = do
    refuse_if (ltb (Common.length buf) (e131_pdu_length_flags_length + vector_length)) (
        sacn_parse_pack_error (
          parse_insufficient_data
            (text "Insufficient data when parsing pdu_info, no flags or length field")))
    first ← index buf 0
    let flags = bit_and first 0xf0
    refuse_if (not (flags == e131_pdu_flags))
        (sacn_parse_pack_error (parse_pdu_invalid_flags flags))
    word ← slice buf 0 e131_pdu_length_flags_length
    let length = bit_and (net.read_u16 word) 0x0fff
    rest ← slice_from buf e131_pdu_length_flags_length
    let vector = net.read_uint rest vector_length % 2 ^ 32
    ok (record { length = length; vector = vector })

-- `NetworkEndian::read_u16(&[E131_PDU_FLAGS, 0x0]) | (len as u16) & 0x0fff`
unfoldable pub flags_and_length : ⦃net : NetworkEndian⦄ → ℕ → ℕ
flags_and_length ⦃net⦄ len =
    bit_or (net.read_u16 (e131_pdu_flags ∷ 0x0 ∷ [])) (bit_and (len % 2 ^ 16) 0x0fff)

-- `NetworkEndian::write_u16(&mut buf[a .. b], n)`, and the same for `write_u32`.
module _ {E : Type 0} ⦃net : NetworkEndian⦄ where
  unfoldable pub write_u16_at : List ℕ → ℕ → ℕ → ℕ → Outcome E (List ℕ)
  unfolding write_slice
  write_u16_at buf a b n = write_slice buf a b (λ old. ok (net.write_u16 old n))

  unfoldable pub write_u32_at : List ℕ → ℕ → ℕ → ℕ → Outcome E (List ℕ)
  unfolding write_slice
  write_u32_at buf a b n = write_slice buf a b (λ old. ok (net.write_u32 old n))
