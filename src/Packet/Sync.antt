-- ===== src/Packet/Sync.antt =====
-- `SynchronizationPacketFramingLayer`.
pub mod RoundTrip
use sacn_rust.Common.{ℕ, ◌+◌, not, List, ok, ◌>>=◌, ◌>>◌, refuse_if, ltb, ◌==◌, length}
use sacn_rust.Error.{
  SacnError, sacn_parse_pack_error, parse_insufficient_data, pdu_invalid_vector, pdu_invalid_length,
  parse_invalid_sync_addr, pack_buffer_insufficient, text, Result,
}
use sacn_rust.External.{NetworkEndian}
use sacn_rust.Packet.Constants.{
  e131_pdu_length_flags_length, e131_framing_layer_vector_length,
  vector_e131_extended_synchronization, e131_universe_sync_packet_framing_layer_length,
  e131_min_multicast_universe, e131_max_multicast_universe,
}
use sacn_rust.Packet.Buffer.{slice, index, write_slice, write_index, zeros}
use sacn_rust.Packet.Universe.{contains}
use sacn_rust.Packet.Pdu.{pdu_info, flags_and_length, write_u16_at, write_u32_at}

pub record SynchronizationPacketFramingLayer : Type 0 where
  pub sequence_number : ℕ
  pub synchronization_address : ℕ

abbrev pub vector_field_index : ℕ
vector_field_index = e131_pdu_length_flags_length

abbrev pub seq_num_field_index : ℕ
seq_num_field_index = vector_field_index + e131_framing_layer_vector_length

abbrev pub sync_address_field_index : ℕ
sync_address_field_index = seq_num_field_index + 1

abbrev pub reserve_field_index : ℕ
reserve_field_index = sync_address_field_index + 2

abbrev pub end_index : ℕ
end_index = reserve_field_index + 2

unfoldable pub len : SynchronizationPacketFramingLayer → ℕ
len self = 2 + 4 + 1 + 2 + 2

module _ {U : Type 0} ⦃net : NetworkEndian⦄ where
  unfoldable pub parse : List ℕ → Result U SynchronizationPacketFramingLayer
  unfolding slice index
  parse buf = do
    info ← pdu_info buf e131_framing_layer_vector_length
    refuse_if (ltb (length buf) info.length) (
        sacn_parse_pack_error (
          parse_insufficient_data (
            text
              "Buffer contains insufficient data based on synchronisation packet framing layer pdu length field")))
    refuse_if (not (info.vector == vector_e131_extended_synchronization))
        (sacn_parse_pack_error (pdu_invalid_vector info.vector))
    refuse_if (not (info.length == e131_universe_sync_packet_framing_layer_length))
        (sacn_parse_pack_error (pdu_invalid_length info.length))
    sequence_number ← index buf seq_num_field_index
    address ← slice buf sync_address_field_index reserve_field_index
    let synchronization_address = net.read_u16 address
    refuse_if
        (not (
          contains e131_min_multicast_universe e131_max_multicast_universe synchronization_address))
        (sacn_parse_pack_error (parse_invalid_sync_addr synchronization_address))
    ok (record {
      sequence_number = sequence_number;
      synchronization_address = synchronization_address;
    })

  unfoldable pub pack : SynchronizationPacketFramingLayer → List ℕ → Result U (List ℕ)
  pack self buf₀ = do
    refuse_if (ltb (length buf₀) (len self)) (
        sacn_parse_pack_error (
          pack_buffer_insufficient
            (text "SynchronizationPacketFramingLayer pack buffer length insufficient")))
    buf₁ ← write_u16_at buf₀ 0 e131_pdu_length_flags_length (flags_and_length (len self))
    buf₂ ←
        write_u32_at buf₁ vector_field_index seq_num_field_index
          vector_e131_extended_synchronization
    buf₃ ← write_index buf₂ seq_num_field_index self.sequence_number
    buf₄ ←
        write_u16_at buf₃ sync_address_field_index reserve_field_index self.synchronization_address
    write_slice buf₄ reserve_field_index end_index (λ old. ok (zeros old 2))
