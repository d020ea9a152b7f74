-- ===== src/Packet/Dmp.antt =====
-- `DataPacketDmpLayer`: the DMX values of a data packet.
pub mod RoundTrip
use sacn_rust.Common.{
  ℕ, ◌+◌, ◌-◌, ◌%◌, ◌^◌, not, List, [], ◌∷◌, Outcome, ok, err, ◌>>=◌, ◌>>◌, refuse_if, ltb, ◌==◌,
  length,
}
use sacn_rust.Error.{
  SacnError, sacn_parse_pack_error, parse_insufficient_data, pdu_invalid_vector, parse_invalid_data,
  pack_invalid_data, pack_buffer_insufficient, text, formatted, Result,
}
use sacn_rust.External.{NetworkEndian}
use sacn_rust.Packet.Constants.{
  universe_channel_capacity, vector_dmp_set_property, e131_dmp_layer_address_data_field,
  e131_data_packet_dmp_layer_first_property_field, e131_data_packet_dmp_layer_address_increment,
  e131_pdu_length_flags_length,
}
use sacn_rust.Packet.Buffer.{slice, index, write_slice, write_index, copy_from_slice, zeros}
use sacn_rust.Packet.Pdu.{pdu_info, flags_and_length, write_u16_at}

pub record DataPacketDmpLayer : Type 0 where
  pub property_values : List ℕ

abbrev pub vector_field_index : ℕ
vector_field_index = e131_pdu_length_flags_length

abbrev pub address_data_field_index : ℕ
address_data_field_index = vector_field_index + 1

abbrev pub first_priority_field_index : ℕ
first_priority_field_index = address_data_field_index + 1

abbrev pub address_increment_field_index : ℕ
address_increment_field_index = first_priority_field_index + 2

abbrev pub property_value_count_field_index : ℕ
property_value_count_field_index = address_increment_field_index + 2

abbrev pub property_values_field_index : ℕ
property_values_field_index = property_value_count_field_index + 2

unfoldable pub len : DataPacketDmpLayer → ℕ
len self = 2 + 1 + 1 + 2 + 2 + 2 + length self.property_values

module _ {U : Type 0} ⦃net : NetworkEndian⦄ where
  unfoldable pub parse : List ℕ → Result U DataPacketDmpLayer
  unfolding slice index
  parse buf = do
    info ← pdu_info buf 1
    refuse_if (ltb (length buf) info.length) (
        sacn_parse_pack_error (
          parse_insufficient_data (
            text
              "Buffer contains insufficient data based on data packet dmp layer pdu length field")))
    refuse_if (not (info.vector == vector_dmp_set_property))
        (sacn_parse_pack_error (pdu_invalid_vector info.vector))
    address_data ← index buf address_data_field_index
    refuse_if (not (address_data == e131_dmp_layer_address_data_field))
        (sacn_parse_pack_error (parse_invalid_data (text "invalid Address and Data Type")))
    first_property ← slice buf first_priority_field_index address_increment_field_index
    refuse_if (not (net.read_u16 first_property == e131_data_packet_dmp_layer_first_property_field))
        (sacn_parse_pack_error (parse_invalid_data (text "invalid First Property Address")))
    increment ← slice buf address_increment_field_index property_value_count_field_index
    refuse_if (not (net.read_u16 increment == e131_data_packet_dmp_layer_address_increment))
        (sacn_parse_pack_error (parse_invalid_data (text "invalid Address Increment")))
    count ← slice buf property_value_count_field_index property_values_field_index
    let property_value_count = net.read_u16 count
    refuse_if (not (property_value_count + property_values_field_index == info.length)) (
        sacn_parse_pack_error (
          parse_insufficient_data (
            formatted
              "Invalid data packet dmp layer property value count, pdu length indicates {} property values, property value count field indicates {} property values"
              (info.length ∷ property_value_count ∷ []))))
    let property_values_length = info.length - property_values_field_index
    refuse_if (ltb universe_channel_capacity property_values_length)
        (sacn_parse_pack_error (parse_invalid_data (text "only 512 DMX slots allowed")))
    property_values ← slice buf property_values_field_index info.length
    ok (record { property_values = property_values })

  unfoldable pub pack : DataPacketDmpLayer → List ℕ → Result U (List ℕ)
  pack self buf₀ = do
    refuse_if (ltb universe_channel_capacity (length self.property_values))
        (sacn_parse_pack_error (pack_invalid_data (text "only 512 DMX values allowed")))
    refuse_if (ltb (length buf₀) (len self)) (
        sacn_parse_pack_error
          (pack_buffer_insufficient (text "DataPacketDmpLayer pack buffer length insufficient")))
    buf₁ ← write_u16_at buf₀ 0 e131_pdu_length_flags_length (flags_and_length (len self))
    buf₂ ← write_index buf₁ vector_field_index vector_dmp_set_property
    buf₃ ← write_index buf₂ address_data_field_index e131_dmp_layer_address_data_field
    buf₄ ←
        write_slice buf₃ first_priority_field_index address_increment_field_index
          (λ old. ok (zeros old 2))
    buf₅ ←
        write_u16_at buf₄ address_increment_field_index property_value_count_field_index
          e131_data_packet_dmp_layer_address_increment
    buf₆ ←
        write_u16_at buf₅ property_value_count_field_index property_values_field_index
          (length self.property_values % 2 ^ 16)
    write_slice buf₆ property_values_field_index
        (property_values_field_index + length self.property_values)
        (λ old. copy_from_slice old self.property_values)
