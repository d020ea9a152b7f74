-- ===== src/Packet/DiscoveryFraming.antt =====
-- `UniverseDiscoveryPacketFramingLayer`.
pub mod RoundTrip
use sacn_rust.Common.{
  ℕ, ◌+◌, not, List, Outcome, ok, err, ◌>>=◌, ◌>>◌, refuse_if, ltb, ◌==◌, length,
}
use sacn_rust.Error.{
  SacnError, sacn_parse_pack_error, parse_insufficient_data, pdu_invalid_vector, pdu_invalid_length,
  pack_buffer_insufficient, text, Result,
}
use sacn_rust.External.{NetworkEndian}
use sacn_rust.Packet.Constants.{
  e131_pdu_length_flags_length, e131_framing_layer_vector_length, vector_e131_extended_discovery,
  e131_universe_discovery_framing_layer_min_length, e131_source_name_field_length,
}
use sacn_rust.Packet.Buffer.{slice, write_slice, write_from, zeros}
use sacn_rust.Packet.Name.{parse_source_name_str, write_source_name}
use sacn_rust.Packet.Pdu.{pdu_info, flags_and_length, write_u16_at, write_u32_at}
use sacn_rust.Packet.DiscoveryLayer.{UniverseDiscoveryPacketUniverseDiscoveryLayer}
use sacn_rust.Packet.DiscoveryLayer

-- The field `data` of the source is `layer` here.
pub record UniverseDiscoveryPacketFramingLayer : Type 0 where
  pub source_name : List ℕ
  pub layer : UniverseDiscoveryPacketUniverseDiscoveryLayer

abbrev pub vector_field_index : ℕ
vector_field_index = e131_pdu_length_flags_length

abbrev pub source_name_field_index : ℕ
source_name_field_index = vector_field_index + e131_framing_layer_vector_length

abbrev pub reserve_field_index : ℕ
reserve_field_index = source_name_field_index + e131_source_name_field_length

abbrev pub data_index : ℕ
data_index = reserve_field_index + 4

unfoldable pub len : UniverseDiscoveryPacketFramingLayer → ℕ
len self = 2 + 4 + 64 + 4 + DiscoveryLayer.len self.layer

module _ {U : Type 0} ⦃net : NetworkEndian⦄ where
  unfoldable pub parse : List ℕ → Result U UniverseDiscoveryPacketFramingLayer
  unfolding slice
  parse buf = do
    info ← pdu_info buf e131_framing_layer_vector_length
    refuse_if (ltb (length buf) info.length) (
        sacn_parse_pack_error (
          parse_insufficient_data (
            text
              "Buffer contains insufficient data based on universe discovery packet framing layer pdu length field")))
    refuse_if (not (info.vector == vector_e131_extended_discovery))
        (sacn_parse_pack_error (pdu_invalid_vector info.vector))
    refuse_if (ltb info.length e131_universe_discovery_framing_layer_min_length)
        (sacn_parse_pack_error (pdu_invalid_length info.length))
    name_bytes ← slice buf source_name_field_index reserve_field_index
    source_name ← parse_source_name_str name_bytes
    rest ← slice buf data_index info.length
    layer ← DiscoveryLayer.parse rest
    ok (record { source_name = source_name; layer = layer })

  unfoldable pub pack : UniverseDiscoveryPacketFramingLayer → List ℕ → Result U (List ℕ)
  pack self buf₀ = do
    refuse_if (ltb (length buf₀) (len self)) (
        sacn_parse_pack_error (
          pack_buffer_insufficient
            (text "UniverseDiscoveryPacketFramingLayer pack buffer length insufficient")))
    buf₁ ← write_u16_at buf₀ 0 vector_field_index (flags_and_length (len self))
    buf₂ ←
        write_u32_at buf₁ vector_field_index source_name_field_index vector_e131_extended_discovery
    buf₃ ← write_source_name buf₂ source_name_field_index reserve_field_index self.source_name
    buf₄ ← write_slice buf₃ reserve_field_index data_index (λ old. ok (zeros old 4))
    write_from buf₄ data_index (DiscoveryLayer.pack self.layer)
