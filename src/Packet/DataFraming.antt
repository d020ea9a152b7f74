-- ===== src/Packet/DataFraming.antt =====
-- `DataPacketFramingLayer`.
pub mod Options
pub mod RoundTrip
use sacn_rust.Common.{
  ℕ, ◌+◌, not, Bool, true, false, List, Outcome, ok, err, ◌>>=◌, ◌>>◌, refuse_if, if◌then◌else◌,
  ltb, ◌==◌, length, bit_and, bit_or,
}
use sacn_rust.Error.{
  SacnError, sacn_parse_pack_error, parse_insufficient_data, pdu_invalid_vector,
  parse_invalid_priority, parse_invalid_sync_addr, parse_invalid_universe, pack_buffer_insufficient,
  text, Result,
}
use sacn_rust.External.{NetworkEndian}
use sacn_rust.Packet.Constants.{
  e131_pdu_length_flags_length, e131_framing_layer_vector_length, vector_e131_data_packet,
  e131_min_multicast_universe, e131_max_multicast_universe, e131_max_priority,
  e131_source_name_field_length, e131_preview_data_option_bit_mask,
  e131_stream_termination_option_bit_mask, e131_force_synchronisation_option_bit_mask,
}
use sacn_rust.Packet.Buffer.{slice, index, write_slice, write_from, write_index, zeros}
use sacn_rust.Packet.Universe.{contains}
use sacn_rust.Packet.Name.{parse_source_name_str, write_source_name}
use sacn_rust.Packet.Pdu.{pdu_info, flags_and_length, write_u16_at, write_u32_at}
use sacn_rust.Packet.Dmp.{DataPacketDmpLayer}
use sacn_rust.Packet.Dmp

-- The field `data` of the source is `dmp` here.
pub record DataPacketFramingLayer : Type 0 where
  pub source_name : List ℕ
  pub priority : ℕ
  pub synchronization_address : ℕ
  pub sequence_number : ℕ
  pub preview_data : Bool
  pub stream_terminated : Bool
  pub force_synchronization : Bool
  pub universe : ℕ
  pub dmp : DataPacketDmpLayer

abbrev pub source_name_index : ℕ
source_name_index = e131_pdu_length_flags_length + e131_framing_layer_vector_length

abbrev pub priority_index : ℕ
priority_index = source_name_index + e131_source_name_field_length

abbrev pub sync_addr_index : ℕ
sync_addr_index = priority_index + 1

abbrev pub seq_num_index : ℕ
seq_num_index = sync_addr_index + 2

abbrev pub options_field_index : ℕ
options_field_index = seq_num_index + 1

abbrev pub universe_index : ℕ
universe_index = options_field_index + 1

abbrev pub data_index : ℕ
data_index = universe_index + 2

unfoldable pub len : DataPacketFramingLayer → ℕ
len self = 2 + 4 + 64 + 1 + 2 + 1 + 1 + 2 + Dmp.len self.dmp

module _ {E : Type 0} where
  -- `if option { buf[i] |= mask; }`
  unfoldable pub set_option : Bool → List ℕ → ℕ → ℕ → Outcome E (List ℕ)
  unfolding index write_index
  set_option true buf i mask = do old ← index buf i; write_index buf i (bit_or old mask)
  set_option false buf i mask = ok buf

  -- The writes of `pack` to the options field, which stands at the index `i`.
  unfoldable pub write_options : Bool → Bool → Bool → List ℕ → ℕ → Outcome E (List ℕ)
  unfolding set_option
  write_options preview terminated force buf₀ i = do
    buf₁ ← write_index buf₀ i 0
    buf₂ ← (if preview then write_index buf₁ i e131_preview_data_option_bit_mask else ok buf₁)
    buf₃ ← set_option terminated buf₂ i e131_stream_termination_option_bit_mask
    set_option force buf₃ i e131_force_synchronisation_option_bit_mask

module _ {U : Type 0} ⦃net : NetworkEndian⦄ where
  unfoldable pub parse : List ℕ → Result U DataPacketFramingLayer
  unfolding slice index
  parse buf = do
    info ← pdu_info buf e131_framing_layer_vector_length
    refuse_if (ltb (length buf) info.length) (
        sacn_parse_pack_error (
          parse_insufficient_data (
            text
              "Buffer contains insufficient data based on data packet framing layer pdu length field")))
    refuse_if (not (info.vector == vector_e131_data_packet))
        (sacn_parse_pack_error (pdu_invalid_vector info.vector))
    name_bytes ← slice buf source_name_index priority_index
    source_name ← parse_source_name_str name_bytes
    priority ← index buf priority_index
    refuse_if (ltb e131_max_priority priority)
        (sacn_parse_pack_error (parse_invalid_priority priority))
    address ← slice buf sync_addr_index seq_num_index
    let synchronization_address = net.read_u16 address
    refuse_if (ltb e131_max_multicast_universe synchronization_address)
        (sacn_parse_pack_error (parse_invalid_sync_addr synchronization_address))
    sequence_number ← index buf seq_num_index
    options ← index buf options_field_index
    let preview_data = not (bit_and options e131_preview_data_option_bit_mask == 0)
    let stream_terminated = not (bit_and options e131_stream_termination_option_bit_mask == 0)
    let force_synchronization =
        not (bit_and options e131_force_synchronisation_option_bit_mask == 0)
    universe_bytes ← slice buf universe_index data_index
    let universe = net.read_u16 universe_bytes
    refuse_if (not (contains e131_min_multicast_universe e131_max_multicast_universe universe))
        (sacn_parse_pack_error (parse_invalid_universe universe))
    rest ← slice buf data_index info.length
    dmp ← Dmp.parse rest
    ok (record {
      source_name = source_name;
      priority = priority;
      synchronization_address = synchronization_address;
      sequence_number = sequence_number;
      preview_data = preview_data;
      stream_terminated = stream_terminated;
      force_synchronization = force_synchronization;
      universe = universe;
      dmp = dmp;
    })

  unfoldable pub pack : DataPacketFramingLayer → List ℕ → Result U (List ℕ)
  pack self buf₀ = do
    refuse_if (ltb (length buf₀) (len self))
        (sacn_parse_pack_error (pack_buffer_insufficient (text "")))
    buf₁ ← write_u16_at buf₀ 0 e131_pdu_length_flags_length (flags_and_length (len self))
    buf₂ ← write_u32_at buf₁ e131_pdu_length_flags_length source_name_index vector_e131_data_packet
    buf₃ ← write_source_name buf₂ source_name_index priority_index self.source_name
    buf₄ ← write_index buf₃ priority_index self.priority
    buf₅ ← write_u16_at buf₄ sync_addr_index seq_num_index self.synchronization_address
    buf₆ ← write_index buf₅ seq_num_index self.sequence_number
    buf₇ ←
        write_options self.preview_data self.stream_terminated self.force_synchronization buf₆
          options_field_index
    buf₈ ← write_u16_at buf₇ universe_index data_index self.universe
    write_from buf₈ data_index (Dmp.pack self.dmp)
