-- ===== src/Packet/Constants.antt =====
-- The constants of src/packet.rs.
use sacn_rust.Common.{Bool, false}
use sacn_rust.Common.{ℕ, ◌+◌, List, [], ◌∷◌}
use sacn_rust.Common.Int.{ℤ, pos, negsuc}

abbrev pub discovery_uni_per_page : ℕ
discovery_uni_per_page = 512

abbrev pub e131_discovery_universe : ℕ
e131_discovery_universe = 64214

abbrev pub e131_default_priority : ℕ
e131_default_priority = 100

abbrev pub e131_max_priority : ℕ
e131_max_priority = 200

abbrev pub e131_max_multicast_universe : ℕ
e131_max_multicast_universe = 63999

abbrev pub e131_min_multicast_universe : ℕ
e131_min_multicast_universe = 1

abbrev pub e131_no_sync_addr : ℕ
e131_no_sync_addr = 0

abbrev pub e131_seq_diff_discard_lower_bound : ℤ
e131_seq_diff_discard_lower_bound = negsuc 19

abbrev pub e131_seq_diff_discard_upper_bound : ℤ
e131_seq_diff_discard_upper_bound = pos 0

abbrev pub e131_preview_data_option_bit_mask : ℕ
e131_preview_data_option_bit_mask = 0b1000_0000

abbrev pub e131_stream_termination_option_bit_mask : ℕ
e131_stream_termination_option_bit_mask = 0b0100_0000

abbrev pub e131_force_synchronisation_option_bit_mask : ℕ
e131_force_synchronisation_option_bit_mask = 0b0010_0000

abbrev pub e131_universe_discovery_layer_min_length : ℕ
e131_universe_discovery_layer_min_length = 8

abbrev pub e131_universe_discovery_layer_max_length : ℕ
e131_universe_discovery_layer_max_length = 1032

abbrev pub e131_universe_sync_packet_framing_layer_length : ℕ
e131_universe_sync_packet_framing_layer_length = 11

abbrev pub e131_universe_discovery_framing_layer_min_length : ℕ
e131_universe_discovery_framing_layer_min_length = 82

abbrev pub e131_terminate_stream_packet_count : ℕ
e131_terminate_stream_packet_count = 3

abbrev pub e131_pdu_length_flags_length : ℕ
e131_pdu_length_flags_length = 2

abbrev pub e131_pdu_flags : ℕ
e131_pdu_flags = 0x70

abbrev pub e131_root_layer_vector_length : ℕ
e131_root_layer_vector_length = 4

abbrev pub e131_framing_layer_vector_length : ℕ
e131_framing_layer_vector_length = 4

abbrev pub e131_dmp_layer_address_data_field : ℕ
e131_dmp_layer_address_data_field = 0xa1

abbrev pub e131_data_packet_dmp_layer_first_property_field : ℕ
e131_data_packet_dmp_layer_first_property_field = 0x0000

abbrev pub e131_data_packet_dmp_layer_address_increment : ℕ
e131_data_packet_dmp_layer_address_increment = 0x0001

abbrev pub e131_universe_field_length : ℕ
e131_universe_field_length = 2

abbrev pub e131_preamble_size : ℕ
e131_preamble_size = 0x0010

abbrev pub e131_postamble_size : ℕ
e131_postamble_size = 0x0

abbrev pub e131_acn_packet_identifier : List ℕ
e131_acn_packet_identifier =
    0x41 ∷ 0x53 ∷ 0x43 ∷ 0x2d ∷ 0x45 ∷ 0x31 ∷ 0x2e ∷ 0x31 ∷ 0x37 ∷ 0x00 ∷ 0x00 ∷ 0x00 ∷ []

abbrev pub e131_cid_field_length : ℕ
e131_cid_field_length = 16

abbrev pub e131_cid_end_index : ℕ
e131_cid_end_index =
    e131_pdu_length_flags_length + e131_root_layer_vector_length + e131_cid_field_length

abbrev pub e131_source_name_field_length : ℕ
e131_source_name_field_length = 64

abbrev pub starting_sequence_number : ℕ
starting_sequence_number = 0

abbrev pub vector_root_e131_data : ℕ
vector_root_e131_data = 0x0000_0004

abbrev pub vector_root_e131_extended : ℕ
vector_root_e131_extended = 0x0000_0008

abbrev pub vector_e131_extended_synchronization : ℕ
vector_e131_extended_synchronization = 0x0000_0001

abbrev pub vector_e131_extended_discovery : ℕ
vector_e131_extended_discovery = 0x0000_0002

abbrev pub vector_e131_data_packet : ℕ
vector_e131_data_packet = 0x0000_0002

abbrev pub vector_dmp_set_property : ℕ
vector_dmp_set_property = 0x02

abbrev pub vector_universe_discovery_universe_list : ℕ
vector_universe_discovery_universe_list = 0x0000_0001

abbrev pub acn_sdt_multicast_port : ℕ
acn_sdt_multicast_port = 5568

abbrev pub universe_channel_capacity : ℕ
universe_channel_capacity = 513

abbrev pub no_sync_universe : ℕ
no_sync_universe = 0

-- Durations are milliseconds.
abbrev pub e131_network_data_loss_timeout : ℕ
e131_network_data_loss_timeout = 2500

abbrev pub universe_discovery_source_timeout : ℕ
universe_discovery_source_timeout = e131_network_data_loss_timeout

abbrev pub e131_universe_discovery_interval : ℕ
e131_universe_discovery_interval = 10000

abbrev pub rcv_buf_default_size : ℕ
rcv_buf_default_size = 1144

abbrev pub process_preview_data_default : Bool
process_preview_data_default = false

abbrev pub announce_source_discovery_default : Bool
announce_source_discovery_default = false

abbrev pub announce_stream_termination_default : Bool
announce_stream_termination_default = false

abbrev pub announce_timeout_default : Bool
announce_timeout_default = false

abbrev pub default_terminate_start_code : ℕ
default_terminate_start_code = 0
