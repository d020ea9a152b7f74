-- ===== src/Error.antt =====
-- The errors of src/error.rs and src/sacn_parse_pack_error.rs.
--
-- A message is its literal text; a message made by `format!` is its template with the numbers put
-- into it. Two payloads that no code of the library looks into are left out: the position inside a
-- `Utf8Error`, and the `uuid::Error`.
use Prim.Native.String.{String}
use sacn_rust.Common.{ℕ, List, Outcome}
use sacn_rust.Common.Int.{ℤ}

pub data Message : Type 0 where
  text : String → Message
  formatted : String → List ℕ → Message

pub data ParsePacketError : Type 0 where
  parse_invalid_data : Message → ParsePacketError
  parse_invalid_priority : ℕ → ParsePacketError
  parse_invalid_page : Message → ParsePacketError
  parse_invalid_sync_addr : ℕ → ParsePacketError
  parse_invalid_universe : ℕ → ParsePacketError
  parse_invalid_universe_order : Message → ParsePacketError
  pack_invalid_data : Message → ParsePacketError
  pack_buffer_insufficient : Message → ParsePacketError
  parse_insufficient_data : Message → ParsePacketError
  parse_pdu_invalid_flags : ℕ → ParsePacketError
  pdu_invalid_length : ℕ → ParsePacketError
  pdu_invalid_vector : ℕ → ParsePacketError
  uuid_error : ParsePacketError
  utf8_error : Message → ParsePacketError
  source_name_not_null_terminated : ParsePacketError

-- The kinds of `std::io::Error` that the library tells apart.
pub data IoErrorKind : Type 0 where
  would_block timed_out other_kind : IoErrorKind

-- `U` is the type of UUIDs. A discovered source is named by the bytes of its name.
pub data SacnError (U : Type 0) : Type 0 where
  io : IoErrorKind → SacnError U
  str : SacnError U
  uuid : SacnError U
  too_many_bytes_read : ℕ → ℕ → SacnError U
  sacn_parse_pack_error : ParsePacketError → SacnError U
  malformed_source_name : Message → SacnError U
  invalid_priority : ℕ → SacnError U
  sources_exceeded_error : ℕ → SacnError U
  source_discovered : List ℕ → SacnError U
  exceed_universe_capacity : ℕ → SacnError U
  illegal_universe : ℕ → SacnError U
  illegal_sync_universe : ℕ → SacnError U
  universe_not_registered : ℕ → SacnError U
  ip_version_error : SacnError U
  unsupported_ip_version : Message → SacnError U
  sender_already_terminated : Message → SacnError U
  dmx_merge_error : SacnError U
  out_of_sequence : ℕ → ℕ → ℤ → SacnError U
  universe_terminated : U → ℕ → SacnError U
  universe_timeout : U → ℕ → SacnError U
  universe_not_found : ℕ → SacnError U
  source_not_found : U → SacnError U
  os_operation_unsupported : Message → SacnError U
  source_corrupt : Message → SacnError U
  data_array_empty : SacnError U
  universe_list_empty : SacnError U
  source_limit_zero : SacnError U
  no_data_universes_registered : SacnError U

-- `errors::Result`, with the panics of the code beside its errors.
abbrev pub Result : Type 0 → Type 0 → Type 0
Result U A = Outcome (SacnError U) A
