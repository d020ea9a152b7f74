-- ===== src/Packet/Root.antt =====
-- `E131RootLayer`: the sender's CID and one of the three kinds of packet.
pub mod RoundTrip
pub mod ShortLength
use sacn_rust.Common.{
  ℕ, ◌+◌, not, ◌&&◌, Option, none, some, List, Outcome, ok, err, ◌>>=◌, ◌>>◌, refuse_if,
  if◌then◌else◌, ltb, ◌==◌, length,
}
use sacn_rust.Error.{
  SacnError, sacn_parse_pack_error, uuid, parse_insufficient_data, pdu_invalid_vector,
  pack_buffer_insufficient, text, Result,
}
use sacn_rust.External.{NetworkEndian, UuidCrate}
use sacn_rust.Packet.Constants.{
  e131_pdu_length_flags_length, e131_root_layer_vector_length, e131_framing_layer_vector_length,
  e131_cid_end_index, e131_cid_field_length, vector_root_e131_data, vector_root_e131_extended,
  vector_e131_extended_synchronization, vector_e131_extended_discovery,
}
use sacn_rust.Packet.Buffer.{slice, write_slice, write_from, copy_from_slice}
use sacn_rust.Packet.Pdu.{pdu_info, flags_and_length, write_u16_at, write_u32_at}
use sacn_rust.Packet.DataFraming.{DataPacketFramingLayer}
use sacn_rust.Packet.DataFraming
use sacn_rust.Packet.Sync.{SynchronizationPacketFramingLayer}
use sacn_rust.Packet.Sync
use sacn_rust.Packet.DiscoveryFraming.{UniverseDiscoveryPacketFramingLayer}
use sacn_rust.Packet.DiscoveryFraming

pub data E131RootLayerData : Type 0 where
  data_packet : DataPacketFramingLayer → E131RootLayerData
  synchronization_packet : SynchronizationPacketFramingLayer → E131RootLayerData
  universe_discovery_packet : UniverseDiscoveryPacketFramingLayer → E131RootLayerData

-- The field `data` of the source is `payload` here.
pub record E131RootLayer (U : Type 0) : Type 0 where
  pub cid : U
  pub payload : E131RootLayerData

unfoldable pub payload_len : E131RootLayerData → ℕ
payload_len (data_packet p) = DataFraming.len p
payload_len (synchronization_packet p) = Sync.len p
payload_len (universe_discovery_packet p) = DiscoveryFraming.len p

-- The vector that `pack` writes for each kind of packet.
unfoldable pub payload_vector : E131RootLayerData → ℕ
payload_vector (data_packet p) = vector_root_e131_data
payload_vector (synchronization_packet p) = vector_root_e131_extended
payload_vector (universe_discovery_packet p) = vector_root_e131_extended

module _ {U : Type 0} where
  unfoldable pub len : E131RootLayer U → ℕ
  len self = 2 + 4 + e131_cid_field_length + payload_len self.payload

  -- `Uuid::from_slice(..)?`
  unfoldable pub read_cid : ⦃crate : UuidCrate U⦄ → List ℕ → Result U U
  read_cid ⦃crate⦄ bytes = elim (crate.from_slice bytes) [ none ↦ err uuid | some cid ↦ ok cid ]

module _ {U : Type 0} ⦃net : NetworkEndian⦄ where
  -- The arm of `parse` for `VECTOR_ROOT_E131_EXTENDED`.
  unfoldable pub parse_extended : List ℕ → Result U E131RootLayerData
  parse_extended data_buf = do
    info ← pdu_info data_buf e131_framing_layer_vector_length
    refuse_if (ltb (length data_buf) info.length) (
        sacn_parse_pack_error (
          parse_insufficient_data (
            text "Buffer contains insufficient data based on E131 framing layer pdu length field")))
    if info.vector == vector_e131_extended_synchronization
        then (do p ← Sync.parse data_buf; ok (synchronization_packet p))
        else if info.vector == vector_e131_extended_discovery
        then (do p ← DiscoveryFraming.parse data_buf; ok (universe_discovery_packet p))
        else err (sacn_parse_pack_error (pdu_invalid_vector info.vector))

  -- The `match vector` of `parse`.
  unfoldable pub parse_payload : List ℕ → ℕ → ℕ → Result U E131RootLayerData
  unfolding slice
  parse_payload buf length vector =
      if vector == vector_root_e131_data
      then (do
        data_buf ← slice buf e131_cid_end_index length
        p ← DataFraming.parse data_buf
        ok (data_packet p))
      else if vector == vector_root_e131_extended
      then (do data_buf ← slice buf e131_cid_end_index length; parse_extended data_buf)
      else err (sacn_parse_pack_error (pdu_invalid_vector vector))

  unfoldable pub pack_payload : E131RootLayerData → List ℕ → Result U (List ℕ)
  pack_payload (data_packet p) buf = DataFraming.pack p buf
  pack_payload (synchronization_packet p) buf = Sync.pack p buf
  pack_payload (universe_discovery_packet p) buf = DiscoveryFraming.pack p buf

module _ {U : Type 0} ⦃net : NetworkEndian⦄ ⦃crate : UuidCrate U⦄ where
  unfoldable pub parse : List ℕ → Result U (E131RootLayer U)
  unfolding slice
  parse buf = do
    info ← pdu_info buf e131_root_layer_vector_length
    refuse_if (ltb (length buf) info.length) (
        sacn_parse_pack_error (
          parse_insufficient_data
            (text "Buffer contains insufficient data based on ACN root layer pdu length field")))
    refuse_if
        (not (info.vector == vector_root_e131_data)
          && not (info.vector == vector_root_e131_extended))
        (sacn_parse_pack_error (pdu_invalid_vector info.vector))
    cid_bytes ←
        slice buf (e131_pdu_length_flags_length + e131_root_layer_vector_length) e131_cid_end_index
    cid ← read_cid cid_bytes
    payload ← parse_payload buf info.length info.vector
    ok (record { cid = cid; payload = payload })

  unfoldable pub pack : E131RootLayer U → List ℕ → Result U (List ℕ)
  pack self buf₀ = do
    refuse_if (ltb (length buf₀) (len self))
        (sacn_parse_pack_error (pack_buffer_insufficient (text "")))
    buf₁ ← write_u16_at buf₀ 0 e131_pdu_length_flags_length (flags_and_length (len self))
    buf₂ ←
        write_u32_at buf₁ e131_pdu_length_flags_length
          (e131_pdu_length_flags_length + e131_root_layer_vector_length)
          (payload_vector self.payload)
    buf₃ ←
        write_slice buf₂ (e131_pdu_length_flags_length + e131_root_layer_vector_length)
          e131_cid_end_index (λ old. copy_from_slice old (crate.as_bytes self.cid))
    write_from buf₃ e131_cid_end_index (pack_payload self.payload)
