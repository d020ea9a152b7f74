-- ===== src/Tests/Packets.antt =====
-- A data packet and a discovery packet, packed and parsed.
use sacn_rust.Packet.Universe.Addresses.{universe_of, universe_of-multicast_addr}
use sacn_rust.Packet.Universe.{
  SocketAddr, v4, v6, is_universe_in_range, universe_to_ipv4_multicast_addr,
  universe_to_ipv6_multicast_addr,
}
use sacn_rust.Packet.Acn.ShortLength.{parse_short_length}
use sacn_rust.Packet.Pdu.Header.{header, be32}
use sacn_rust.Common.{
  panic, inl, ℕ, ◌≤◌, ◌≡◌, refl, false, List, [], ◌∷◌, ◌++◌, arith, length, ok, err, replicate,
  ◌>>=◌, zero, suc,
}
use sacn_rust.Error.{sacn_parse_pack_error, source_name_not_null_terminated}
use sacn_rust.Packet.Name.{is_utf8, parse_source_name_str}
use sacn_rust.Packet.Name.Field.{NoZero, name_field, parse_source_name_str_full}
use sacn_rust.Packet.DataFraming.{DataPacketFramingLayer}
use sacn_rust.Packet.DataFraming.RoundTrip as DataTrip
use sacn_rust.Packet.Root.{data_packet}
use sacn_rust.Packet.Acn.{AcnRootLayerProtocol, len, parse, pack, pack_alloc}
use sacn_rust.Packet.Acn.RoundTrip.{preamble, encode, parse-pack, pack_alloc-encode, len-le}
use sacn_rust.Tests.Instances.{big_endian, uuid_crate, Uuid, uuid_of}

abbrev pub cid : Uuid
cid = uuid_of 7 (omega arith)

-- Three slots behind the start code, from a source named "desk".
abbrev pub data_layer : DataPacketFramingLayer
data_layer = record {
  source_name = 100 ∷ 101 ∷ 115 ∷ 107 ∷ [];
  priority = 100;
  synchronization_address = 0;
  sequence_number = 5;
  preview_data = false;
  stream_terminated = false;
  force_synchronization = false;
  universe = 1;
  dmp = record { property_values = 0 ∷ 255 ∷ 10 ∷ 20 ∷ [] };
}

pub data_layer-Fits : DataTrip.Fits data_layer
unfolding is_utf8
data_layer-Fits = record {
  values = omega arith;
  short_name = omega arith;
  no_zero = (omega arith, (omega arith, (omega arith, (omega arith, tt))));
  name_is_utf8 = refl;
  priority_limit = omega arith;
  sync_limit = omega arith;
  universe_low = omega arith;
  universe_high = omega arith;
}

abbrev packet : AcnRootLayerProtocol Uuid
packet = record { pdu = record { cid = cid; payload = data_packet data_layer } }

-- The buffer of the receiver.
abbrev buffer : List ℕ
buffer = replicate 1144 0

parse-pack_example : (pack packet buffer >>= parse) ≡ ok packet
parse-pack_example = parse-pack packet buffer data_layer-Fits (len-le packet data_layer-Fits)

pack_alloc-encode_example :
    (pack_alloc packet ≡ ok (encode packet)) × (length (encode packet) ≡ len packet)
pack_alloc-encode_example = pack_alloc-encode packet data_layer-Fits

len-le_example : len packet ≤ 1144
len-le_example = len-le packet data_layer-Fits

NoZero-replicate : (n : ℕ) → NoZero (replicate n 65)
NoZero-replicate zero = tt
NoZero-replicate (suc n) = (omega arith, NoZero-replicate n)

-- The name of sixty-four letters "A".
parse_source_name_str_full_example :
    parse_source_name_str {U = Uuid} (name_field (replicate 64 65))
    ≡ err (sacn_parse_pack_error source_name_not_null_terminated)
parse_source_name_str_full_example =
    parse_source_name_str_full {U = Uuid} (replicate 64 65) refl (NoZero-replicate 64)

-- A declared length of zero.
parse_short_length_example :
    parse {U = Uuid}
      (preamble ++ (header 0 ++ (be32 4 ++ (uuid_crate.as_bytes cid ++ replicate 100 0))))
    ≡ panic
parse_short_length_example = parse_short_length cid 0 4 (replicate 100 0) (omega arith) (inl refl)

-- The groups of universe 7962, 0x1f1a.
abbrev group_v4 : SocketAddr
group_v4 = v4 (239 ∷ 255 ∷ 31 ∷ 26 ∷ []) 5568

abbrev group_v6 : SocketAddr
group_v6 = v6 (0xff18 ∷ 0 ∷ 0 ∷ 0 ∷ 0 ∷ 0 ∷ 0x8300 ∷ 7962 ∷ []) 5568

groups :
    (universe_to_ipv4_multicast_addr {U = Uuid} 7962 ≡ ok group_v4)
    × (universe_to_ipv6_multicast_addr {U = Uuid} 7962 ≡ ok group_v6)
unfolding universe_to_ipv4_multicast_addr universe_to_ipv6_multicast_addr is_universe_in_range
groups = (refl, refl)

universe_of-multicast_addr_example : (universe_of group_v4 ≡ 7962) × (universe_of group_v6 ≡ 7962)
universe_of-multicast_addr_example =
    universe_of-multicast_addr {U = Uuid} 7962 group_v4 group_v6 (omega arith) (groups.0) (groups.1)
