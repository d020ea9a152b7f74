-- ===== src/Packet/Root/RoundTrip.antt =====
-- The root layer: `pack` writes `encode`, and `parse` reads it back.
use sacn_rust.Common.{
  ℕ, ◌+◌, ◌≤◌, ◌<◌, ◌≡◌, refl, ap, ◌∙◌, not, ◌&&◌, false, ◌==◌, List, [], ◌∷◌, ◌++◌, arith, length,
  drop, ok, ltb, tests, append_assoc, append-nil, length-append, length-drop, drop-drop, bind_ok,
}
use sacn_rust.Error.{SacnError}
use sacn_rust.External.{NetworkEndian, UuidCrate}
use sacn_rust.Packet.Buffer.{slice}
use sacn_rust.Packet.Buffer.Slices.{slice_middle}
use sacn_rust.Packet.Buffer.Writes.{copy_at, write_from_step}
use sacn_rust.Packet.Name.Field.{name_field}
use sacn_rust.Packet.Pdu.Header.{be16, be32, header, pdu_info-header, write_header, write_u32_step}
use sacn_rust.Packet.DataFraming.RoundTrip as DataTrip
use sacn_rust.Packet.Sync
use sacn_rust.Packet.Sync.{SynchronizationPacketFramingLayer}
use sacn_rust.Packet.DiscoveryFraming.{UniverseDiscoveryPacketFramingLayer}
use sacn_rust.Packet.Sync.RoundTrip as SyncTrip
use sacn_rust.Packet.DiscoveryFraming
use sacn_rust.Packet.DiscoveryFraming.RoundTrip as DiscoveryTrip
use sacn_rust.Packet.DiscoveryLayer.RoundTrip as LayerTrip
use sacn_rust.Packet.Root.{
  E131RootLayerData, data_packet, synchronization_packet, universe_discovery_packet, E131RootLayer,
  payload_len, payload_vector, len, read_cid, parse_extended, parse_payload, pack_payload, parse,
  pack,
}

abbrev pub PayloadFits : E131RootLayerData → Type 0
PayloadFits (data_packet p) = DataTrip.Fits p
PayloadFits (synchronization_packet p) = SyncTrip.Fits p
PayloadFits (universe_discovery_packet p) = DiscoveryTrip.Fits p

abbrev pub encode_payload : E131RootLayerData → List ℕ
encode_payload (data_packet p) = DataTrip.encode p
encode_payload (synchronization_packet p) = SyncTrip.encode p
encode_payload (universe_discovery_packet p) = DiscoveryTrip.encode p

-- Every payload that fits is shorter than the twelve bits of a length allow.
payload_bounds :
    (d : E131RootLayerData)
    → PayloadFits d
    → (length (encode_payload d) ≡ payload_len d) × (payload_len d ≤ 1106)
unfolding payload_len Sync.len
payload_bounds (data_packet p) h =
    let values : length p.dmp.property_values ≤ 513 = h.values in
    omega (arith, DataTrip.length-encode p h, DataTrip.len_lem p)
payload_bounds (synchronization_packet p) h = (refl, omega arith)
payload_bounds (universe_discovery_packet p) h =
    let universes : length p.layer.universes ≤ 512 = h.layer_fits.page_limit in
    omega (arith, DiscoveryTrip.length-encode p h, DiscoveryTrip.len_lem p)

module _ {U : Type 0} ⦃net : NetworkEndian⦄ where
  pub pack_payload-encode :
      (d : E131RootLayerData) (buf : List ℕ)
      → PayloadFits d
      → payload_len d ≤ length buf
      → pack_payload {U = U} d buf ≡ ok (encode_payload d ++ drop (payload_len d) buf)
  unfolding pack_payload payload_len Sync.len
  pack_payload-encode (data_packet p) buf h k = DataTrip.pack-encode p buf h k
  pack_payload-encode (synchronization_packet p) buf h k = SyncTrip.pack-encode p buf h k
  pack_payload-encode (universe_discovery_packet p) buf h k = DiscoveryTrip.pack-encode p buf h k

  parse_extended-sync :
      (p : SynchronizationPacketFramingLayer)
      → SyncTrip.Fits p
      → parse_extended {U = U} (SyncTrip.encode p) ≡ ok (synchronization_packet p)
  unfolding parse_extended
  parse_extended-sync p h =
      let body : List ℕ =
        be32 1 ++ (p.sequence_number ∷ (be16 p.synchronization_address ++ (0 ∷ 0 ∷ []))) in
      let info =
        pdu_info-header {U = U} 11 1 4 body (omega arith) (omega arith)
          (net.read_uint_four 0 0 0 1 _ (omega arith)) (omega arith) in
      rw (info, SyncTrip.parse-encode {U = U} p [] h)

  parse_extended-discovery :
      (p : UniverseDiscoveryPacketFramingLayer)
      → DiscoveryTrip.Fits p
      → parse_extended {U = U} (DiscoveryTrip.encode p) ≡ ok (universe_discovery_packet p)
  unfolding parse_extended
  parse_extended-discovery p h =
      let n = length p.layer.universes in
      let limit : n ≤ 512 = h.layer_fits.page_limit in
      let body : List ℕ =
        be32 2 ++ (name_field p.source_name ++ (0 ∷ 0 ∷ 0 ∷ 0 ∷ LayerTrip.encode p.layer)) in
      let size = DiscoveryTrip.length-encode p h in
      let total = DiscoveryTrip.len_lem p in
      let info =
        pdu_info-header {U = U} (DiscoveryFraming.len p) 2 4 body (omega arith) (omega arith)
          (net.read_uint_four 0 0 0 2 _ (omega arith)) (omega arith) in
      let fits : ltb (length (DiscoveryTrip.encode p)) (DiscoveryFraming.len p) ≡ false =
        omega tests in
      let read = rw append-nil at (DiscoveryTrip.parse-encode {U = U} p [] h) in
      rw (info, fits, read)

  parse_payload-encode :
      (d : E131RootLayerData) (front rest : List ℕ) (n : ℕ)
      → length front ≡ 22
      → PayloadFits d
      → n ≡ 22 + payload_len d
      → parse_payload {U = U} (front ++ (encode_payload d ++ rest)) n (payload_vector d) ≡ ok d
  unfolding parse_payload payload_vector
  parse_payload-encode (data_packet p) front rest n h k e =
      bind_ok _
        (slice_middle front (DataTrip.encode p) rest 22 n h
          (omega (arith, payload_bounds (data_packet p) k)))
        (bind_ok _ (rw append-nil at (DataTrip.parse-encode {U = U} p [] k)) refl)
  parse_payload-encode (synchronization_packet p) front rest n h k e =
      bind_ok _
        (slice_middle front (SyncTrip.encode p) rest 22 n h
          (omega (arith, payload_bounds (synchronization_packet p) k)))
        (parse_extended-sync p k)
  parse_payload-encode (universe_discovery_packet p) front rest n h k e =
      bind_ok _
        (slice_middle front (DiscoveryTrip.encode p) rest 22 n h
          (omega (arith, payload_bounds (universe_discovery_packet p) k)))
        (parse_extended-discovery p k)

payload_vector_known :
    (d : E131RootLayerData)
    → (payload_vector d < 9)
      × ((not (payload_vector d == 4) && not (payload_vector d == 8)) ≡ false)
unfolding payload_vector
payload_vector_known (data_packet p) = (omega arith, refl)
payload_vector_known (synchronization_packet p) = (omega arith, refl)
payload_vector_known (universe_discovery_packet p) = (omega arith, refl)

module _ {U : Type 0} ⦃crate : UuidCrate U⦄ where
  pub read_cid-as_bytes : (u : U) → read_cid (crate.as_bytes u) ≡ ok u
  unfolding read_cid
  read_cid-as_bytes u = rw (crate.from_slice-as_bytes u, read_cid)

module _ {U : Type 0} ⦃net : NetworkEndian⦄ ⦃crate : UuidCrate U⦄ where
  abbrev pub Fits : E131RootLayer U → Type 0
  Fits r = PayloadFits r.payload

  abbrev pub encode : E131RootLayer U → List ℕ
  encode r =
      header (22 + payload_len r.payload)
      ++ (be32 (payload_vector r.payload) ++ (crate.as_bytes r.cid ++ encode_payload r.payload))

  parse_fields :
      (r : E131RootLayer U) (rest : List ℕ)
      → Fits r
      → parse (
          header (22 + payload_len r.payload)
          ++ (be32 (payload_vector r.payload)
              ++ (crate.as_bytes r.cid ++ (encode_payload r.payload ++ rest))))
        ≡ ok r
  unfolding parse
  parse_fields r rest h =
      let E = SacnError U in
      let d = r.payload in
      let n = payload_len d in
      let v = payload_vector d in
      let cid = crate.as_bytes r.cid in
      let payload = encode_payload d in
      let (size, limit) = payload_bounds d h in
      let (small, known) = payload_vector_known d in
      let lc = crate.length-as_bytes r.cid in
      let front : List ℕ = header (22 + n) ++ be32 v in
      let body : List ℕ = be32 v ++ (cid ++ (payload ++ rest)) in
      let vector : net.read_uint body 4 ≡ v =
        net.read_uint_four _ _ _ _ _ (omega arith) ∙ omega arith in
      let info =
        pdu_info-header {U = U} (22 + n) v 4 body (omega arith) (omega arith) vector
          (omega arith) in
      let fits : ltb (length (header (22 + n) ++ body)) (22 + n) ≡ false =
        omega (tests, length-append cid (payload ++ rest), length-append payload rest) in
      let cid_bytes : slice {E = E} (front ++ (cid ++ (payload ++ rest))) 6 22 ≡ ok cid =
        slice_middle front cid (payload ++ rest) 6 22 refl (omega arith) in
      let read =
        parse_payload-encode {U = U} d (front ++ cid) rest (22 + n)
          (omega (arith, length-append front cid)) h refl in
      rw (info, fits, known, cid_bytes, read_cid-as_bytes r.cid, read)

  pub parse-encode :
      (r : E131RootLayer U) (rest : List ℕ) → Fits r → parse (encode r ++ rest) ≡ ok r
  parse-encode r rest h =
      rw (append_assoc (crate.as_bytes r.cid) (encode_payload r.payload) rest)
        (parse_fields r rest h)

  pub pack-encode :
      (r : E131RootLayer U) (buf : List ℕ)
      → Fits r
      → len r ≤ length buf
      → pack r buf ≡ ok (encode r ++ drop (len r) buf)
  unfolding pack len
  pack-encode r buf h k =
      let E = SacnError U in
      let d = r.payload in
      let n = payload_len d in
      let cid = crate.as_bytes r.cid in
      let lc = crate.length-as_bytes r.cid in
      let (size, limit) = payload_bounds d h in
      let (small, known) = payload_vector_known d in
      let fits : ltb (length buf) (22 + n) ≡ false = omega tests in
      let front : List ℕ = header (22 + n) ++ be32 (payload_vector d) in
      let l : length (front ++ cid) ≡ 22 = omega (arith, length-append front cid) in
      rw
        (
          fits,
          write_header {E = E} buf (22 + n) (omega arith) (omega arith),
          write_u32_step {E = E} (header (22 + n)) buf 2 6 (payload_vector d) refl refl
              (omega arith) (omega arith),
          copy_at {E = E} front buf cid 6 22 refl (omega arith) (omega arith),
        )
        (write_from_step (front ++ cid) (drop 22 buf) _ 22 _ l
            (pack_payload-encode d (drop 22 buf) h (omega (arith, length-drop 22 buf)))
          ∙ ap ok (rw drop-drop (simp append_assoc)))

  pub length-encode : (r : E131RootLayer U) → Fits r → length (encode r) ≡ len r
  unfolding len
  length-encode r h = omega (
    arith,
    length-append (crate.as_bytes r.cid) (encode_payload r.payload),
    crate.length-as_bytes r.cid,
    payload_bounds r.payload h,
  )

  pub len-le : (r : E131RootLayer U) → Fits r → len r ≤ 1128
  unfolding len
  len-le r h = omega (arith, payload_bounds r.payload h)
