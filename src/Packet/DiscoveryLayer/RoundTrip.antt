-- ===== src/Packet/DiscoveryLayer/RoundTrip.antt =====
-- A page of universes: `pack` writes `encode`, and `parse` reads it back.
use sacn_rust.Common.{
  ℕ, ◌+◌, ◌-◌, ◌*◌, ◌/◌, ◌≤◌, ◌≡◌, refl, ap, true, false, ◌==◌, List, [], ◌∷◌, ◌++◌, arith, length,
  drop, ok, ltb, tests, append-nil, le→not_ltb,
}
use sacn_rust.Common.Int.{negsuc}
use sacn_rust.Error.{SacnError}
use sacn_rust.External.{NetworkEndian}
use sacn_rust.Packet.Buffer.Writes.{write_index_at, write_at}
use sacn_rust.Packet.Pdu.Header.{be32, header, pdu_info-header, write_header, write_u32_step}
use sacn_rust.Packet.Sync.RoundTrip.{contains-true}
use sacn_rust.Packet.DiscoveryLayer.{
  UniverseDiscoveryPacketUniverseDiscoveryLayer, len, parse, pack,
}
use sacn_rust.Packet.DiscoveryLayer.Universes.{
  Ascending, be16s, length-be16s, parse_universe_list-be16s, check_universes-Ascending,
  write_u16_into-be16s,
}

-- At most 512 universes, in ascending order, and a page that is not behind the last one.
pub record Fits (p : UniverseDiscoveryPacketUniverseDiscoveryLayer) : Type 0 where
  pub page_limit : length p.universes ≤ 512
  pub ascending : Ascending (negsuc 0) p.universes
  pub page_order : p.page ≤ p.last_page

abbrev pub encode : UniverseDiscoveryPacketUniverseDiscoveryLayer → List ℕ
encode p =
    header (8 + length p.universes * 2) ++ (be32 1 ++ (p.page ∷ p.last_page ∷ be16s p.universes))

pub len_lem :
    (p : UniverseDiscoveryPacketUniverseDiscoveryLayer) → len p ≡ 8 + length p.universes * 2
unfolding len
len_lem p = omega arith

module _ {U : Type 0} ⦃net : NetworkEndian⦄ where
  -- A universe discovery layer with at most 512 universes in strictly increasing order and with a
  -- page number that is not above the last is read back by `parse` from its bytes.
  pub parse-encode :
      (p : UniverseDiscoveryPacketUniverseDiscoveryLayer) → Fits p → parse {U = U} (encode p) ≡ ok p
  unfolding parse
  parse-encode p h =
      let n = length p.universes in
      let body : List ℕ = be32 1 ++ (p.page ∷ p.last_page ∷ be16s p.universes) in
      let info =
        pdu_info-header {U = U} (8 + n * 2) 1 4 body (omega arith) (omega arith)
          (net.read_uint_four 0 0 0 1 _ (omega arith)) (omega arith) in
      let exact : (length (header (8 + n * 2) ++ body) == 8 + n * 2) ≡ true =
        omega (tests, length-be16s p.universes) in
      let count : (8 + n * 2 - 8) / 2 ≡ n = omega arith in
      let universes =
        rw append-nil at (parse_universe_list-be16s {U = U} p.universes [] h.ascending) in
      rw (
        info,
        exact,
        contains-true 8 1032 (8 + n * 2) (omega arith) (omega arith),
        le→not_ltb p.last_page p.page h.page_order,
        count,
        universes,
      )

  pub pack-encode :
      (p : UniverseDiscoveryPacketUniverseDiscoveryLayer) (buf : List ℕ)
      → Fits p
      → len p ≤ length buf
      → pack {U = U} p buf ≡ ok (encode p ++ drop (len p) buf)
  unfolding pack
  pack-encode p buf h k =
      let E = SacnError U in
      let n = length p.universes in
      let room : 8 + n * 2 ≤ length buf = omega (arith, len_lem p) in
      let capacity : ltb 512 n ≡ false = le→not_ltb 512 n h.page_limit in
      let fits : ltb (length buf) (8 + n * 2) ≡ false = omega tests in
      let front : List ℕ = header (8 + n * 2) ++ be32 1 in
      let numbered : List ℕ = front ++ p.page ∷ p.last_page ∷ [] in
      rw
        (
          len_lem p,
          capacity,
          fits,
          write_header {E = E} buf (8 + n * 2) (omega arith) (omega arith),
          write_u32_step {E = E} (header (8 + n * 2)) buf 2 6 1 refl refl (omega arith)
              (omega arith),
          write_index_at {E = E} front buf 6 7 p.page refl refl (omega arith),
          write_index_at {E = E} (front ++ p.page ∷ []) buf 7 8 p.last_page refl refl (omega arith),
          check_universes-Ascending {U = U} (negsuc 0) p.universes h.ascending,
        )
        (write_at numbered buf (be16s p.universes) 8 (8 + n * 2) (n * 2) _ refl refl room
          (λ old l. ap ok (write_u16_into-be16s (negsuc 0) p.universes old l h.ascending)))
