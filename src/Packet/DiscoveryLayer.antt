-- ===== src/Packet/DiscoveryLayer.antt =====
-- `UniverseDiscoveryPacketUniverseDiscoveryLayer`: one page of a source's list of universes.

pub mod Universes
pub mod RoundTrip
use sacn_rust.Common.{
  ℕ, zero, suc, ◌+◌, ◌-◌, ◌*◌, ◌/◌, not, List, [], ◌∷◌, ◌++◌, ok, err, ◌>>=◌, ◌>>◌, refuse_if,
  if◌then◌else◌, ltb, leb, ◌==◌, length,
}
use sacn_rust.Common.Int.{ℤ, pos, negsuc, lt_int}
use sacn_rust.Error.{
  sacn_parse_pack_error, parse_insufficient_data, pdu_invalid_vector, pdu_invalid_length,
  parse_invalid_page, parse_invalid_universe_order, pack_invalid_data, pack_buffer_insufficient,
  text, formatted, Result,
}
use sacn_rust.External.{NetworkEndian}
use sacn_rust.Packet.Constants.{
  discovery_uni_per_page, e131_pdu_length_flags_length, e131_universe_field_length,
  vector_universe_discovery_universe_list, e131_universe_discovery_layer_min_length,
  e131_universe_discovery_layer_max_length,
}
use sacn_rust.Packet.Buffer.{slice, slice_from, index, write_slice, write_index}
use sacn_rust.Packet.Universe.{contains}
use sacn_rust.Packet.Pdu.{pdu_info, flags_and_length, write_u16_at, write_u32_at}

pub record UniverseDiscoveryPacketUniverseDiscoveryLayer : Type 0 where
  pub page : ℕ
  pub last_page : ℕ
  pub universes : List ℕ

abbrev pub vector_field_index : ℕ
vector_field_index = e131_pdu_length_flags_length

abbrev pub page_field_index : ℕ
page_field_index = vector_field_index + 4

abbrev pub last_page_field_index : ℕ
last_page_field_index = page_field_index + 1

abbrev pub universe_list_field_index : ℕ
universe_list_field_index = last_page_field_index + 1

unfoldable pub len : UniverseDiscoveryPacketUniverseDiscoveryLayer → ℕ
len self = 2 + 4 + 1 + 1 + length self.universes * e131_universe_field_length

module _ {U : Type 0} ⦃net : NetworkEndian⦄ where
  -- The `while` loop: `rounds` universes are still to be read, from the index `i` on.
  unfoldable pub parse_universes : ℕ → List ℕ → ℕ → ℤ → List ℕ → Result U (List ℕ)
  unfolding slice
  parse_universes zero buf i last_universe universes = ok universes
  parse_universes (suc rounds) buf i last_universe universes = do
    bytes ← slice buf i (i + e131_universe_field_length)
    let u = net.read_u16 bytes
    let rest =
        parse_universes rounds buf (i + e131_universe_field_length) (pos u) (universes ++ u ∷ [])
    if lt_int last_universe (pos u)
        then rest
        else err (
            sacn_parse_pack_error (
              parse_invalid_universe_order (
                formatted
                  "Universe {u} is out of order, discovery packet universe list must be in accending order!"
                  (u ∷ []))))

  unfoldable pub parse_universe_list : List ℕ → ℕ → Result U (List ℕ)
  parse_universe_list buf len = do
    refuse_if (ltb (length buf) (len * e131_universe_field_length)) (
        sacn_parse_pack_error (
          parse_insufficient_data (
            formatted
              "The given buffer of length {} bytes cannot be parsed into the given number of universes {}"
              (length buf ∷ len ∷ []))))
    parse_universes len buf 0 (negsuc 0) []

  unfoldable pub parse : List ℕ → Result U UniverseDiscoveryPacketUniverseDiscoveryLayer
  unfolding slice_from index
  parse buf = do
    info ← pdu_info buf 4
    refuse_if (not (length buf == info.length)) (
        sacn_parse_pack_error (
          parse_insufficient_data (
            formatted
              "Buffer contains incorrect amount of data ({} bytes) based on universe discovery packet universe discovery layer pdu length field ({} bytes)"
              (length buf ∷ info.length ∷ []))))
    refuse_if (not (info.vector == vector_universe_discovery_universe_list))
        (sacn_parse_pack_error (pdu_invalid_vector info.vector))
    refuse_if
        (not (
          contains e131_universe_discovery_layer_min_length e131_universe_discovery_layer_max_length
            info.length))
        (sacn_parse_pack_error (pdu_invalid_length info.length))
    page ← index buf page_field_index
    last_page ← index buf last_page_field_index
    refuse_if (ltb last_page page)
        (sacn_parse_pack_error (parse_invalid_page (text "Page value higher than last_page")))
    let universes_length = (info.length - universe_list_field_index) / e131_universe_field_length
    rest ← slice_from buf universe_list_field_index
    universes ← parse_universe_list rest universes_length
    ok (record { page = page; last_page = last_page; universes = universes })

  -- The `for` loop of `pack`, over the neighbours in the list.
  unfoldable pub check_universes : List ℕ → Result U (Unit {0})
  check_universes [] = ok tt
  check_universes (previous ∷ []) = ok tt
  check_universes (previous ∷ current ∷ rest) = do
    refuse_if (current == previous)
        (sacn_parse_pack_error (pack_invalid_data (text "Universes are not unique")))
    refuse_if (leb current previous)
        (sacn_parse_pack_error (pack_invalid_data (text "Universes are not sorted")))
    check_universes (current ∷ rest)

  unfoldable pub pack : UniverseDiscoveryPacketUniverseDiscoveryLayer → List ℕ → Result U (List ℕ)
  pack self buf₀ = do
    refuse_if (ltb discovery_uni_per_page (length self.universes)) (
        sacn_parse_pack_error (
          pack_invalid_data (
            formatted "Maximum {} universes allowed per discovery page"
              (discovery_uni_per_page ∷ []))))
    refuse_if (ltb (length buf₀) (len self)) (
        sacn_parse_pack_error (
          pack_buffer_insufficient
            (text "UniverseDiscoveryPacketUniverseDiscoveryLayer pack buffer insufficient")))
    buf₁ ← write_u16_at buf₀ 0 e131_pdu_length_flags_length (flags_and_length (len self))
    buf₂ ←
        write_u32_at buf₁ vector_field_index page_field_index
          vector_universe_discovery_universe_list
    buf₃ ← write_index buf₂ page_field_index self.page
    buf₄ ← write_index buf₃ last_page_field_index self.last_page
    check_universes self.universes
    write_slice buf₄ universe_list_field_index
        (universe_list_field_index + length self.universes * e131_universe_field_length)
        (λ old. ok (net.write_u16_into self.universes old))
