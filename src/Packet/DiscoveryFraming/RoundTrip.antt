-- ===== src/Packet/DiscoveryFraming/RoundTrip.antt =====
-- The framing layer of discovery packets: `pack` writes `encode`, and `parse` reads it back.
use sacn_rust.Common.{
  ℕ, ◌+◌, ◌*◌, ◌≤◌, ◌<◌, ◌≡◌, refl, ap, ◌∙◌, true, false, List, [], ◌∷◌, ◌++◌, arith, length, drop,
  ok, ltb, tests, append_assoc, length-append, length-drop, drop-drop,
}
use sacn_rust.Error.{SacnError}
use sacn_rust.External.{NetworkEndian}
use sacn_rust.Packet.Name.{is_utf8}
use sacn_rust.Packet.Name.Field.{
  name_field, NoZero, length-name_field, parse_source_name_str-name_field, write_source_name_at,
}
use sacn_rust.Packet.Buffer.{slice}
use sacn_rust.Packet.Buffer.Slices.{slice_middle, slice_shift}
use sacn_rust.Packet.Buffer.Writes.{zeros_at, write_from_step}
use sacn_rust.Packet.Pdu.Header.{be32, header, pdu_info-header, write_header, write_u32_step}
use sacn_rust.Packet.DiscoveryLayer
use sacn_rust.Packet.DiscoveryLayer.Universes.{length-be16s}
use sacn_rust.Packet.DiscoveryLayer.RoundTrip as LayerTrip
use sacn_rust.Packet.DiscoveryFraming.{UniverseDiscoveryPacketFramingLayer, len, parse, pack}

-- A page that fits, and a name that the field holds with a zero behind it.
pub record Fits (p : UniverseDiscoveryPacketFramingLayer) : Type 0 where
  pub layer_fits : LayerTrip.Fits p.layer
  pub short_name : length p.source_name < 64
  pub no_zero : NoZero p.source_name
  pub name_is_utf8 : is_utf8 p.source_name ≡ true

-- The four reserved bytes are zero.
abbrev pub encode : UniverseDiscoveryPacketFramingLayer → List ℕ
encode p =
    header (len p)
    ++ (be32 2 ++ (name_field p.source_name ++ (0 ∷ 0 ∷ 0 ∷ 0 ∷ LayerTrip.encode p.layer)))

pub len_lem : (p : UniverseDiscoveryPacketFramingLayer) → len p ≡ 82 + length p.layer.universes * 2
unfolding len
len_lem p = omega (arith, LayerTrip.len_lem p.layer)

length-layer :
    (p : UniverseDiscoveryPacketFramingLayer)
    → length (LayerTrip.encode p.layer) ≡ 8 + length p.layer.universes * 2
length-layer p = omega (arith, length-be16s p.layer.universes)

pub length-encode :
    (p : UniverseDiscoveryPacketFramingLayer)
    → Fits p
    → length (encode p) ≡ 82 + length p.layer.universes * 2
length-encode p h =
    let rest : List ℕ = 0 ∷ 0 ∷ 0 ∷ 0 ∷ LayerTrip.encode p.layer in
    omega (
      arith,
      length-append (name_field p.source_name) rest,
      length-name_field p.source_name (omega arith),
      length-layer p,
    )

module _ {U : Type 0} ⦃net : NetworkEndian⦄ where
  parse_fields :
      (p : UniverseDiscoveryPacketFramingLayer) (rest : List ℕ)
      → Fits p
      → parse {U = U} (
          header (82 + length p.layer.universes * 2)
          ++ (be32 2
              ++ (name_field p.source_name
                  ++ (0 ∷ 0 ∷ 0 ∷ 0 ∷ (LayerTrip.encode p.layer ++ rest)))))
        ≡ ok p
  unfolding parse
  parse_fields p rest h =
      let E = SacnError U in
      let n = length p.layer.universes in
      let limit : n ≤ 512 = h.layer_fits.page_limit in
      let field = name_field p.source_name in
      let layer = LayerTrip.encode p.layer in
      let tail : List ℕ = 0 ∷ 0 ∷ 0 ∷ 0 ∷ (layer ++ rest) in
      let body : List ℕ = be32 2 ++ (field ++ tail) in
      let front : List ℕ = header (82 + n * 2) ++ be32 2 in
      let lf : length field ≡ 64 = length-name_field p.source_name (omega arith) in
      let info =
        pdu_info-header {U = U} (82 + n * 2) 2 4 body (omega arith) (omega arith)
          (net.read_uint_four 0 0 0 2 _ (omega arith)) (omega arith) in
      let fits : ltb (length (header (82 + n * 2) ++ body)) (82 + n * 2) ≡ false =
        omega (tests, length-append field tail, length-append layer rest, length-layer p) in
      let long : ltb (82 + n * 2) 82 ≡ false = omega tests in
      let named : slice {E = E} (front ++ (field ++ tail)) 6 70 ≡ ok field =
        slice_middle front field tail 6 70 refl (omega arith) in
      let page : slice {E = E} ((front ++ field) ++ tail) 74 (82 + n * 2) ≡ ok layer =
        slice_shift (front ++ field) tail 70 4 (12 + n * 2) 74 (82 + n * 2)
          (omega (arith, length-append front field)) refl (omega arith)
        ∙ slice_middle (0 ∷ 0 ∷ 0 ∷ 0 ∷ []) layer rest 4 (12 + n * 2) refl
            (omega (arith, length-layer p)) in
      rw (
        info,
        fits,
        long,
        named,
        parse_source_name_str-name_field {U = U} p.source_name h.short_name h.no_zero
            h.name_is_utf8,
        page,
        LayerTrip.parse-encode {U = U} p.layer h.layer_fits,
      )

  pub parse-encode :
      (p : UniverseDiscoveryPacketFramingLayer) (rest : List ℕ)
      → Fits p
      → parse {U = U} (encode p ++ rest) ≡ ok p
  parse-encode p rest h =
      rw
        (
          len_lem p,
          append_assoc (name_field p.source_name) (0 ∷ 0 ∷ 0 ∷ 0 ∷ LayerTrip.encode p.layer) rest,
        )
        (parse_fields p rest h)

  pub pack-encode :
      (p : UniverseDiscoveryPacketFramingLayer) (buf : List ℕ)
      → Fits p
      → len p ≤ length buf
      → pack {U = U} p buf ≡ ok (encode p ++ drop (len p) buf)
  unfolding pack
  pack-encode p buf h k =
      let E = SacnError U in
      let n = length p.layer.universes in
      let limit : n ≤ 512 = h.layer_fits.page_limit in
      let room : 82 + n * 2 ≤ length buf = omega (arith, len_lem p) in
      let layer_len : 74 + DiscoveryLayer.len p.layer ≡ 82 + n * 2 =
        omega (arith, LayerTrip.len_lem p.layer) in
      let fits : ltb (length buf) (82 + n * 2) ≡ false = omega tests in
      let front : List ℕ = header (82 + n * 2) ++ be32 2 in
      let named : List ℕ = front ++ name_field p.source_name in
      let l₀ : length named ≡ 70 =
        omega (
          arith,
          length-append front (name_field p.source_name),
          length-name_field p.source_name,
        ) in
      let whole : List ℕ = named ++ (0 ∷ 0 ∷ 0 ∷ 0 ∷ []) in
      let l₁ : length whole ≡ 74 = omega (arith, length-append named (0 ∷ 0 ∷ 0 ∷ 0 ∷ [])) in
      rw
        (
          len_lem p,
          fits,
          write_header {E = E} buf (82 + n * 2) (omega arith) (omega arith),
          write_u32_step {E = E} (header (82 + n * 2)) buf 2 6 2 refl refl (omega arith)
              (omega arith),
          write_source_name_at {E = E} front buf p.source_name 6 70 refl refl (omega arith)
              (omega arith),
          zeros_at {E = E} named buf 70 74 4 l₀ refl (omega arith),
        )
        (write_from_step whole (drop 74 buf) _ 74 _ l₁ (
            LayerTrip.pack-encode p.layer (drop 74 buf) h.layer_fits
              (omega (arith, length-drop 74 buf)))
          ∙ ap ok (rw (drop-drop, layer_len) (simp append_assoc)))
