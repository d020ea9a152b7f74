-- ===== src/Packet/DataFraming/RoundTrip.antt =====
-- The framing layer of data packets: `pack` writes `encode`, and `parse` reads it back.
use sacn_rust.Common.{
  ℕ, ◌+◌, ◌≤◌, ◌<◌, ◌≡◌, refl, ap, ◌∙◌, true, false, List, [], ◌∷◌, ◌++◌, arith, length,
  length-append, append_assoc, drop, ok, append-nil, le→not_ltb, ltb, tests, length-drop, drop-drop,
  append-nil, le→not_ltb,
}
use sacn_rust.Error.{SacnError}
use sacn_rust.External.{NetworkEndian}
use sacn_rust.Packet.Name.{is_utf8}
use sacn_rust.Packet.Name.Field.{
  name_field, NoZero, length-name_field, parse_source_name_str-name_field, write_source_name_at,
}
use sacn_rust.Packet.Buffer.{slice, index}
use sacn_rust.Packet.Buffer.Slices.{slice_middle, slice_shift, index_shift}
use sacn_rust.Packet.Buffer.Writes.{write_index_at, write_from_step}
use sacn_rust.Packet.Pdu.Header.{
  be16, be32, header, pdu_info-header, read_be16, write_header, write_u16_step, write_u32_step,
}
use sacn_rust.Packet.Sync.RoundTrip.{contains-true}
use sacn_rust.Packet.Dmp
use sacn_rust.Packet.Dmp.RoundTrip as DmpTrip
use sacn_rust.Packet.DataFraming.{DataPacketFramingLayer, len, parse, pack}
use sacn_rust.Packet.DataFraming.Options.{options_byte, write_options_at, options_bits}

-- At most 513 values, a name that the field holds with a zero behind it, and the ranges that
-- `parse` checks.
pub record Fits (p : DataPacketFramingLayer) : Type 0 where
  pub values : DmpTrip.Fits p.dmp
  pub short_name : length p.source_name < 64
  pub no_zero : NoZero p.source_name
  pub name_is_utf8 : is_utf8 p.source_name ≡ true
  pub priority_limit : p.priority ≤ 200
  pub sync_limit : p.synchronization_address ≤ 63999
  pub universe_low : 1 ≤ p.universe
  pub universe_high : p.universe ≤ 63999

-- The fields between the name and the values.
abbrev pub settings : DataPacketFramingLayer → List ℕ
settings p =
    p.priority
    ∷ (be16 p.synchronization_address
        ++ (p.sequence_number
            ∷ options_byte p.preview_data p.stream_terminated p.force_synchronization
            ∷ be16 p.universe))

abbrev pub encode : DataPacketFramingLayer → List ℕ
encode p =
    header (len p) ++ (be32 2 ++ (name_field p.source_name ++ (settings p ++ DmpTrip.encode p.dmp)))

pub len_lem : (p : DataPacketFramingLayer) → len p ≡ 87 + length p.dmp.property_values
unfolding len Dmp.len
len_lem p = omega arith

pub length-encode :
    (p : DataPacketFramingLayer) → Fits p → length (encode p) ≡ 87 + length p.dmp.property_values
length-encode p h =
    let rest : List ℕ = settings p ++ DmpTrip.encode p.dmp in
    omega (
      arith,
      length-append (name_field p.source_name) rest,
      length-name_field p.source_name (omega arith),
    )

module _ {U : Type 0} ⦃net : NetworkEndian⦄ where
  -- For a data packet framing layer whose fields are in range and a buffer that is long enough,
  -- `pack` writes the bytes of `encode` to the front of the buffer and leaves the rest.
  pub pack-encode :
      (p : DataPacketFramingLayer) (buf : List ℕ)
      → Fits p
      → len p ≤ length buf
      → pack {U = U} p buf ≡ ok (encode p ++ drop (len p) buf)
  unfolding pack
  pack-encode p buf h k =
      let E = SacnError U in
      let n = length p.dmp.property_values in
      let dmp_len : 77 + Dmp.len p.dmp ≡ 87 + n = unfold Dmp.len in omega arith in
      let room : 87 + n ≤ length buf = omega (arith, len_lem p) in
      let fits : ltb (length buf) (87 + n) ≡ false = omega tests in
      let front : List ℕ = header (87 + n) ++ be32 2 in
      let named : List ℕ = front ++ name_field p.source_name in
      let l₀ : length named ≡ 70 =
        omega (
          arith,
          length-append front (name_field p.source_name),
          length-name_field p.source_name,
        ) in
      let prior : List ℕ = named ++ p.priority ∷ [] in
      let l₁ : length prior ≡ 71 = omega (arith, length-append named (p.priority ∷ [])) in
      let synced : List ℕ = prior ++ be16 p.synchronization_address in
      let l₂ : length synced ≡ 73 =
        omega (arith, length-append prior (be16 p.synchronization_address)) in
      let counted : List ℕ = synced ++ p.sequence_number ∷ [] in
      let l₃ : length counted ≡ 74 = omega (arith, length-append synced (p.sequence_number ∷ [])) in
      let options : ℕ = options_byte p.preview_data p.stream_terminated p.force_synchronization in
      let optioned : List ℕ = counted ++ options ∷ [] in
      let l₄ : length optioned ≡ 75 = omega (arith, length-append counted (options ∷ [])) in
      let whole : List ℕ = optioned ++ be16 p.universe in
      let l₅ : length whole ≡ 77 = omega (arith, length-append optioned (be16 p.universe)) in
      rw
        (
          len_lem p,
          fits,
          write_header {E = E} buf (87 + n) (omega arith) (omega arith),
          write_u32_step {E = E} (header (87 + n)) buf 2 6 2 refl refl (omega arith) (omega arith),
          write_source_name_at {E = E} front buf p.source_name 6 70 refl refl (omega arith)
              (omega arith),
          write_index_at {E = E} named buf 70 71 p.priority l₀ refl (omega arith),
          write_u16_step {E = E} prior buf 71 73 p.synchronization_address l₁ refl (omega arith)
              (omega arith),
          write_index_at {E = E} synced buf 73 74 p.sequence_number l₂ refl (omega arith),
          write_options_at {E = E} p.preview_data p.stream_terminated p.force_synchronization
              counted buf 74 75 l₃ refl (omega arith),
          write_u16_step {E = E} optioned buf 75 77 p.universe l₄ refl (omega arith) (omega arith),
        )
        (write_from_step whole (drop 77 buf) _ 77 _ l₅ (
            DmpTrip.pack-encode p.dmp (drop 77 buf) h.values
              (unfold Dmp.len in omega (arith, length-drop 77 buf)))
          ∙ ap ok (rw (drop-drop, dmp_len) (simp append_assoc)))

  parse_fields :
      (p : DataPacketFramingLayer) (rest : List ℕ)
      → Fits p
      → parse {U = U} (
          header (87 + length p.dmp.property_values)
          ++ (be32 2
              ++ (name_field p.source_name ++ (settings p ++ (DmpTrip.encode p.dmp ++ rest)))))
        ≡ ok p
  unfolding parse
  parse_fields p rest h =
      let E = SacnError U in
      let n = length p.dmp.property_values in
      let field = name_field p.source_name in
      let dmp = DmpTrip.encode p.dmp in
      let tail : List ℕ = settings p ++ (dmp ++ rest) in
      let body : List ℕ = be32 2 ++ (field ++ tail) in
      let lf : length field ≡ 64 = length-name_field p.source_name (omega arith) in
      let info =
        pdu_info-header {U = U} (87 + n) 2 4 body (omega arith) (omega arith)
          (net.read_uint_four 0 0 0 2 _ (omega arith)) (omega arith) in
      let fits : ltb (length (header (87 + n) ++ body)) (87 + n) ≡ false =
        omega (tests, length-append field tail, length-append dmp rest) in
      let named : slice {E = E} (header (87 + n) ++ body) 6 70 ≡ ok field =
        slice_middle (header (87 + n) ++ be32 2) field tail 6 70 refl (omega arith) in
      let front : List ℕ = (header (87 + n) ++ be32 2) ++ field in
      let l₀ : length front ≡ 70 = omega (arith, length-append (header (87 + n) ++ be32 2) field) in
      let prior : index {E = E} (front ++ tail) 70 ≡ ok p.priority =
        index_shift front tail 70 0 70 l₀ refl in
      let synced : slice {E = E} (front ++ tail) 71 73 ≡ ok (be16 p.synchronization_address) =
        slice_shift front tail 70 1 3 71 73 l₀ refl refl in
      let counted : index {E = E} (front ++ tail) 73 ≡ ok p.sequence_number =
        index_shift front tail 70 3 73 l₀ refl in
      let options = options_byte p.preview_data p.stream_terminated p.force_synchronization in
      let optioned : index {E = E} (front ++ tail) 74 ≡ ok options =
        index_shift front tail 70 4 74 l₀ refl in
      let placed : slice {E = E} (front ++ tail) 75 77 ≡ ok (be16 p.universe) =
        slice_shift front tail 70 5 7 75 77 l₀ refl refl in
      let dmp_bytes : slice {E = E} (front ++ tail) 77 (87 + n) ≡ ok dmp =
        slice_shift front tail 70 7 (17 + n) 77 (87 + n) l₀ refl (omega arith)
        ∙ slice_middle (settings p) dmp rest 7 (17 + n) refl (omega arith) in
      let dmp_read : Dmp.parse {U = U} dmp ≡ ok p.dmp =
        rw append-nil at (DmpTrip.parse-encode {U = U} p.dmp [] h.values) in
      let (o₁, o₂, o₃) = options_bits p.preview_data p.stream_terminated p.force_synchronization in
      rw (
        info,
        fits,
        named,
        parse_source_name_str-name_field {U = U} p.source_name h.short_name h.no_zero
            h.name_is_utf8,
        prior,
        le→not_ltb 200 p.priority h.priority_limit,
        synced,
        read_be16 p.synchronization_address (omega arith),
        le→not_ltb 63999 p.synchronization_address h.sync_limit,
        counted,
        optioned,
        placed,
        read_be16 p.universe (omega arith),
        contains-true 1 63999 p.universe h.universe_low h.universe_high,
        dmp_bytes,
        dmp_read,
        o₁,
        o₂,
        o₃,
      )

  pub parse-encode :
      (p : DataPacketFramingLayer) (rest : List ℕ)
      → Fits p
      → parse {U = U} (encode p ++ rest) ≡ ok p
  parse-encode p rest h =
      rw
        (
          len_lem p,
          append_assoc (name_field p.source_name) (settings p ++ DmpTrip.encode p.dmp) rest,
        )
        (parse_fields p rest h)
