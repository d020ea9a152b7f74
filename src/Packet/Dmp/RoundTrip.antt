-- ===== src/Packet/Dmp/RoundTrip.antt =====
-- The DMP layer: `pack` writes `encode`, and `parse` reads it back.
use sacn_rust.Common.{
  ℕ, ◌+◌, ◌-◌, ◌%◌, ◌^◌, ◌≤◌, ◌≡◌, refl, true, false, ◌==◌, List, [], ◌∷◌, ◌++◌, arith, length,
  drop, length-append, append_assoc, ok, ltb, tests,
}
use sacn_rust.Error.{SacnError}
use sacn_rust.External.{NetworkEndian}
use sacn_rust.Packet.Buffer.{slice}
use sacn_rust.Packet.Buffer.Slices.{slice_middle}
use sacn_rust.Packet.Buffer.Writes.{write_index_at, zeros_at, copy_at}
use sacn_rust.Packet.Pdu.Header.{
  be16, header, pdu_info-header, read_be16, write_header, write_u16_step,
}
use sacn_rust.Packet.Dmp.{DataPacketDmpLayer, len, parse, pack}

-- At most 513 values: a start code and 512 slots.
abbrev pub Fits : DataPacketDmpLayer → Type 0
Fits p = length p.property_values ≤ 513

abbrev pub head_fields : ℕ → List ℕ
head_fields n = header (10 + n) ++ (2 ∷ 0xa1 ∷ 0 ∷ 0 ∷ 0 ∷ 1 ∷ be16 n)

abbrev pub encode : DataPacketDmpLayer → List ℕ
encode p = head_fields (length p.property_values) ++ p.property_values

module _ {U : Type 0} ⦃net : NetworkEndian⦄ where
  pub parse-encode :
      (p : DataPacketDmpLayer) (rest : List ℕ) → Fits p → parse {U = U} (encode p ++ rest) ≡ ok p
  unfolding parse len
  parse-encode p rest h =
      let n = length p.property_values in
      let body : List ℕ = 2 ∷ 0xa1 ∷ 0 ∷ 0 ∷ 0 ∷ 1 ∷ (be16 n ++ (p.property_values ++ rest)) in
      let info =
        pdu_info-header {U = U} (10 + n) 2 1 body (omega arith) (omega arith)
          (net.read_uint_one 2 _ (omega arith)) (omega arith) in
      let fits : ltb (length (header (10 + n) ++ body)) (10 + n) ≡ false =
        omega (tests, length-append p.property_values rest) in
      let count : (n + 10 == 10 + n) ≡ true = omega tests in
      let capacity : ltb 513 (10 + n - 10) ≡ false = omega tests in
      let values : slice {E = SacnError U} (header (10 + n) ++ body) 10 (10 + n)
          ≡ ok p.property_values =
        slice_middle (head_fields n) p.property_values rest 10 (10 + n) refl refl in
      rw (
        info,
        fits,
        net.read_u16_lem 0 0 (omega arith) (omega arith),
        net.read_u16_lem 0 1 (omega arith) (omega arith),
        read_be16 n (omega arith),
        count,
        capacity,
        values,
      )

  pub pack-encode :
      (p : DataPacketDmpLayer) (buf : List ℕ)
      → Fits p
      → len p ≤ length buf
      → pack {U = U} p buf ≡ ok (encode p ++ drop (len p) buf)
  unfolding pack len
  pack-encode p buf h k =
      let n = length p.property_values in
      let capacity : ltb 513 n ≡ false = omega tests in
      let fits : ltb (length buf) (10 + n) ≡ false = omega tests in
      let word : n % 2 ^ 16 ≡ n = omega arith in
      let head = header (10 + n) in
      rw
        (
          capacity,
          fits,
          write_header {E = SacnError U} buf (10 + n) (omega arith) (omega arith),
          write_index_at {E = SacnError U} head buf 2 3 2 refl refl (omega arith),
          write_index_at {E = SacnError U} (head ++ 2 ∷ []) buf 3 4 0xa1 refl refl (omega arith),
          zeros_at {E = SacnError U} (head ++ 2 ∷ 0xa1 ∷ []) buf 4 6 2 refl refl (omega arith),
          write_u16_step {E = SacnError U} (head ++ 2 ∷ 0xa1 ∷ 0 ∷ 0 ∷ []) buf 6 8 1 refl refl
              (omega arith) (omega arith),
          word,
          write_u16_step {E = SacnError U} (head ++ 2 ∷ 0xa1 ∷ 0 ∷ 0 ∷ 0 ∷ 1 ∷ []) buf 8 10 n refl
              refl (omega arith) (omega arith),
          copy_at {E = SacnError U} (head_fields n) buf p.property_values 10 (10 + n) refl refl
              (omega arith),
        )
        (rw append_assoc)
