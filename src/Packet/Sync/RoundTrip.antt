-- ===== src/Packet/Sync/RoundTrip.antt =====
-- The framing layer of synchronisation packets: `pack` writes `encode`, and `parse` reads it back.
use sacn_rust.Common.{
  ℕ, ◌≤◌, ◌≡◌, refl, true, false, List, [], ◌∷◌, ◌++◌, arith, length, drop, ok, ltb, tests,
}
use sacn_rust.Error.{SacnError}
use sacn_rust.External.{NetworkEndian}
use sacn_rust.Packet.Universe.{contains}
use sacn_rust.Packet.Buffer.Writes.{write_index_at, zeros_at}
use sacn_rust.Packet.Pdu.Header.{
  be16, be32, header, pdu_info-header, read_be16, write_header, write_u16_step, write_u32_step,
}
use sacn_rust.Packet.Sync.{SynchronizationPacketFramingLayer, len, parse, pack}

-- The synchronisation address is one that a universe may have.
abbrev pub Fits : SynchronizationPacketFramingLayer → Type 0
Fits p = (1 ≤ p.synchronization_address) × (p.synchronization_address ≤ 63999)

-- The two reserved bytes are zero.
abbrev pub encode : SynchronizationPacketFramingLayer → List ℕ
encode p =
    header 11 ++ (be32 1 ++ (p.sequence_number ∷ (be16 p.synchronization_address ++ (0 ∷ 0 ∷ []))))

pub contains-true : (lo hi x : ℕ) → lo ≤ x → x ≤ hi → contains lo hi x ≡ true
contains-true lo hi x p q = ground arith

module _ {U : Type 0} ⦃net : NetworkEndian⦄ where
  pub parse-encode :
      (p : SynchronizationPacketFramingLayer) (rest : List ℕ)
      → Fits p
      → parse {U = U} (encode p ++ rest) ≡ ok p
  unfolding parse
  parse-encode p rest h =
      let s = p.synchronization_address in
      let body : List ℕ = be32 1 ++ (p.sequence_number ∷ (be16 s ++ (0 ∷ 0 ∷ rest))) in
      let info =
        pdu_info-header {U = U} 11 1 4 body (omega arith) (omega arith)
          (net.read_uint_four 0 0 0 1 _ (omega arith)) (omega arith) in
      let fits : ltb (length (header 11 ++ body)) 11 ≡ false = omega tests in
      rw (info, fits, read_be16 s (omega arith), contains-true 1 63999 s h.0 h.1)

  pub pack-encode :
      (p : SynchronizationPacketFramingLayer) (buf : List ℕ)
      → Fits p
      → 11 ≤ length buf
      → pack {U = U} p buf ≡ ok (encode p ++ drop 11 buf)
  unfolding pack len
  pack-encode p buf h k =
      let s = p.synchronization_address in
      let fits : ltb (length buf) 11 ≡ false = omega tests in
      let front : List ℕ = header 11 ++ be32 1 in
      rw (
        fits,
        write_header {E = SacnError U} buf 11 (omega arith) (omega arith),
        write_u32_step {E = SacnError U} (header 11) buf 2 6 1 refl refl (omega arith)
            (omega arith),
        write_index_at {E = SacnError U} front buf 6 7 p.sequence_number refl refl (omega arith),
        write_u16_step {E = SacnError U} (front ++ p.sequence_number ∷ []) buf 7 9 s refl refl
            (omega arith) (omega arith),
        zeros_at {E = SacnError U} (front ++ (p.sequence_number ∷ be16 s)) buf 9 11 2 refl refl k,
      )
