-- ===== src/Packet/Pdu/Header.antt =====
-- The head of a PDU in plain bytes: what is written, and what `pdu_info` reads back.
use sacn_rust.Common.{
  ℕ, ◌+◌, ◌/◌, ◌%◌, ◌^◌, ◌≤◌, ◌<◌, ◌≡◌, refl, ap, ap₂, ◌∙◌, List, [], ◌∷◌, ◌++◌, arith, length,
  drop, ok, flags_mask, length_mask, flags_or_length,
}
use sacn_rust.External.{NetworkEndian, IsU16, IsU32}
use sacn_rust.Packet.Buffer.Writes.{write_at}
use sacn_rust.Packet.Pdu.{pdu_info, flags_and_length, write_u16_at, write_u32_at}

-- Big-endian words.
abbrev pub be16 : ℕ → List ℕ
be16 n = n / 256 ∷ n % 256 ∷ []

abbrev pub be32 : ℕ → List ℕ
be32 n = n / 16777216 ∷ n / 65536 % 256 ∷ n / 256 % 256 ∷ n % 256 ∷ []

-- The two bytes of the flags and a length that fits the field.
abbrev pub header : ℕ → List ℕ
header n = (0x70 + n / 256) ∷ n % 256 ∷ []

abbrev pub FitsLength : ℕ → Type 0
FitsLength n = n < 4096

module _ ⦃net : NetworkEndian⦄ where
  pub flags_and_length_lem : (n : ℕ) → FitsLength n → flags_and_length n ≡ 0x7000 + n
  unfolding flags_and_length
  flags_and_length_lem n h =
      let small : n % 2 ^ 16 ≡ n = omega arith in
      rw (net.read_u16_lem 0x70 0 (omega arith) (omega arith), small) (flags_or_length n h)

  pub read_be16 : (n : ℕ) → IsU16 n → net.read_u16 (be16 n) ≡ n
  read_be16 n h = net.read_u16_lem (n / 256) (n % 256) (omega arith) (omega arith) ∙ omega arith

module _ {E : Type 0} ⦃net : NetworkEndian⦄ where
  pub write_u16_step :
      (P buf : List ℕ) (a b n : ℕ)
      → length P ≡ a
      → a + 2 ≡ b
      → b ≤ length buf
      → IsU16 n
      → write_u16_at {E = E} (P ++ drop a buf) a b n ≡ ok ((P ++ be16 n) ++ drop b buf)
  unfolding write_u16_at
  write_u16_step P buf a b n p q r h =
      write_at P buf (be16 n) a b 2 _ p q r (λ old l. ap ok (net.write_u16_lem old n l h))

  pub write_u32_step :
      (P buf : List ℕ) (a b n : ℕ)
      → length P ≡ a
      → a + 4 ≡ b
      → b ≤ length buf
      → IsU32 n
      → write_u32_at {E = E} (P ++ drop a buf) a b n ≡ ok ((P ++ be32 n) ++ drop b buf)
  unfolding write_u32_at
  write_u32_step P buf a b n p q r h =
      write_at P buf (be32 n) a b 4 _ p q r (λ old l. ap ok (net.write_u32_lem old n l h))

  pub write_header :
      (buf : List ℕ) (n : ℕ)
      → 2 ≤ length buf
      → FitsLength n
      → write_u16_at {E = E} buf 0 2 (flags_and_length n) ≡ ok (header n ++ drop 2 buf)
  write_header buf n r h =
      let hi : (0x7000 + n) / 256 ≡ 0x70 + n / 256 = omega arith in
      let lo : (0x7000 + n) % 256 ≡ n % 256 = omega arith in
      rw (flags_and_length_lem n h) (
        write_u16_step [] buf 0 2 (0x7000 + n) refl refl r (omega arith)
        ∙ ap₂ (λ x y. ok (x ∷ y ∷ drop 2 buf)) hi lo)

module _ {U : Type 0} ⦃net : NetworkEndian⦄ where
  -- A header that is long enough and has the right flags is read with its length and its vector.
  pub pdu_info-header :
      (n v k : ℕ) (rest : List ℕ)
      → FitsLength n
      → k ≤ length rest
      → net.read_uint rest k ≡ v
      → IsU32 v
      → pdu_info {U = U} (header n ++ rest) k ≡ ok (record { length = n; vector = v })
  unfolding pdu_info
  pdu_info-header n v k rest h p e fits = ground (
    arith,
    flags_mask (0x70 + n / 256),
    length_mask (0x70 + n / 256) (n % 256),
    net.read_u16_lem (0x70 + n / 256) (n % 256),
  )
