-- ===== src/Packet/Acn/RoundTrip.antt =====
-- The whole packet: what `pack` writes, and that `parse` reads it back.
use sacn_rust.Common.{
  ℕ, ◌+◌, ◌≤◌, ◌≡◌, refl, ap, ◌∙◌, false, List, [], ◌∷◌, ◌++◌, arith, length, drop, ok, ltb, tests,
  append_assoc, append-nil, length-drop, drop-drop, drop_all, bind_ok, replicate, length-replicate,
  ◌>>=◌,
}
use sacn_rust.Error.{SacnError}
use sacn_rust.External.{NetworkEndian, UuidCrate}
use sacn_rust.Packet.Constants.{e131_acn_packet_identifier}
use sacn_rust.Packet.Buffer.Writes.{copy_at, zeros_at, write_from_step}
use sacn_rust.Packet.Pdu.Header.{write_u16_step}
use sacn_rust.Packet.Root
use sacn_rust.Packet.Root.{E131RootLayer}
use sacn_rust.Packet.Root.RoundTrip as RootTrip
use sacn_rust.Packet.Acn.{AcnRootLayerProtocol, bytes_eq, len, parse, pack, pack_alloc}

-- The preamble size, the post-amble size and the packet identifier.
abbrev pub preamble : List ℕ
preamble = 0 ∷ 16 ∷ 0 ∷ 0 ∷ e131_acn_packet_identifier

module _ {U : Type 0} ⦃net : NetworkEndian⦄ ⦃crate : UuidCrate U⦄ where
  -- The fields of the payload are in the ranges that the layers check.
  abbrev pub Fits : AcnRootLayerProtocol U → Type 0
  Fits p = RootTrip.Fits p.pdu

  abbrev pub encode : AcnRootLayerProtocol U → List ℕ
  encode p = preamble ++ RootTrip.encode p.pdu

  pub parse-encode :
      (p : AcnRootLayerProtocol U) (rest : List ℕ) → Fits p → parse (encode p ++ rest) ≡ ok p
  unfolding parse bytes_eq
  parse-encode p rest h =
      let n = Root.payload_len p.pdu.payload in
      let enough : ltb (length (encode p ++ rest)) 16 ≡ false = omega tests in
      rw (
        enough,
        net.read_u16_lem 0 16 (omega arith) (omega arith),
        net.read_u16_lem 0 0 (omega arith) (omega arith),
        RootTrip.parse-encode p.pdu rest h,
      )

  pub pack-encode :
      (p : AcnRootLayerProtocol U) (buf : List ℕ)
      → Fits p
      → len p ≤ length buf
      → pack p buf ≡ ok (encode p ++ drop (len p) buf)
  unfolding pack len
  pack-encode p buf h k =
      let E = SacnError U in
      let n = Root.len p.pdu in
      let fits : ltb (length buf) (16 + n) ≡ false = omega tests in
      rw
        (
          fits,
          write_u16_step {E = E} [] buf 0 2 16 refl refl (omega arith) (omega arith),
          zeros_at {E = E} (0 ∷ 16 ∷ []) buf 2 4 2 refl refl (omega arith),
          copy_at {E = E} (0 ∷ 16 ∷ 0 ∷ 0 ∷ []) buf e131_acn_packet_identifier 4 16 refl refl
              (omega arith),
        )
        (write_from_step preamble (drop 16 buf) _ 16 _ refl
            (RootTrip.pack-encode p.pdu (drop 16 buf) h (omega (arith, length-drop 16 buf)))
          ∙ ap ok (rw drop-drop (simp append_assoc)))

  -- A packet whose fields are in the ranges that the layers check (`Fits`) is packed into any
  -- buffer that is at least `len` long, and `parse` reads the same packet from that buffer,
  -- whatever the buffer held before and after the packet.
  pub parse-pack :
      (p : AcnRootLayerProtocol U) (buf : List ℕ)
      → Fits p
      → len p ≤ length buf
      → (pack p buf >>= parse) ≡ ok p
  parse-pack p buf h k = bind_ok parse (pack-encode p buf h k) (parse-encode p (drop (len p) buf) h)

  -- For a packet whose fields are in range, `pack_alloc` returns exactly the bytes that the layout
  -- of the protocol (`encode`) gives, as many as `len` says.
  pub pack_alloc-encode :
      (p : AcnRootLayerProtocol U)
      → Fits p
      → (pack_alloc p ≡ ok (encode p)) × (length (encode p) ≡ len p)
  unfolding pack_alloc len
  pack_alloc-encode p h =
      let n = len p in
      let size : length (replicate {A = ℕ} n 0) ≡ n = length-replicate n 0 in
      (
        pack-encode p (replicate n 0) h (omega arith)
            ∙ ap ok (
                ap (◌++◌ (encode p)) (drop_all n (replicate n 0) (omega arith))
                ∙ append-nil (encode p)),
        omega (arith, RootTrip.length-encode p.pdu h),
      )

  -- A packet whose fields are in range has at most 1144 bytes, the size of the receiver's buffer.
  pub len-le : (p : AcnRootLayerProtocol U) → Fits p → len p ≤ 1144
  unfolding len
  len-le p h = omega (arith, RootTrip.len-le p.pdu h)
