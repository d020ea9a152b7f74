-- ===== src/Packet/DiscoveryLayer/Universes.antt =====
-- The list of universes on a page: two bytes each, strictly ascending.
use sacn_rust.Common.{
  ℕ, ◌+◌, ◌*◌, ◌/◌, ◌%◌, ◌≡◌, refl, sym, ap, ◌∙◌, true, false, List, [], ◌∷◌, ◌++◌, arith, tests,
  ok, bind_ok, ltb, leb, ◌==◌, length, length-append, append_assoc, append-nil,
}
use sacn_rust.Common.Int.{ℤ, pos, negsuc, lt_int, ◌<ℤ◌}
use sacn_rust.External.{NetworkEndian, IsU16}
use sacn_rust.Packet.Buffer.Slices.{slice_middle}
use sacn_rust.Packet.Pdu.Header.{be16, read_be16}
use sacn_rust.Packet.DiscoveryLayer.{parse_universes, parse_universe_list, check_universes}

-- Each universe is a `u16` above the one before it; `last` is the one before the list.
abbrev pub Ascending : ℤ → List ℕ → Type 0
Ascending last [] = Unit {0}
Ascending last (u ∷ us) = (last <ℤ pos u) × IsU16 u × Ascending (pos u) us

abbrev pub be16s : List ℕ → List ℕ
be16s [] = []
be16s (u ∷ us) = be16 u ++ be16s us

pub length-be16s : (us : List ℕ) → length (be16s us) ≡ length us * 2
length-be16s [] = refl
length-be16s (u ∷ us) = omega (arith, length-be16s us)

lt_int-true : (a b : ℤ) → a <ℤ b → lt_int a b ≡ true
lt_int-true a b h = omega tests

module _ {U : Type 0} ⦃net : NetworkEndian⦄ where
  parse_universes-be16s :
      (us front rest done : List ℕ) (i : ℕ) (last : ℤ)
      → length front ≡ i
      → Ascending last us
      → parse_universes {U = U} (length us) (front ++ (be16s us ++ rest)) i last done
        ≡ ok (done ++ us)
  unfolding parse_universes
  parse_universes-be16s [] front rest done i last h a = rw append-nil
  parse_universes-be16s (u ∷ us) front rest done i last h (above, fits, a) =
      let front' : List ℕ = front ++ be16 u in
      let l : length front' ≡ i + 2 = omega (arith, length-append front (be16 u)) in
      let next = parse_universes-be16s us front' rest (done ++ u ∷ []) (i + 2) (pos u) l a in
      let buf : front ++ (be16s (u ∷ us) ++ rest) ≡ front' ++ (be16s us ++ rest) =
        sym (append_assoc front (be16 u) (be16s us ++ rest)) in
      bind_ok _ (slice_middle front (be16 u) (be16s us ++ rest) i (i + 2) h refl) (
        rw (read_be16 u fits, lt_int-true last (pos u) above, buf)
          (next ∙ ap ok (append_assoc done (u ∷ []) us)))

  -- A list of universes in ascending order is read back.
  pub parse_universe_list-be16s :
      (us rest : List ℕ)
      → Ascending (negsuc 0) us
      → parse_universe_list {U = U} (be16s us ++ rest) (length us) ≡ ok us
  unfolding parse_universe_list
  parse_universe_list-be16s us rest a =
      let enough : ltb (length (be16s us ++ rest)) (length us * 2) ≡ false =
        omega (tests, length-append (be16s us) rest, length-be16s us) in
      rw enough (parse_universes-be16s us [] rest [] 0 (negsuc 0) refl a)

  -- Such a list passes the checks of `pack`.
  pub check_universes-Ascending :
      (last : ℤ) (us : List ℕ) → Ascending last us → check_universes {U = U} us ≡ ok tt
  unfolding check_universes
  check_universes-Ascending last [] a = refl
  check_universes-Ascending last (u ∷ []) a = refl
  check_universes-Ascending last (u ∷ v ∷ us) (_, _, a) =
      let distinct : (v == u) ≡ false = omega tests in
      let above : leb v u ≡ false = omega tests in
      rw (distinct, above) (check_universes-Ascending (pos u) (v ∷ us) a)

module _ ⦃net : NetworkEndian⦄ where
  -- `write_u16_into` fills a slice of two bytes for each universe.
  pub write_u16_into-be16s :
      (last : ℤ) (us old : List ℕ)
      → length old ≡ length us * 2
      → Ascending last us
      → net.write_u16_into us old ≡ be16s us
  write_u16_into-be16s last [] [] h a = net.write_u16_into-nil
  write_u16_into-be16s last [] (x ∷ old) h a = absurd (omega arith)
  write_u16_into-be16s last (u ∷ us) [] h a = absurd (omega arith)
  write_u16_into-be16s last (u ∷ us) (x ∷ []) h a = absurd (omega arith)
  write_u16_into-be16s last (u ∷ us) (x ∷ y ∷ old) h (_, fits, a) =
      net.write_u16_into-cons u us x y old fits
      ∙ ap (λ r. u / 256 ∷ u % 256 ∷ r) (write_u16_into-be16s (pos u) us old (omega arith) a)
