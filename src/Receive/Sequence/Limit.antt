-- ===== src/Receive/Sequence/Limit.antt =====
-- The limit on the number of sources that src/receive.rs tracks.
use sacn_rust.Common.{
  refl, ℕ, ◌≤◌, ◌≡◌, Bool, true, false, not, none, some, [], ◌∷◌, ltb, length, ℕ_discrete, arith,
  Option-cases, inl, inr, Bool-cases, ltb→lt,
}
use sacn_rust.Common.State.{and_then_keeps, ◌>>◌}
use sacn_rust.Common.HashMap.{
  get, remove, length-insert_old, length-insert_new, length-remove-le, length-retain-le,
}
use sacn_rust.Packet.Constants.{e131_network_data_loss_timeout}
use sacn_rust.External.{UuidCrate}
use sacn_rust.Receive.Sequence.{
  Universes, Sequences, check_timeouts, add_source, accept_seq, check_seq_number, remove_universe,
  expire, is_empty, find_timed_out, wrapping_sub, as_i8, is_discarded, expected_seq,
}

module _ {U : Type 0} ⦃crate : UuidCrate U⦄ where
  length-expire : (now timeout : ℕ) (s : Sequences U) → length (expire now timeout s) ≡ length s
  unfolding expire
  length-expire now timeout [] = refl
  length-expire now timeout ((src, us) ∷ rest) = ground (arith, length-expire now timeout rest)

  length-remove_universe-le :
      (s : Sequences U) (src : U) (uni : ℕ) (us : Universes)
      → get crate.equal src s ≡ some us
      → length (remove_universe s src uni us) ≤ length s
  unfolding remove_universe
  length-remove_universe-le s src uni us e = ground (
    arith,
    length-remove-le crate.equal src s,
    length-insert_old crate.equal src (remove ℕ_discrete uni us) us s e,
  )

  length-check_timeouts-le :
      (now timeout : ℕ) (announce : Bool) (s : Sequences U)
      → length ((check_timeouts now timeout announce s).1) ≤ length s
  unfolding check_timeouts
  length-check_timeouts-le now timeout true s =
      elim (Option-cases (find_timed_out now timeout s none)) [
        | inl e ↦ rw (check_timeouts, e) (omega arith)
        | inr ((src, uni), e) ↦ elim (Option-cases (get crate.equal src s)) [
          | inl p ↦ rw (check_timeouts, e, p) (omega arith)
          | inr (us, p) ↦ rw (check_timeouts, e, p) (length-remove_universe-le s src uni us p)
        ]
      ]
  length-check_timeouts-le now timeout false s = ground (
    arith,
    length-expire now timeout s,
    length-retain-le {K = U} (λ us. not (is_empty us)) (expire now timeout s),
  )

  length-add_source-le :
      (limit : ℕ) (cid : U) (s : Sequences U)
      → length s ≤ limit
      → length ((add_source (some limit) cid s).1) ≤ limit
  unfolding add_source
  length-add_source-le limit cid s h = elim (Option-cases (get crate.equal cid s)) [
    | inl e ↦ elim (Bool-cases (ltb (length s) limit)) [
      | inl room ↦
          rw (add_source, e, room)
            (omega (arith, length-insert_new crate.equal cid [] s e, ltb→lt (length s) limit room))
      | inr full ↦ rw (add_source, e, full) h
    ]
    | inr (us, e) ↦ rw (add_source, e) h
  ]

  length-accept_seq :
      (now : ℕ) (cid : U) (n universe : ℕ) (s : Sequences U)
      → length ((accept_seq now cid n universe s).1) ≡ length s
  unfolding accept_seq
  length-accept_seq now cid n universe s = elim (Option-cases (get crate.equal cid s)) [
    | inl e ↦ rw (accept_seq, e) refl
    | inr (us, e) ↦
        elim (Bool-cases (
          is_discarded (as_i8 (wrapping_sub n (expected_seq now n universe us).sequence_number)))) [
            | inl d ↦ rw (accept_seq, e, d) refl
            | inr d ↦ rw (accept_seq, e, d) (length-insert_old crate.equal cid _ us s e)
          ]
  ]

  -- `check_seq_number` never tracks more sources than the limit, if it tracked no more before,
  -- whether the packet is accepted or not and timeouts are announced or not.
  pub check_seq_number-limit :
      (now limit : ℕ) (cid : U) (n universe : ℕ) (announce : Bool) (s : Sequences U)
      → length s ≤ limit
      → length ((check_seq_number now (some limit) cid n universe announce s).1) ≤ limit
  unfolding check_seq_number
  check_seq_number-limit now limit cid n universe announce s h =
      let small : Sequences U → Type 0 = λ s. length s ≤ limit in
      let s1 = (check_timeouts now e131_network_data_loss_timeout announce s).1 in
      let h1 : length s1 ≤ limit =
        omega (arith, length-check_timeouts-le now e131_network_data_loss_timeout announce s) in
      and_then_keeps small (check_timeouts now e131_network_data_loss_timeout announce s)
        (λ _. add_source (some limit) cid >> accept_seq now cid n universe) h1
        λ _.
          and_then_keeps small (add_source (some limit) cid s1) (λ _. accept_seq now cid n universe)
            (length-add_source-le limit cid s1 h1)
            λ _.
              rw (length-accept_seq now cid n universe ((add_source (some limit) cid s1).1))
                (length-add_source-le limit cid s1 h1)
