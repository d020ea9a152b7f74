-- ===== src/Receive/Sequence/Steps.antt =====
-- The steps of `check_seq_number` of src/receive.rs, each on the table of the last sequence
-- numbers.
use sacn_rust.Common.{
  subst, ℕ, ◌≡◌, ◌≢◌, ◌⊎◌, ◌∙◌, inl, inr, refl, true, false, Option, none, some, [], ok, err,
  ℕ_discrete, arith, Option-cases,
}
use mathlib.Core.Logic.{ite}
use sacn_rust.Common.State.{bind_ok, ◌>>◌}
use sacn_rust.Common.HashMap.{get, insert, get-insert, get-insert_self}
use sacn_rust.Common.HashMap.Keys.{HasDistinctKeys, insert-HasDistinctKeys}
use sacn_rust.Packet.Constants.{e131_network_data_loss_timeout}
use sacn_rust.Error.{Result, out_of_sequence}
use sacn_rust.External.{UuidCrate, IsByte}
use sacn_rust.Receive.Sequence.{
  TimedStampedSeqNo, Universes, Sequences, check_timeouts, add_source, accept_seq, check_seq_number,
  wrapping_sub, as_i8, is_discarded, expected_seq, has_room,
}
use sacn_rust.Receive.Sequence.Window.{
  IsStale, is_discarded_fresh, is_discarded_fresh, is_discarded_first,
}
use sacn_rust.Receive.Sequence.Lookup.{
  IsTable, last_seq, in_universe, live, insert-IsTable, get-IsTable,
}

-- The number of a packet is accepted: it is the first of its universe, or it is not stale.
unfoldable pub Accepts : ℕ → Option TimedStampedSeqNo → Type 0
Accepts n none = Unit
Accepts n (some last) = IsByte last.sequence_number × ¬ IsStale last.sequence_number n

pub not_discarded :
    (now n universe : ℕ) (us : Universes)
    → IsByte n
    → Accepts n (get ℕ_discrete universe us)
    → is_discarded (as_i8 (wrapping_sub n (expected_seq now n universe us).sequence_number)) ≡ false
unfolding Accepts expected_seq
not_discarded now n universe us hn h = elim (Option-cases (get ℕ_discrete universe us)) [
  | inl e ↦ rw (expected_seq, e) (is_discarded_first n hn)
  | inr (last, e) ↦
      rw (expected_seq, e)
        (is_discarded_fresh last.sequence_number n (subst (Accepts n) e h).0 hn
          (subst (Accepts n) e h).1)
]

module _ {U : Type 0} ⦃crate : UuidCrate U⦄ where
  -- The table with one number stored.
  unfoldable pub put :
      U
      → ℕ
      → TimedStampedSeqNo
      → (U → ℕ → Option TimedStampedSeqNo)
      → U
      → ℕ
      → Option TimedStampedSeqNo
  put cid universe v table c u =
      ite (crate.equal cid c) (ite (ℕ_discrete universe u) (some v) (table c u)) (table c u)

  pub put_same :
      (cid : U) (universe : ℕ) (v : TimedStampedSeqNo) (s t : U → ℕ → Option TimedStampedSeqNo)
      (c : U) (u : ℕ)
      → s c u ≡ t c u
      → put cid universe v s c u ≡ put cid universe v t c u
  unfolding put
  put_same cid universe v s t c u e = rw e

  pub last_seq-insert :
      (s : Sequences U) (cid : U) (us : Universes) (universe : ℕ) (v : TimedStampedSeqNo) (c : U)
      (u : ℕ)
      → get crate.equal cid s ≡ some us
      → last_seq (insert crate.equal cid (insert ℕ_discrete universe v us) s) c u
        ≡ put cid universe v (last_seq s) c u
  unfolding put in_universe
  last_seq-insert s cid us universe v c u e = ground (
    arith,
    get-insert crate.equal cid c (insert ℕ_discrete universe v us) s,
    get-insert ℕ_discrete universe u v us,
  )

  -- The source is known, or there is room for it.
  abbrev pub HasPlace : Option ℕ → U → Sequences U → Type 0
  HasPlace limit cid s = (get crate.equal cid s ≢ none) ⊎ (has_room limit s ≡ true)

  pub add_source_known :
      (limit : Option ℕ) (cid : U) (s : Sequences U) {us : Universes}
      → get crate.equal cid s ≡ some us
      → add_source limit cid s ≡ (ok tt, s)
  unfolding add_source
  add_source_known limit cid s e = rw (add_source, e)

  pub add_source_new :
      (limit : Option ℕ) (cid : U) (s : Sequences U)
      → get crate.equal cid s ≡ none
      → has_room limit s ≡ true
      → add_source limit cid s ≡ (ok tt, insert crate.equal cid [] s)
  unfolding add_source
  add_source_new limit cid s e room = rw (add_source, e, room)

  pub insert_empty-last_seq :
      (cid : U) (s : Sequences U) (c : U) (u : ℕ)
      → get crate.equal cid s ≡ none
      → last_seq (insert crate.equal cid [] s) c u ≡ last_seq s c u
  unfolding in_universe get
  insert_empty-last_seq cid s c u e = ground (arith, get-insert crate.equal cid c [] s)

  pub accept_seq_fresh :
      (now : ℕ) (cid : U) (n universe : ℕ) (s : Sequences U) {us : Universes}
      → get crate.equal cid s ≡ some us
      → is_discarded (as_i8 (wrapping_sub n (expected_seq now n universe us).sequence_number))
        ≡ false
      → accept_seq now cid n universe s ≡ (
        ok tt,
        insert crate.equal cid
            (insert ℕ_discrete universe (record { sequence_number = n; last_recv = now }) us)
            s,
      )
  unfolding accept_seq
  accept_seq_fresh now cid n universe s e d = rw (accept_seq, e, d)

  pub accept_seq_stale :
      (now : ℕ) (cid : U) (n universe : ℕ) (s : Sequences U) {us : Universes}
      {last : TimedStampedSeqNo}
      → get crate.equal cid s ≡ some us
      → get ℕ_discrete universe us ≡ some last
      → is_discarded (as_i8 (wrapping_sub n last.sequence_number)) ≡ true
      → accept_seq now cid n universe s ≡ (
        err (out_of_sequence n last.sequence_number (as_i8 (wrapping_sub n last.sequence_number))),
        s,
      )
  unfolding accept_seq expected_seq
  accept_seq_stale now cid n universe s e l d = rw (accept_seq, expected_seq, e, l, d)

  -- The sources and universes after the timeouts.
  abbrev pub expired : ℕ → Sequences U → Sequences U
  expired now s = (check_timeouts now e131_network_data_loss_timeout false s).1

  abbrev pub live_seq : ℕ → Sequences U → U → ℕ → Option TimedStampedSeqNo
  live_seq now s cid universe = live now e131_network_data_loss_timeout (last_seq s cid universe)

  abbrev pub check : ℕ → Option ℕ → U → ℕ → ℕ → Sequences U → Result U (Unit {0}) × Sequences U
  check now limit cid n universe s = check_seq_number now limit cid n universe false s

  pub check_step :
      (now : ℕ) (limit : Option ℕ) (cid : U) (n universe : ℕ) (s : Sequences U) {s2 : Sequences U}
      → add_source limit cid (expired now s) ≡ (ok tt, s2)
      → check now limit cid n universe s ≡ accept_seq now cid n universe s2
  unfolding check_seq_number check_timeouts
  check_step now limit cid n universe s e =
      bind_ok (check_timeouts now e131_network_data_loss_timeout false)
        (λ _. add_source limit cid >> accept_seq now cid n universe) refl
      ∙ bind_ok (add_source limit cid) (λ _. accept_seq now cid n universe) e

  pub add_source_place :
      (limit : Option ℕ) (cid : U) (s : Sequences U)
      → IsTable s
      → HasPlace limit cid s
      → (s2 : Sequences U) × (us : Universes) × (add_source limit cid s ≡ (ok tt, s2))
        × IsTable s2
        × (get crate.equal cid s2 ≡ some us)
        × ((c : U) (u : ℕ) → last_seq s2 c u ≡ last_seq s c u)
  unfolding HasDistinctKeys
  add_source_place limit cid s h place = elim (Option-cases (get crate.equal cid s)) [
    | inr (us, e) ↦ (s, us, add_source_known limit cid s e, h, e, λ c u. refl)
    | inl e ↦ (
      insert crate.equal cid [] s,
      [],
      add_source_new limit cid s e
          (elim place [ inl known ↦ elim (known e) [ ] | inr room ↦ room ]),
      insert-IsTable s cid [] h tt,
      get-insert_self crate.equal cid [] s,
      λ c u. insert_empty-last_seq cid s c u e,
    )
  ]

  pub accept_seq_place :
      (now : ℕ) (cid : U) (n universe : ℕ) (s : Sequences U) (us : Universes)
      → IsTable s
      → IsByte n
      → get crate.equal cid s ≡ some us
      → Accepts n (last_seq s cid universe)
      → (s2 : Sequences U) × (accept_seq now cid n universe s ≡ (ok tt, s2))
        × IsTable s2
        × ((c : U) (u : ℕ)
            → last_seq s2 c u
              ≡ put cid universe (record { sequence_number = n; last_recv = now }) (last_seq s) c u)
  unfolding in_universe
  accept_seq_place now cid n universe s us h hn e fresh =
      let v : TimedStampedSeqNo = record { sequence_number = n; last_recv = now } in
      (
        insert crate.equal cid (insert ℕ_discrete universe v us) s,
        accept_seq_fresh now cid n universe s e (
            not_discarded now n universe us hn
              (subst (λ o. Accepts n (in_universe universe o)) e fresh)),
        insert-IsTable s cid (insert ℕ_discrete universe v us) h
            (insert-HasDistinctKeys ℕ_discrete universe v us (get-IsTable s cid us h e)),
        λ c u. last_seq-insert s cid us universe v c u e,
      )
