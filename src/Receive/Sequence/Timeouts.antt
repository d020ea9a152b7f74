-- ===== src/Receive/Sequence/Timeouts.antt =====
-- The announcing of timeouts by `check_timeouts` of src/receive.rs.
use sacn_rust.Common.{
  All, ◌<◌, ◌≢◌, sym, ◌∙◌, ℕ, ◌-◌, ◌≤◌, ◌≡◌, ◌⊎◌, true, Option, none, some, [], ◌∷◌, ok, err,
  ℕ_discrete, Option-cases, inl, inr, ap, subst, leb→le,
}
use sacn_rust.Common.HashMap.{get}
use sacn_rust.Common.HashMap.Keys.{get-head, get-tail, HasDistinctKeys}
use sacn_rust.Error.{universe_timeout}
use sacn_rust.External.{UuidCrate}
use sacn_rust.Receive.Sequence.{
  TimedStampedSeqNo, Universes, Sequences, check_timeouts, remove_universe, find_timed_out,
  first_timed_out,
}
use sacn_rust.Receive.Sequence.Removal.{forget, remove_universe-IsTable, last_seq-remove_universe}
use sacn_rust.Receive.Sequence.Lookup.{
  IsTable, last_seq-some, in_universe-get, last_seq, in_universe,
}
use sacn_rust.Receive.Sequence.Finding.{
  some_inj, first_timed_out-some, first_timed_out-none, find_timed_out_here, find_timed_out_later,
  find_timed_out_stop,
}

module _ {U : Type 0} ⦃crate : UuidCrate U⦄ where
  -- The entry of a source and a universe, timed out.
  abbrev pub HasTimedOut : ℕ → ℕ → Sequences U → U → ℕ → Type 0
  HasTimedOut now timeout s src uni =
      (t : TimedStampedSeqNo) × (last_seq s src uni ≡ some t) × (timeout ≤ now - t.last_recv)

  timed_out_later :
      (now timeout : ℕ) (j src : U) (us : Universes) (rest : Sequences U) (uni : ℕ)
      → get crate.equal j rest ≡ none
      → HasTimedOut now timeout rest src uni
      → HasTimedOut now timeout ((j, us) ∷ rest) src uni
  timed_out_later now timeout j src us rest uni p (t, l, late) =
      let (us2, g, k) = last_seq-some rest src uni l in
      (
        t,
        ap (in_universe uni) (get-tail crate.equal src j us us2 rest p g)
            ∙ in_universe-get uni us2
            ∙ k,
        late,
      )

  timed_out_here :
      (now timeout : ℕ) (j : U) (us : Universes) (rest : Sequences U) (uni : ℕ)
      → HasDistinctKeys ℕ_discrete us
      → first_timed_out now timeout us ≡ some uni
      → HasTimedOut now timeout ((j, us) ∷ rest) j uni
  timed_out_here now timeout j us rest uni r e =
      let (t, g, late) = first_timed_out-some now timeout uni us r e in
      (
        t,
        ap (in_universe uni) (get-head crate.equal j us rest) ∙ in_universe-get uni us ∙ g,
        leb→le timeout (now - t.last_recv) late,
      )

  find_timed_out-some :
      (now timeout : ℕ) (s : Sequences U) (found : Option (U × ℕ)) (src : U) (uni : ℕ)
      → IsTable s
      → find_timed_out now timeout s found ≡ some (src, uni)
      → (found ≡ some (src, uni)) ⊎ HasTimedOut now timeout s src uni
  unfolding find_timed_out IsTable
  find_timed_out-some now timeout [] found src uni h e = inl e
  find_timed_out-some now timeout ((j, us) ∷ rest) found src uni (p, r, h) e =
      elim (Option-cases (first_timed_out now timeout us)) [
        | inl b ↦ elim (Option-cases found) [
          | inl f ↦ cc (find_timed_out_stop now timeout j us rest b)
          | inr (f, q) ↦
              elim (find_timed_out-some now timeout rest (some f) src uni h (
                sym (find_timed_out_later now timeout j us rest f b)
                ∙ subst (λ o. find_timed_out now timeout ((j, us) ∷ rest) o ≡ some (src, uni)) q
                    e)) [
                      | inl y ↦ inl (q ∙ y)
                      | inr x ↦ inr (timed_out_later now timeout j src us rest uni p x)
                    ]
        ]
        | inr (u, b) ↦
            elim (find_timed_out-some now timeout rest (some (j, u)) src uni h
              (sym (find_timed_out_here now timeout j us rest found u b) ∙ e)) [
                | inl same ↦ inr (
                    subst (λ k. HasTimedOut now timeout ((j, us) ∷ rest) k.0 k.1) (some_inj same)
                      (timed_out_here now timeout j us rest u r b))
                | inr x ↦ inr (timed_out_later now timeout j src us rest uni p x)
              ]
      ]

  -- Once one is found, one is reported.
  find_timed_out-found :
      (now timeout : ℕ) (s : Sequences U) (f : U × ℕ) → find_timed_out now timeout s (some f) ≢ none
  unfolding find_timed_out
  find_timed_out-found now timeout [] f e = cc
  find_timed_out-found now timeout ((j, us) ∷ rest) f e =
      elim (Option-cases (first_timed_out now timeout us)) [
        | inl b ↦
            find_timed_out-found now timeout rest f
              (sym (find_timed_out_later now timeout j us rest f b) ∙ e)
        | inr (u, b) ↦
            find_timed_out-found now timeout rest (j, u)
              (sym (find_timed_out_here now timeout j us rest (some f) u b) ∙ e)
      ]

  -- The first source that the check comes to, if any, has no universe as old as the timeout.
  abbrev pub FirstIsAlive : ℕ → ℕ → Sequences U → Type 0
  FirstIsAlive now timeout [] = Unit {0}
  FirstIsAlive now timeout ((src, us) ∷ rest) =
      All (λ (e : ℕ × TimedStampedSeqNo). now - (e.1).last_recv < timeout) us

  find_timed_out-none :
      (now timeout : ℕ) (s : Sequences U)
      → find_timed_out now timeout s none ≡ none
      → FirstIsAlive now timeout s
  find_timed_out-none now timeout [] e = tt
  find_timed_out-none now timeout ((j, us) ∷ rest) e =
      elim (Option-cases (first_timed_out now timeout us)) [
        | inl b ↦ first_timed_out-none now timeout us b
        | inr (u, b) ↦ absurd (
            find_timed_out-found now timeout rest (j, u)
              (sym (find_timed_out_here now timeout j us rest none u b) ∙ e))
      ]

  -- What an announcing check of the timeouts comes to: nothing, or the report of one universe, which
  -- is forgotten.
  pub data Announcement (now timeout : ℕ) (s : Sequences U) : Type 0 where
    quiet :
        check_timeouts now timeout true s ≡ (ok tt, s)
        → FirstIsAlive now timeout s
        → Announcement now timeout s
    reported :
        (src : U) (uni : ℕ) (left : Sequences U)
        → check_timeouts now timeout true s ≡ (err (universe_timeout src uni), left)
        → HasTimedOut now timeout s src uni
        → IsTable left
        → ((c : U) (u : ℕ) → last_seq left c u ≡ forget src uni (last_seq s) c u)
        → Announcement now timeout s

  -- An announcing `check_timeouts` either changes nothing and succeeds, and the first source that
  -- it comes to, if any, has no universe whose last number is `timeout` old, or it reports with
  -- `UniverseTimeout` a source and universe whose last number is at least `timeout` old, forgets
  -- that number and no other, and keeps one entry for each key.
  pub check_timeouts-Announcement :
      (now timeout : ℕ) (s : Sequences U) → IsTable s → Announcement now timeout s
  unfolding check_timeouts
  check_timeouts-Announcement now timeout s h =
      elim (Option-cases (find_timed_out now timeout s none)) [
        | inl e ↦ quiet (rw (check_timeouts, e)) (find_timed_out-none now timeout s e)
        | inr ((src, uni), e) ↦ elim (find_timed_out-some now timeout s none src uni h e) [
          | inl absurd ↦ cc
          | inr (t, l, late) ↦
              let (us, g, _) = last_seq-some s src uni l in
              reported src uni (remove_universe s src uni us) (rw (check_timeouts, e, g))
                (t, l, late) (remove_universe-IsTable s src uni us h g)
                λ c u. last_seq-remove_universe s src uni us c u h g
        ]
      ]

  -- An announcing `check_timeouts` succeeds and changes nothing when the first source that it comes
  -- to has no universe that timed out, whatever the other sources have.
  pub check_timeouts-first_alive :
      (now timeout : ℕ) (src : U) (us : Universes) (rest : Sequences U)
      → first_timed_out now timeout us ≡ none
      → check_timeouts now timeout true ((src, us) ∷ rest) ≡ (ok tt, (src, us) ∷ rest)
  unfolding check_timeouts
  check_timeouts-first_alive now timeout src us rest e =
      rw (check_timeouts, find_timed_out_stop now timeout src us rest e)
