-- ===== src/Receive/Sequence/Finding.antt =====
-- The two loops of `check_timeouts` (src/receive.rs) that look for a universe that has timed out.
use sacn_rust.Common.{
  All, ◌<◌, sym, ◌∙◌, ℕ, ◌-◌, ◌≡◌, true, false, Option, none, some, [], ◌∷◌, ℕ_discrete, inl, inr,
  subst, Bool-cases,
}
use sacn_rust.Common.HashMap.{get}
use sacn_rust.Common.HashMap.Keys.{get-head, get-tail, HasDistinctKeys}
use sacn_rust.Receive.Sequence.{
  TimedStampedSeqNo, Universes, Sequences, find_timed_out, first_timed_out, is_timed_out,
}
use sacn_rust.Receive.Sequence.Lookup.{leb-lt}

pub some_inj : {A : Type 0} {a b : A} → some a ≡ some b → a ≡ b
some_inj e = cc

pub first_timed_out_here :
    (now timeout j : ℕ) (t : TimedStampedSeqNo) (us : Universes)
    → is_timed_out now timeout t ≡ true
    → first_timed_out now timeout ((j, t) ∷ us) ≡ some j
unfolding first_timed_out
first_timed_out_here now timeout j t us e = rw (first_timed_out, e)

pub first_timed_out_later :
    (now timeout j : ℕ) (t : TimedStampedSeqNo) (us : Universes)
    → is_timed_out now timeout t ≡ false
    → first_timed_out now timeout ((j, t) ∷ us) ≡ first_timed_out now timeout us
unfolding first_timed_out
first_timed_out_later now timeout j t us e = rw (first_timed_out, e)

-- A universe that is found has timed out.
pub first_timed_out-some :
    (now timeout uni : ℕ) (us : Universes)
    → HasDistinctKeys ℕ_discrete us
    → first_timed_out now timeout us ≡ some uni
    → (t : TimedStampedSeqNo) × (get ℕ_discrete uni us ≡ some t)
      × (is_timed_out now timeout t ≡ true)
unfolding first_timed_out get HasDistinctKeys
first_timed_out-some now timeout uni [] h e = cc
first_timed_out-some now timeout uni ((j, t) ∷ us) (p, h) e =
    elim (Bool-cases (is_timed_out now timeout t)) [
      | inl b ↦ (
        t,
        subst (λ k. get ℕ_discrete k ((j, t) ∷ us) ≡ some t)
            (some_inj (sym (first_timed_out_here now timeout j t us b) ∙ e))
            (get-head ℕ_discrete j t us),
        b,
      )
      | inr b ↦
          let (t2, g, b2) =
            first_timed_out-some now timeout uni us h
              (sym (first_timed_out_later now timeout j t us b) ∙ e) in
          (t2, get-tail ℕ_discrete uni j t t2 us p g, b2)
    ]

pub first_timed_out-none :
    (now timeout : ℕ) (us : Universes)
    → first_timed_out now timeout us ≡ none
    → All (λ (e : ℕ × TimedStampedSeqNo). now - (e.1).last_recv < timeout) us
first_timed_out-none now timeout [] e = tt
first_timed_out-none now timeout ((j, t) ∷ us) e = elim (Bool-cases (is_timed_out now timeout t)) [
  | inl b ↦ cc (first_timed_out_here now timeout j t us b)
  | inr b ↦ (
    leb-lt timeout (now - t.last_recv) b,
    first_timed_out-none now timeout us (sym (first_timed_out_later now timeout j t us b) ∙ e),
  )
]

module _ {U : Type 0} where
  pub find_timed_out_here :
      (now timeout : ℕ) (j : U) (us : Universes) (rest : Sequences U) (found : Option (U × ℕ))
      (u : ℕ)
      → first_timed_out now timeout us ≡ some u
      → find_timed_out now timeout ((j, us) ∷ rest) found
        ≡ find_timed_out now timeout rest (some (j, u))
  unfolding find_timed_out
  find_timed_out_here now timeout j us rest found u e = rw (find_timed_out, e)

  pub find_timed_out_later :
      (now timeout : ℕ) (j : U) (us : Universes) (rest : Sequences U) (f : U × ℕ)
      → first_timed_out now timeout us ≡ none
      → find_timed_out now timeout ((j, us) ∷ rest) (some f)
        ≡ find_timed_out now timeout rest (some f)
  unfolding find_timed_out
  find_timed_out_later now timeout j us rest f e = rw (find_timed_out, e)

  -- The loop ends at a source without a timed out universe, when it has found none before.
  pub find_timed_out_stop :
      (now timeout : ℕ) (j : U) (us : Universes) (rest : Sequences U)
      → first_timed_out now timeout us ≡ none
      → find_timed_out now timeout ((j, us) ∷ rest) none ≡ none
  unfolding find_timed_out
  find_timed_out_stop now timeout j us rest e = rw (find_timed_out, e)
