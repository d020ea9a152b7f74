-- ===== src/Receive/Sequence/Lookup.antt =====
-- The sequence numbers as a table: the last number of each source and universe. What the
-- operations on the nested maps do to it.
use sacn_rust.Common.{
  leb, subst, ◌↔◌, ◌-◌, ◌<◌, sym, Bool-cases, leb→le, ◌∙◌, inl, inr, ℕ, ◌≡◌, refl, Bool, false, not,
  Option, none, some, [], ◌∷◌, ok, ℕ_discrete, arith, Option-cases,
}
use sacn_rust.Common.HashMap.{get, insert, remove, retain, get-insert, get-remove}
use sacn_rust.Common.HashMap.Keys.{
  keep, HasDistinctKeys, retain-HasDistinctKeys, get-retain, get-retain_absent,
}
use sacn_rust.External.{UuidCrate}
use sacn_rust.Receive.Sequence.{
  check_timeouts, TimedStampedSeqNo, Universes, Sequences, is_timed_out, is_empty, expire,
}

-- What a check of the timeouts leaves in the table.
abbrev pub live : ℕ → ℕ → Option TimedStampedSeqNo → Option TimedStampedSeqNo
live now timeout = keep (λ t. not (is_timed_out now timeout t))

unfoldable pub in_universe : ℕ → Option Universes → Option TimedStampedSeqNo
in_universe universe none = none
in_universe universe (some universes) = get ℕ_discrete universe universes

pub in_universe-get :
    (universe : ℕ) (us : Universes) → in_universe universe (some us) ≡ get ℕ_discrete universe us
unfolding in_universe
in_universe-get universe us = refl

-- A source without universes may go: it has no number in the table.
get-keep_nonempty :
    (universe : ℕ) (us : Universes)
    → in_universe universe (keep (λ us. not (is_empty us)) (some us)) ≡ get ℕ_discrete universe us
unfolding keep get in_universe
get-keep_nonempty universe [] = refl
get-keep_nonempty universe (x ∷ us) = refl

-- One entry for a source, and in it one for a universe.
module _ {U : Type 0} ⦃crate : UuidCrate U⦄ where
  unfoldable pub IsTable : Sequences U → Type 0
  IsTable [] = Unit
  IsTable ((src, universes) ∷ rest) =
      (get crate.equal src rest ≡ none) × HasDistinctKeys ℕ_discrete universes × IsTable rest

  abbrev pub last_seq : Sequences U → U → ℕ → Option TimedStampedSeqNo
  last_seq s cid universe = in_universe universe (get crate.equal cid s)

  pub get-IsTable :
      (s : Sequences U) (cid : U) (universes : Universes)
      → IsTable s
      → get crate.equal cid s ≡ some universes
      → HasDistinctKeys ℕ_discrete universes
  unfolding IsTable get
  get-IsTable [] cid universes h e = cc
  get-IsTable ((src, us) ∷ rest) cid universes (p, q, h) e =
      ground (arith, get-IsTable rest cid universes h)

  pub insert-IsTable :
      (s : Sequences U) (cid : U) (universes : Universes)
      → IsTable s
      → HasDistinctKeys ℕ_discrete universes
      → IsTable (insert crate.equal cid universes s)
  unfolding IsTable insert get HasDistinctKeys
  insert-IsTable [] cid universes h q = (refl, q, tt)
  insert-IsTable ((src, us) ∷ rest) cid universes (p, r, h) q =
      ground (
        arith,
        insert-IsTable rest cid universes h q,
        get-insert crate.equal cid src universes rest,
      )

  pub remove-IsTable : (s : Sequences U) (cid : U) → IsTable s → IsTable (remove crate.equal cid s)
  unfolding IsTable remove
  remove-IsTable [] cid h = tt
  remove-IsTable ((src, us) ∷ rest) cid (p, r, h) =
      ground (arith, remove-IsTable rest cid h, get-remove crate.equal cid src rest)

  pub retain-IsTable :
      (test : Universes → Bool) (s : Sequences U) → IsTable s → IsTable (retain test s)
  unfolding IsTable retain
  retain-IsTable test [] h = tt
  retain-IsTable test ((src, us) ∷ rest) (p, r, h) =
      ground (arith, retain-IsTable test rest h, get-retain_absent crate.equal test src rest)

  get-expire :
      (now timeout : ℕ) (cid : U) (s : Sequences U)
      → get crate.equal cid (expire now timeout s) ≡ elim (get crate.equal cid s) [
        | none ↦ none
        | some us ↦ some (retain (λ t. not (is_timed_out now timeout t)) us)
      ]
  unfolding expire get
  get-expire now timeout cid [] = refl
  get-expire now timeout cid ((src, us) ∷ rest) = ground (arith, get-expire now timeout cid rest)

  expire-IsTable : (now timeout : ℕ) (s : Sequences U) → IsTable s → IsTable (expire now timeout s)
  unfolding IsTable expire
  expire-IsTable now timeout [] h = tt
  expire-IsTable now timeout ((src, us) ∷ rest) (p, r, h) = (
    rw (get-expire now timeout src rest, p),
    retain-HasDistinctKeys ℕ_discrete _ us r,
    expire-IsTable now timeout rest h,
  )

  IsTable-HasDistinctKeys : (s : Sequences U) → IsTable s → HasDistinctKeys crate.equal s
  unfolding IsTable HasDistinctKeys
  IsTable-HasDistinctKeys [] h = tt
  IsTable-HasDistinctKeys (x ∷ rest) (p, r, h) = (p, IsTable-HasDistinctKeys rest h)

  pub check_timeouts-live :
      (now timeout : ℕ) (s : Sequences U) (cid : U) (universe : ℕ)
      → IsTable s
      → ((check_timeouts now timeout false s).0 ≡ ok tt)
        × IsTable ((check_timeouts now timeout false s).1)
        × (last_seq ((check_timeouts now timeout false s).1) cid universe
            ≡ live now timeout (last_seq s cid universe))
  unfolding check_timeouts keep in_universe
  check_timeouts-live now timeout s cid universe h =
      let t = expire-IsTable now timeout s h in
      (
        refl,
        retain-IsTable (λ universes. not (is_empty universes)) _ t,
        rw
            (
              get-retain crate.equal (λ us. not (is_empty us)) cid (expire now timeout s)
                  (IsTable-HasDistinctKeys (expire now timeout s) t),
              get-expire now timeout cid s,
            )
            (elim (Option-cases (get crate.equal cid s)) [
              | inl e ↦ rw e refl
              | inr (us, e) ↦ rw e (
                  get-keep_nonempty universe (retain (λ t. not (is_timed_out now timeout t)) us)
                  ∙ get-retain ℕ_discrete _ universe us (get-IsTable s cid us h e))
            ]),
      )

  pub last_seq-some :
      (s : Sequences U) (cid : U) (universe : ℕ) {t : TimedStampedSeqNo}
      → last_seq s cid universe ≡ some t
      → (us : Universes) × (get crate.equal cid s ≡ some us) × (get ℕ_discrete universe us ≡ some t)
  unfolding in_universe
  last_seq-some s cid universe e = elim (Option-cases (get crate.equal cid s)) [
    | inl p ↦ cc
    | inr (us, p) ↦ (us, p, cc)
  ]

pub leb-lt : (a b : ℕ) → leb a b ≡ false → b < a
leb-lt a b e = ground arith

-- What stays in the table is what is younger than the timeout.
live-some :
    (now timeout : ℕ) (o : Option TimedStampedSeqNo) (t : TimedStampedSeqNo)
    → (live now timeout o ≡ some t) ↔ ((o ≡ some t) × (now - t.last_recv < timeout))
unfolding keep
live-some now timeout none t = (λ e. cc, λ k. cc)
live-some now timeout (some x) t = elim (Bool-cases (is_timed_out now timeout x)) [
  | inl late ↦
      let gone : live now timeout (some x) ≡ none = rw (live, late) in
      let old = leb→le timeout (now - x.last_recv) late in
      (
        λ e. cc,
        λ (e, young).
            let same : x.last_recv ≡ t.last_recv = cc in absurd (omega (arith, old, young, same)),
      )
  | inr early ↦
      let kept : live now timeout (some x) ≡ some x = rw (live, early) in
      (
        λ e.
            let same : x ≡ t = cc in
            (
              cc,
              subst (λ t. now - t.last_recv < timeout) same
                  (leb-lt timeout (now - x.last_recv) early),
            ),
        λ (e, young). kept ∙ e,
      )
]

module _ {U : Type 0} ⦃crate : UuidCrate U⦄ where
  -- Without announcing, `check_timeouts` succeeds, keeps one entry for each key, and the last
  -- number of a source and universe after it is a given one exactly when it was that before and is
  -- less than `timeout` old.
  pub check_timeouts-last_seq :
      (now timeout : ℕ) (s : Sequences U) (cid : U) (universe : ℕ) (t : TimedStampedSeqNo)
      → IsTable s
      → ((check_timeouts now timeout false s).0 ≡ ok tt)
        × IsTable ((check_timeouts now timeout false s).1)
        × ((last_seq ((check_timeouts now timeout false s).1) cid universe ≡ some t)
            ↔ ((last_seq s cid universe ≡ some t) × (now - t.last_recv < timeout)))
  check_timeouts-last_seq now timeout s cid universe t h =
      let (succeeds, table, same) = check_timeouts-live now timeout s cid universe h in
      let (to, from) = live-some now timeout (last_seq s cid universe) t in
      (succeeds, table, (λ e. to (sym same ∙ e), λ k. same ∙ from k))
