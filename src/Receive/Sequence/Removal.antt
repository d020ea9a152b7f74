-- ===== src/Receive/Sequence/Removal.antt =====
-- The removal of a universe of a source from the sequence numbers of src/receive.rs.
use sacn_rust.Common.{
  ℕ, ◌≡◌, ◌⊎◌, true, Option, none, some, [], ◌∷◌, ok, err, ℕ_discrete, arith, Option-cases, inl,
  inr, ap, subst, refl, ◌∙◌, sym,
}
use mathlib.Core.Logic.{ite}
use sacn_rust.Common.HashMap.{get, remove, get-insert, get-remove}
use sacn_rust.Common.HashMap.Keys.{remove-HasDistinctKeys}
use sacn_rust.Error.{universe_not_found, source_not_found}
use sacn_rust.External.{UuidCrate}
use sacn_rust.Receive.Sequence.{
  TimedStampedSeqNo, Universes, Sequences, remove_universe, is_empty, remove_source_universe_seq,
}
use sacn_rust.Receive.Sequence.Lookup.{
  last_seq-some, IsTable, last_seq, in_universe, insert-IsTable, remove-IsTable, get-IsTable,
}

get-is_empty : (u : ℕ) (us : Universes) → is_empty us ≡ true → get ℕ_discrete u us ≡ none
unfolding get
get-is_empty u [] e = refl
get-is_empty u (x ∷ us) e = cc

module _ {U : Type 0} ⦃crate : UuidCrate U⦄ where
  -- The table without one number.
  unfoldable pub forget :
      U → ℕ → (U → ℕ → Option TimedStampedSeqNo) → U → ℕ → Option TimedStampedSeqNo
  forget cid universe table c u =
      ite (crate.equal cid c) (ite (ℕ_discrete universe u) none (table c u)) (table c u)

  pub remove_universe-IsTable :
      (s : Sequences U) (src : U) (uni : ℕ) (us : Universes)
      → IsTable s
      → get crate.equal src s ≡ some us
      → IsTable (remove_universe s src uni us)
  unfolding remove_universe
  remove_universe-IsTable s src uni us h e = ground (
    arith,
    remove-IsTable s src h,
    insert-IsTable s src (remove ℕ_discrete uni us) h
        (remove-HasDistinctKeys ℕ_discrete uni us (get-IsTable s src us h e)),
  )

  pub last_seq-remove_universe :
      (s : Sequences U) (src : U) (uni : ℕ) (us : Universes) (c : U) (u : ℕ)
      → IsTable s
      → get crate.equal src s ≡ some us
      → last_seq (remove_universe s src uni us) c u ≡ forget src uni (last_seq s) c u
  unfolding remove_universe forget in_universe
  last_seq-remove_universe s src uni us c u h e = ground (
    arith,
    get-remove crate.equal src c s,
    get-insert crate.equal src c (remove ℕ_discrete uni us) s,
    get-remove ℕ_discrete uni u us,
    get-is_empty u (remove ℕ_discrete uni us),
  )

  -- Removing a universe of a source that has a last number succeeds, forgets that number and no
  -- other, and keeps one entry for each key.
  pub remove_source_universe_seq_known :
      (cid : U) (universe : ℕ) (s : Sequences U) (t : TimedStampedSeqNo)
      → IsTable s
      → last_seq s cid universe ≡ some t
      → ((remove_source_universe_seq cid universe s).0 ≡ ok tt)
        × IsTable ((remove_source_universe_seq cid universe s).1)
        × ((c : U) (u : ℕ)
            → last_seq ((remove_source_universe_seq cid universe s).1) c u
              ≡ forget cid universe (last_seq s) c u)
  unfolding remove_source_universe_seq
  remove_source_universe_seq_known cid universe s t h l =
      let (us, g, k) = last_seq-some s cid universe l in
      let r : remove_source_universe_seq cid universe s
          ≡ (ok tt, remove_universe s cid universe us) =
        rw (remove_source_universe_seq, g, k) in
      (
        ap (λ r. r.0) r,
        subst (λ r. IsTable r.1) (sym r) (remove_universe-IsTable s cid universe us h g),
        λ c u. ap (λ r. last_seq r.1 c u) r ∙ last_seq-remove_universe s cid universe us c u h g,
      )

  -- One that is not changes nothing: the call fails.
  pub remove_source_universe_seq_unknown :
      (cid : U) (universe : ℕ) (s : Sequences U)
      → last_seq s cid universe ≡ none
      → ((remove_source_universe_seq cid universe s) ≡ (err (source_not_found cid), s))
        ⊎ ((remove_source_universe_seq cid universe s) ≡ (err (universe_not_found universe), s))
  unfolding remove_source_universe_seq in_universe
  remove_source_universe_seq_unknown cid universe s l =
      elim (Option-cases (get crate.equal cid s)) [
        | inl g ↦ inl (rw (remove_source_universe_seq, g))
        | inr (us, g) ↦
            inr (rw (remove_source_universe_seq, g, sym (ap (in_universe universe) g) ∙ l))
      ]
