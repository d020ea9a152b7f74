-- ===== src/Session/Sources.antt =====
-- The discovered sources of a receiver (src/receive.rs), one for each CID: what
-- `update_discovered_srcs` makes of them.
use sacn_rust.Common.{
  All, arith, ◌≡◌, ◌≢◌, refl, sym, subst, inl, inr, none, some, ℕ, zero, suc, List, [], ◌∷◌,
  Option-cases,
}
use mathlib.Core.Logic.{ite}
use sacn_rust.External.{UuidCrate}
use sacn_rust.Receive.Discovery.{DiscoveredSacnSource, find_discovered_src, remove_at}
use sacn_rust.Receive.Handlers.{update_discovered_srcs, push}

module _ {U : Type 0} where
  unfoldable pub HasDistinctCids : List (DiscoveredSacnSource U) → Type 0
  HasDistinctCids [] = Unit
  HasDistinctCids (x ∷ xs) =
      All (λ (s : DiscoveredSacnSource U). x.cid ≢ s.cid) xs × HasDistinctCids xs

module _ {U : Type 0} ⦃crate : UuidCrate U⦄ where
  -- The sources with another CID.
  unfoldable pub others : U → List (DiscoveredSacnSource U) → List (DiscoveredSacnSource U)
  others cid [] = []
  others cid (x ∷ xs) = let rest = others cid xs in ite (crate.equal cid x.cid) rest (x ∷ rest)

  others-absent :
      (cid : U) (xs : List (DiscoveredSacnSource U))
      → All (λ (s : DiscoveredSacnSource U). cid ≢ s.cid) xs
      → others cid xs ≡ xs
  unfolding others
  others-absent cid [] h = refl
  others-absent cid (x ∷ xs) (n, h) = ground (arith, others-absent cid xs h)

  others-none :
      (cid : U) (xs : List (DiscoveredSacnSource U))
      → find_discovered_src xs cid ≡ none
      → others cid xs ≡ xs
  unfolding others find_discovered_src
  others-none cid [] e = refl
  others-none cid (x ∷ xs) e = ground (arith, others-none cid xs)

  absent-subst :
      (c cid : U) (xs : List (DiscoveredSacnSource U))
      → All (λ (s : DiscoveredSacnSource U). c ≢ s.cid) xs
      → cid ≡ c
      → All (λ (s : DiscoveredSacnSource U). cid ≢ s.cid) xs
  absent-subst c cid xs h e =
      subst (λ k. All (λ (s : DiscoveredSacnSource U). k ≢ s.cid) xs) (sym e) h

  remove_at-others :
      (cid : U) (xs : List (DiscoveredSacnSource U)) (i : ℕ)
      → HasDistinctCids xs
      → find_discovered_src xs cid ≡ some i
      → remove_at i xs ≡ others cid xs
  unfolding others find_discovered_src remove_at HasDistinctCids
  remove_at-others cid [] i h e = cc
  remove_at-others cid (x ∷ xs) zero (n, h) e =
      ground (arith, absent-subst x.cid cid xs n, others-absent cid xs)
  remove_at-others cid (x ∷ xs) (suc i) (n, h) e = ground (arith, remove_at-others cid xs i h)

  pub update_discovered_srcs-others :
      (src : DiscoveredSacnSource U) (xs : List (DiscoveredSacnSource U))
      → HasDistinctCids xs
      → update_discovered_srcs src xs ≡ push src (others src.cid xs)
  unfolding update_discovered_srcs
  update_discovered_srcs-others src xs h = elim (Option-cases (find_discovered_src xs src.cid)) [
    | inl e ↦ rw (update_discovered_srcs, e, others-none src.cid xs e) refl
    | inr (i, e) ↦ rw (update_discovered_srcs, e, remove_at-others src.cid xs i h e) refl
  ]
