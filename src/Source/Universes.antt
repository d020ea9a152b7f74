-- ===== src/Source/Universes.antt =====
-- The universes that a source of src/source.rs has registered.
use sacn_rust.Error.{universe_not_found}
use sacn_rust.Packet.Universe.{is_universe_in_range}
use sacn_rust.Common.State.{and_then-eq-ok, and_then_keeps, lift}
use sacn_rust.Common.{
  ◌∙◌, sym, ap, subst, inl, inr, ok, err, Bool-cases, ℕ, ◌==◌, ◌≡◌, refl, true, false, List, [],
  ◌∷◌, if◌then◌else◌, arith, ℕ_discrete, eq→==, ne→==,
}
use sacn_rust.Receive.Receiver.{contains_universe, insert_universe}
use sacn_rust.Receive.Listening.{
  IsOrdered, insert_universe-IsOrdered, delete_universe-IsOrdered, contains-insert_universe,
  contains-delete_universe,
}
use sacn_rust.Source.{
  SacnSourceInternal, register_universe, register_universes, deregister_universe,
}

-- The universes after a registration.
abbrev with_universe : ℕ → List ℕ → List ℕ
with_universe u xs = if contains_universe u xs then xs else insert_universe u xs

with_universe-IsOrdered : (u : ℕ) (xs : List ℕ) → IsOrdered xs → IsOrdered (with_universe u xs)
with_universe-IsOrdered u xs h = elim (Bool-cases (contains_universe u xs)) [
  | inl e ↦ rw e h
  | inr e ↦ rw e (insert_universe-IsOrdered u xs e h)
]

contains-absent :
    (u v : ℕ) (xs : List ℕ)
    → contains_universe u xs ≡ false
    → contains_universe v xs ≡ (if u == v then false else contains_universe v xs)
contains-absent u v xs e = elim (ℕ_discrete u v) [
  | yes same ↦
      subst (λ w. contains_universe w xs ≡ (if u == w then false else contains_universe w xs)) same
        (rw (e, eq→== u u refl) refl)
  | no differ ↦ rw (ne→== u v differ) refl
]

module _ {S U : Type 0} where
  universes-register_universe :
      (u : ℕ) (self : SacnSourceInternal S U)
      → is_universe_in_range {U = U} u ≡ ok tt
      → ((register_universe u self).1).universes ≡ with_universe u self.universes
  unfolding register_universe
  universes-register_universe u self r = elim (Bool-cases (contains_universe u self.universes)) [
    | inl e ↦ rw (register_universe, r, e) refl
    | inr e ↦ rw (register_universe, r, e) refl
  ]

  pub register_universe-IsOrdered :
      (u : ℕ) (self : SacnSourceInternal S U)
      → IsOrdered self.universes
      → IsOrdered ((register_universe u self).1).universes
  unfolding register_universe
  register_universe-IsOrdered u self h =
      and_then_keeps (λ s. IsOrdered s.universes) (lift (is_universe_in_range u) self) _ h
        (λ _. elim (Bool-cases (contains_universe u self.universes)) [
          | inl e ↦ rw e h
          | inr e ↦ rw e (insert_universe-IsOrdered u self.universes e h)
        ])

  -- `register_universes` keeps the registered universes in increasing order, each once, which the
  -- binary search of the source relies on, also when it fails half way.
  pub register_universes-IsOrdered :
      (us : List ℕ) (self : SacnSourceInternal S U)
      → IsOrdered self.universes
      → IsOrdered ((register_universes us self).1).universes
  unfolding register_universes
  register_universes-IsOrdered [] self h = h
  register_universes-IsOrdered (u ∷ us) self h =
      let h1 = register_universe-IsOrdered u self h in
      and_then_keeps (λ s. IsOrdered s.universes) (register_universe u self)
        (λ _. register_universes us) h1
        λ _. register_universes-IsOrdered us ((register_universe u self).1) h1

  contains-register_universe :
      (u v : ℕ) (self : SacnSourceInternal S U)
      → (register_universe u self).0 ≡ ok tt
      → contains_universe v ((register_universe u self).1).universes
        ≡ (if u == v then true else contains_universe v self.universes)
  unfolding register_universe
  contains-register_universe u v self h =
      let (_, r, _) = and_then-eq-ok (lift (is_universe_in_range u) self) _ h in
      ap (contains_universe v) (universes-register_universe u self r)
      ∙ ground (arith, contains-insert_universe u v self.universes)

  -- After a call of `register_universes` that succeeds, exactly the universes that were given and
  -- those that were registered before are registered.
  pub contains-register_universes :
      (us : List ℕ) (v : ℕ) (self : SacnSourceInternal S U)
      → (register_universes us self).0 ≡ ok tt
      → contains_universe v ((register_universes us self).1).universes
        ≡ (if contains_universe v us then true else contains_universe v self.universes)
  unfolding register_universes contains_universe
  contains-register_universes [] v self h = refl
  contains-register_universes (u ∷ us) v self h =
      let (_, first, e) =
        and_then-eq-ok (register_universe u self) (λ _. register_universes us) h in
      let s1 = (register_universe u self).1 in
      ap (λ r. contains_universe v (r.1).universes) e
      ∙ contains-register_universes us v s1 (sym (ap (λ r. r.0) e) ∙ h)
      ∙ ground (arith, contains-register_universe u v self first)

  pub deregister_universe-IsOrdered :
      (u : ℕ) (self : SacnSourceInternal S U)
      → IsOrdered self.universes
      → IsOrdered ((deregister_universe u self).1).universes
  unfolding deregister_universe
  deregister_universe-IsOrdered u self h =
      and_then_keeps (λ s. IsOrdered s.universes) (lift (is_universe_in_range u) self) _ h
        (λ _. elim (Bool-cases (contains_universe u self.universes)) [
          | inl e ↦ rw e (delete_universe-IsOrdered u self.universes h)
          | inr e ↦ rw e h
        ])

  -- For a universe that is in range and a source whose universes are in increasing order,
  -- `deregister_universe` succeeds if the universe is registered and is `UniverseNotFound`
  -- otherwise; in both cases the universe is not registered afterwards, the others are as before,
  -- and the order is kept.
  pub deregister_universe-contains :
      (u v : ℕ) (self : SacnSourceInternal S U)
      → IsOrdered self.universes
      → is_universe_in_range {U = U} u ≡ ok tt
      → ((deregister_universe u self).0
          ≡ (if contains_universe u self.universes then ok tt else err (universe_not_found u)))
        × IsOrdered ((deregister_universe u self).1).universes
        × (contains_universe v ((deregister_universe u self).1).universes
            ≡ (if u == v then false else contains_universe v self.universes))
  unfolding deregister_universe
  deregister_universe-contains u v self h r =
      elim (Bool-cases (contains_universe u self.universes)) [
        | inl e ↦ (
          rw (deregister_universe, r, e) refl,
          rw (deregister_universe, r, e) (delete_universe-IsOrdered u self.universes h),
          rw (deregister_universe, r, e) (contains-delete_universe u v self.universes h),
        )
        | inr e ↦ (
          rw (deregister_universe, r, e) refl,
          rw (deregister_universe, r, e) h,
          rw (deregister_universe, r, e) (contains-absent u v self.universes e),
        )
      ]
