-- ===== src/Receive/Listening.antt =====
-- The universes that a receiver listens to: `listen_universes` and `mute_universe` of src/receive.rs.
use sacn_rust.Receive.Network.{SocketCalls}
use sacn_rust.Error.{SacnError}
use sacn_rust.Packet.Universe.{is_universe_in_range}
use sacn_rust.Common.State.{and_then-eq-ok, and_then_keeps, lift}
use sacn_rust.Common.{
  ◌∙◌, sym, ap, subst, inl, inr, ok, err, Bool-cases, ℕ, ◌≤◌, ◌<◌, ◌==◌, ◌≡◌, refl, true, false,
  List, [], ◌∷◌, if◌then◌else◌, arith,
}
use sacn_rust.Receive.Receiver.{
  SacnReceiver, is_listening, check_range, listen_universe, listen_each, listen_universes,
  mute_universe, contains_universe, insert_universe, delete_universe,
}

-- In order, each number once: what `binary_search` relies on.
unfoldable pub IsAbove : ℕ → List ℕ → Type 0
IsAbove a [] = Unit
IsAbove a (x ∷ xs) = (a < x) × IsAbove a xs

unfoldable pub IsOrdered : List ℕ → Type 0
IsOrdered [] = Unit
IsOrdered (x ∷ xs) = IsAbove x xs × IsOrdered xs

IsAbove-le : (a b : ℕ) (xs : List ℕ) → a ≤ b → IsAbove b xs → IsAbove a xs
unfolding IsAbove
IsAbove-le a b [] h k = tt
IsAbove-le a b (x ∷ xs) h (k, ks) = (omega arith, IsAbove-le a b xs h ks)

insert_universe-IsAbove :
    (a u : ℕ) (xs : List ℕ) → a < u → IsAbove a xs → IsAbove a (insert_universe u xs)
unfolding IsAbove insert_universe
insert_universe-IsAbove a u [] h k = (h, tt)
insert_universe-IsAbove a u (x ∷ xs) h (k, ks) = ground (arith, insert_universe-IsAbove a u xs h ks)

-- The insertion of a number that is not there keeps the order.
pub insert_universe-IsOrdered :
    (u : ℕ) (xs : List ℕ)
    → contains_universe u xs ≡ false
    → IsOrdered xs
    → IsOrdered (insert_universe u xs)
unfolding IsOrdered insert_universe contains_universe IsAbove
insert_universe-IsOrdered u [] c h = (tt, tt)
insert_universe-IsOrdered u (x ∷ xs) c (k, h) =
    ground
      (arith, insert_universe-IsOrdered u xs, insert_universe-IsAbove x u xs, IsAbove-le u x xs)

delete_universe-IsAbove : (a u : ℕ) (xs : List ℕ) → IsAbove a xs → IsAbove a (delete_universe u xs)
unfolding IsAbove delete_universe
delete_universe-IsAbove a u [] k = tt
delete_universe-IsAbove a u (x ∷ xs) (k, ks) = ground (arith, delete_universe-IsAbove a u xs ks)

pub delete_universe-IsOrdered :
    (u : ℕ) (xs : List ℕ) → IsOrdered xs → IsOrdered (delete_universe u xs)
unfolding IsOrdered delete_universe
delete_universe-IsOrdered u [] h = tt
delete_universe-IsOrdered u (x ∷ xs) (k, h) =
    ground (arith, delete_universe-IsOrdered u xs h, delete_universe-IsAbove x u xs k)

pub contains-insert_universe :
    (u v : ℕ) (xs : List ℕ)
    → contains_universe v (insert_universe u xs) ≡ (if u == v then true else contains_universe v xs)
unfolding contains_universe insert_universe
contains-insert_universe u v [] = ground arith
contains-insert_universe u v (x ∷ xs) = ground (arith, contains-insert_universe u v xs)

contains_above : (u : ℕ) (xs : List ℕ) → IsAbove u xs → contains_universe u xs ≡ false
unfolding contains_universe IsAbove
contains_above u [] h = refl
contains_above u (x ∷ xs) (k, h) = ground (arith, contains_above u xs h)

pub contains-delete_universe :
    (u v : ℕ) (xs : List ℕ)
    → IsOrdered xs
    → contains_universe v (delete_universe u xs)
      ≡ (if u == v then false else contains_universe v xs)
unfolding contains_universe delete_universe IsOrdered
contains-delete_universe u v [] h = ground arith
contains-delete_universe u v (x ∷ xs) (k, h) =
    ground (arith, contains-delete_universe u v xs h, contains_above x xs k)

module _ {S U : Type 0} ⦃calls : SocketCalls S⦄ where
  universes-listen_universe :
      (u : ℕ) (self : SacnReceiver S U)
      → ((listen_universe u self).1).universes ≡ (
          if contains_universe u self.universes
          then self.universes
          else insert_universe u self.universes)
  unfolding listen_universe
  universes-listen_universe u self = elim (Bool-cases (contains_universe u self.universes)) [
    | inl e ↦ rw (listen_universe, e) refl
    | inr e ↦ elim (Bool-cases self.receiver.is_multicast_enabled) [
      | inl m ↦ rw (listen_universe, e, m) refl
      | inr m ↦ rw (listen_universe, e, m) refl
    ]
  ]

  pub listen_universe-IsOrdered :
      (u : ℕ) (self : SacnReceiver S U)
      → IsOrdered self.universes
      → IsOrdered ((listen_universe u self).1).universes
  listen_universe-IsOrdered u self h =
      subst IsOrdered (sym (universes-listen_universe u self))
        (elim (Bool-cases (contains_universe u self.universes)) [
          | inl e ↦ rw e h
          | inr e ↦ rw e (insert_universe-IsOrdered u self.universes e h)
        ])

  pub is_listening-listen_universe :
      (u v : ℕ) (self : SacnReceiver S U)
      → is_listening ((listen_universe u self).1) v ≡ (if u == v then true else is_listening self v)
  unfolding is_listening
  is_listening-listen_universe u v self =
      ap (contains_universe v) (universes-listen_universe u self)
      ∙ ground (arith, contains-insert_universe u v self.universes)

  listen_each-IsOrdered :
      (us : List ℕ) (self : SacnReceiver S U)
      → IsOrdered self.universes
      → IsOrdered ((listen_each us self).1).universes
  unfolding listen_each
  listen_each-IsOrdered [] self h = h
  listen_each-IsOrdered (u ∷ us) self h =
      let h1 = listen_universe-IsOrdered u self h in
      and_then_keeps (λ s. IsOrdered s.universes) (listen_universe u self) (λ _. listen_each us) h1
        λ _. listen_each-IsOrdered us ((listen_universe u self).1) h1

  is_listening-listen_each :
      (us : List ℕ) (v : ℕ) (self : SacnReceiver S U)
      → (listen_each us self).0 ≡ ok tt
      → is_listening ((listen_each us self).1) v
        ≡ (if contains_universe v us then true else is_listening self v)
  unfolding listen_each contains_universe
  is_listening-listen_each [] v self h = refl
  is_listening-listen_each (u ∷ us) v self h =
      let (_, _, e) = and_then-eq-ok (listen_universe u self) (λ _. listen_each us) h in
      let s1 = (listen_universe u self).1 in
      ap (λ r. is_listening (r.1) v) e
      ∙ is_listening-listen_each us v s1 (sym (ap (λ r. r.0) e) ∙ h)
      ∙ ground (arith, is_listening-listen_universe u v self)

  -- After a call of `listen_universes` that succeeds, the receiver listens to exactly the universes
  -- that were given and those that it listened to before.
  pub is_listening-listen_universes :
      (us : List ℕ) (v : ℕ) (self : SacnReceiver S U)
      → (listen_universes us self).0 ≡ ok tt
      → is_listening ((listen_universes us self).1) v
        ≡ (if contains_universe v us then true else is_listening self v)
  unfolding listen_universes
  is_listening-listen_universes us v self h =
      let (_, _, e) = and_then-eq-ok (lift (check_range us) self) (λ _. listen_each us) h in
      ap (λ r. is_listening (r.1) v) e
      ∙ is_listening-listen_each us v self (sym (ap (λ r. r.0) e) ∙ h)

  -- `listen_universes` keeps the universes of the receiver in increasing order, which its binary
  -- search relies on, also when it fails half way.
  pub listen_universes-IsOrdered :
      (us : List ℕ) (self : SacnReceiver S U)
      → IsOrdered self.universes
      → IsOrdered ((listen_universes us self).1).universes
  unfolding listen_universes
  listen_universes-IsOrdered us self h =
      and_then_keeps (λ s. IsOrdered s.universes) (lift (check_range us) self) (λ _. listen_each us)
        h λ _. listen_each-IsOrdered us self h

  -- One universe that is out of range, and nothing is listened to.
  pub listen_universes_illegal :
      (us : List ℕ) (self : SacnReceiver S U) (e : SacnError U)
      → check_range us ≡ err e
      → listen_universes us self ≡ (err e, self)
  unfolding listen_universes
  listen_universes_illegal us self e h = rw (listen_universes, h)

  -- After `mute_universe` of a universe that is in range and listened to, the receiver listens to
  -- it no more and to the others as before, and its universes are still in increasing order, if
  -- they were before, whatever leaving the multicast group gives.
  pub mute_universe-is_listening :
      (u v : ℕ) (self : SacnReceiver S U)
      → IsOrdered self.universes
      → is_universe_in_range {U = U} u ≡ ok tt
      → is_listening self u ≡ true
      → IsOrdered ((mute_universe u self).1).universes
        × (is_listening ((mute_universe u self).1) v
            ≡ (if u == v then false else is_listening self v))
  unfolding mute_universe is_listening
  mute_universe-is_listening u v self h r l =
      let e : ((mute_universe u self).1).universes ≡ delete_universe u self.universes =
        rw (mute_universe, r, l) refl in
      (
        subst IsOrdered (sym e) (delete_universe-IsOrdered u self.universes h),
        ap (contains_universe v) e ∙ contains-delete_universe u v self.universes h,
      )

  -- Listening again changes nothing.
  pub listen_universes_again :
      (u : ℕ) (self : SacnReceiver S U)
      → is_universe_in_range {U = U} u ≡ ok tt
      → is_listening self u ≡ true
      → listen_universes (u ∷ []) self ≡ (ok tt, self)
  unfolding listen_universes listen_each listen_universe check_range is_listening
  listen_universes_again u self r l =
      rw (listen_universes, check_range, listen_each, listen_universe, r, l)
