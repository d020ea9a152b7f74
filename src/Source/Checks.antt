-- ===== src/Source/Checks.antt =====
-- What `send` of src/source.rs checks before it sends.
use sacn_rust.Error.{SacnError, Result, universe_not_registered}
use sacn_rust.External.{NetworkEndian, UuidCrate}
use sacn_rust.Packet.Universe.{SocketAddr, is_universe_in_range}
use sacn_rust.Common.State.{lift, refuse_if, Stateful, ◌>>◌}
use sacn_rust.Common.{
  ok, err, ℕ, ◌==◌, ◌≡◌, ◌≤◌, ltb, refl, true, false, Bool, List, [], ◌∷◌, tests, All, length,
  Option, not, Outcome, panic, if◌then◌else◌,
}
use sacn_rust.Receive.Receiver.{contains_universe}
use sacn_rust.Source.{
  SendCalls, SacnSourceInternal, check_allowed, check_all_allowed, check_sync_allowed,
}
use sacn_rust.Source.Sending.{send, required}

module _ {U : Type 0} where
  allowed_by :
      (r : Result U (Unit {0})) (b : Bool) (x : SacnError U)
      → elim r as (λ _. Result U (Unit {0})) [
        | err e ↦ err e
        | panic ↦ panic
        | ok _ ↦ if b then ok tt else err x
      ]
        ≡ ok tt
      → b ≡ true
  allowed_by (ok _) true x h = refl
  allowed_by (ok _) false x h = cc
  allowed_by (err e) b x h = cc
  allowed_by panic b x h = cc

  both_ok :
      (r s : Result U (Unit {0}))
      → elim r as (λ _. Result U (Unit {0})) [ ok _ ↦ s | err e ↦ err e | panic ↦ panic ] ≡ ok tt
      → (r ≡ ok tt) × (s ≡ ok tt)
  both_ok (ok _) s h = (refl, h)
  both_ok (err e) s h = cc
  both_ok panic s h = cc

  check_all_allowed-All :
      (us universes : List ℕ)
      → check_all_allowed {U = U} us universes ≡ ok tt
      → All (λ u. contains_universe u universes ≡ true) us
  unfolding check_all_allowed
  check_all_allowed-All [] universes h = tt
  check_all_allowed-All (u ∷ us) universes h =
      let (first, rest) = both_ok (check_allowed u universes) (check_all_allowed us universes) h in
      (
        allowed_by (is_universe_in_range u) (contains_universe u universes)
            (universe_not_registered u) first,
        check_all_allowed-All us universes rest,
      )

module _ {S E : Type 0} where
  after_refuse_if :
      (b : Bool) (e : E) (k : Stateful S E (Unit {0})) (s : S)
      → ((refuse_if b e >> k) s).0 ≡ ok tt
      → (b ≡ false) × ((k s).0 ≡ ok tt)
  after_refuse_if true e k s h = cc
  after_refuse_if false e k s h = (refl, h)

  after_lift :
      (r : Outcome E (Unit {0})) (k : Stateful S E (Unit {0})) (s : S)
      → ((lift r >> k) s).0 ≡ ok tt
      → (r ≡ ok tt) × ((k s).0 ≡ ok tt)
  after_lift (ok _) k s h = (refl, h)
  after_lift (err e) k s h = cc
  after_lift panic k s h = cc

running_lem : (b : Bool) → not b ≡ false → b ≡ true
running_lem true h = refl
running_lem false h = cc

module _ {S U : Type 0} ⦃net : NetworkEndian⦄ ⦃crate : UuidCrate U⦄ ⦃calls : SendCalls S⦄ where
  -- A call of `send` that succeeds was made on a source that is running, with universes that are
  -- all registered with it, and with as many of them as the data needs.
  pub send-registered :
      (universes values : List ℕ) (priority : Option ℕ) (dst_ip : Option SocketAddr)
      (sync_addr : Option ℕ) (self : SacnSourceInternal S U)
      → (send universes values priority dst_ip sync_addr self).0 ≡ ok tt
      → (self.running ≡ true)
        × All (λ u. contains_universe u self.universes ≡ true) universes
        × (required (length values) ≤ length universes)
  unfolding send
  send-registered universes values priority dst_ip sync_addr self h =
      let (run, h1) = after_refuse_if (not self.running) _ _ self h in
      let (_, h2) = after_refuse_if (length values == 0) _ _ self h1 in
      let (all, h3) = after_lift (check_all_allowed universes self.universes) _ self h2 in
      let (_, h4) = after_lift (check_sync_allowed sync_addr self.universes) _ self h3 in
      let (enough, _) =
        after_refuse_if (ltb (length universes) (required (length values))) _ _ self h4 in
      (
        running_lem self.running run,
        check_all_allowed-All universes self.universes all,
        omega tests,
      )
