-- ===== src/Receive/Lifetime.antt =====
-- A receiver (src/receive.rs) from its creation on, whatever methods are called on it.
use sacn_rust.Common.{
  some, ℕ, ◌≡◌, refl, sym, subst, Bool, Bool-cases, inl, inr, Option, List, [], ◌∷◌, Outcome, ok,
  err, panic, Outcome-cases,
}
use sacn_rust.Common.State.{and_then_keeps, lift}
use sacn_rust.Packet.Universe.{SocketAddr, is_universe_in_range}
use sacn_rust.Packet.Constants.{e131_discovery_universe}
use sacn_rust.Error.{SacnError, Result}
use sacn_rust.External.{UuidCrate, NetworkEndian}
use sacn_rust.Receive.Merge.{DmxData}
use sacn_rust.Receive.Network.{SocketCalls, ReadCalls}
use sacn_rust.Receive.Receiver.{
  SacnReceiver, contains_universe, listen_universes, mute_universe, reset_sources,
  clear_all_waiting_data, clear_waiting_data, get_discovered_sources, remove_expired_sources,
}
use sacn_rust.Receive.Creation.{
  is_zero_limit, CreateCalls, with_ip, new_network_receiver, new_receiver, set_is_multicast_enabled,
  set_merge_fn, set_process_preview_data, set_announce_source_discovery, set_announce_timeout,
  set_announce_stream_termination, set_ipv6_only,
}
use sacn_rust.Receive.Recv.{recv}
use sacn_rust.Receive.Listening.{IsOrdered, delete_universe-IsOrdered, listen_universes-IsOrdered}
use sacn_rust.Receive.Growing.Reading.{recv-Grows}

-- The methods that set something or clear something.
pub data Setting (S U : Type 0) ⦃reads : ReadCalls S⦄
    : SacnReceiver S U → SacnReceiver S U → Type 0 where
  multicast :
      (val : Bool) (self : SacnReceiver S U)
      → Setting S U self ((set_is_multicast_enabled val self).1)
  merging :
      (func : DmxData U → DmxData U → Result U (DmxData U)) (self : SacnReceiver S U)
      → Setting S U self ((set_merge_fn func self).1)
  preview :
      (val : Bool) (self : SacnReceiver S U) → Setting S U self (set_process_preview_data val self)
  announcing_sources :
      (val : Bool) (self : SacnReceiver S U)
      → Setting S U self (set_announce_source_discovery val self)
  announcing_timeouts :
      (val : Bool) (self : SacnReceiver S U) → Setting S U self (set_announce_timeout val self)
  announcing_ends :
      (val : Bool) (self : SacnReceiver S U)
      → Setting S U self (set_announce_stream_termination val self)
  only_v6 : (val : Bool) (self : SacnReceiver S U) → Setting S U self ((set_ipv6_only val self).1)
  resetting : (self : SacnReceiver S U) → Setting S U self (reset_sources self)
  clearing : (self : SacnReceiver S U) → Setting S U self (clear_all_waiting_data self)
  clearing_one :
      (universe : ℕ) (self : SacnReceiver S U)
      → Setting S U self ((clear_waiting_data universe self).1)
  listing :
      (now : ℕ) (self : SacnReceiver S U) → Setting S U self ((get_discovered_sources now self).1)

-- A receiver that `with_ip` has made, and what any calls leave of it, whatever they return.
pub data Lived (S U : Type 0) ⦃crate : UuidCrate U⦄ ⦃net : NetworkEndian⦄ ⦃creates : CreateCalls S⦄
    ⦃sockets : SocketCalls S⦄ ⦃reads : ReadCalls S⦄ : SacnReceiver S U → Type 0 where
  made :
      (ip : SocketAddr) (source_limit : Option ℕ) (self : SacnReceiver S U)
      → with_ip ip source_limit ≡ ok self
      → Lived S U self
  listened :
      (self : SacnReceiver S U) (us : List ℕ)
      → Lived S U self
      → Lived S U ((listen_universes us self).1)
  muted : (self : SacnReceiver S U) (u : ℕ) → Lived S U self → Lived S U ((mute_universe u self).1)
  received :
      (self : SacnReceiver S U) (fuel : ℕ) (timeout : Option ℕ)
      (out : Outcome (SacnError U) (List (DmxData U)) × SacnReceiver S U)
      → recv fuel timeout self ≡ some out
      → Lived S U self
      → Lived S U (out.1)
  configured :
      (self after : SacnReceiver S U) → Setting S U self after → Lived S U self → Lived S U after

module _ {S U : Type 0} ⦃sockets : SocketCalls S⦄ where
  mute_universe-IsOrdered :
      (u : ℕ) (self : SacnReceiver S U)
      → IsOrdered self.universes
      → IsOrdered ((mute_universe u self).1).universes
  unfolding mute_universe
  mute_universe-IsOrdered u self h =
      and_then_keeps (λ s. IsOrdered s.universes) (lift (is_universe_in_range u) self) _ h
        (λ _. elim (Bool-cases (contains_universe u self.universes)) [
          | inl e ↦ rw e (delete_universe-IsOrdered u self.universes h)
          | inr e ↦ rw e h
        ])

module _ {S U : Type 0} ⦃reads : ReadCalls S⦄ where
  Setting-universes :
      {self after : SacnReceiver S U} → Setting S U self after → after.universes ≡ self.universes
  unfolding set_is_multicast_enabled set_merge_fn set_process_preview_data
      set_announce_source_discovery set_announce_timeout set_announce_stream_termination
      set_ipv6_only reset_sources clear_all_waiting_data clear_waiting_data get_discovered_sources
      remove_expired_sources
  Setting-universes (multicast val self) = refl
  Setting-universes (merging func self) = refl
  Setting-universes (preview val self) = refl
  Setting-universes (announcing_sources val self) = refl
  Setting-universes (announcing_timeouts val self) = refl
  Setting-universes (announcing_ends val self) = refl
  Setting-universes (only_v6 val self) = refl
  Setting-universes (resetting self) = refl
  Setting-universes (clearing self) = refl
  Setting-universes (clearing_one universe self) = refl
  Setting-universes (listing now self) = refl

module _ {S U : Type 0} where
  abbrev IsOrderedIfOk : Result U (SacnReceiver S U) → Type 0
  IsOrderedIfOk (ok s) = IsOrdered s.universes
  IsOrderedIfOk (err e) = Unit {0}
  IsOrderedIfOk panic = Unit {0}

  -- A method's state, if the method has succeeded.
  succeeded-IsOrderedIfOk :
      (r : Outcome (SacnError U) (Unit {0}) × SacnReceiver S U)
      → IsOrdered (r.1).universes
      → IsOrderedIfOk (elim (r.0) [ ok _ ↦ ok (r.1) | err e ↦ err e | panic ↦ panic ])
  succeeded-IsOrderedIfOk (ok _, s) h = h
  succeeded-IsOrderedIfOk (err e, s) h = tt
  succeeded-IsOrderedIfOk (panic, s) h = tt

module _ (S U : Type 0) ⦃creates : CreateCalls S⦄ ⦃sockets : SocketCalls S⦄ where
  with_ip-IsOrderedIfOk :
      (ip : SocketAddr) (source_limit : Option ℕ)
      → IsOrderedIfOk {S = S} {U = U} (with_ip ip source_limit)
  unfolding with_ip IsOrdered
  with_ip-IsOrderedIfOk ip source_limit = elim (Bool-cases (is_zero_limit source_limit)) [
    | inl z ↦ rw (IsOrderedIfOk, with_ip, z) tt
    | inr z ↦ elim (Outcome-cases (new_network_receiver {S = S} {U = U} ip)) [
      | inl (receiver, e) ↦
          rw (IsOrderedIfOk, with_ip, z, e)
            (succeeded-IsOrderedIfOk
              (listen_universes (e131_discovery_universe ∷ []) (new_receiver source_limit receiver))
              (listen_universes-IsOrdered (e131_discovery_universe ∷ [])
                (new_receiver source_limit receiver) tt))
      | inr (inl (x, e)) ↦ rw (IsOrderedIfOk, with_ip, z, e) tt
      | inr (inr e) ↦ rw (IsOrderedIfOk, with_ip, z, e) tt
    ]
  ]

module _ {S U : Type 0} ⦃crate : UuidCrate U⦄ ⦃net : NetworkEndian⦄ ⦃creates : CreateCalls S⦄
    ⦃sockets : SocketCalls S⦄ ⦃reads : ReadCalls S⦄ where
  with_ip-IsOrdered :
      (ip : SocketAddr) (source_limit : Option ℕ) (self : SacnReceiver S U)
      → with_ip ip source_limit ≡ ok self
      → IsOrdered self.universes
  with_ip-IsOrdered ip source_limit self e =
      subst IsOrderedIfOk e (with_ip-IsOrderedIfOk S U ip source_limit)

  -- From its creation by `with_ip` on, whatever methods are called on a receiver, the ones that
  -- only set or clear something included, whatever packets `recv` handles and whatever the calls
  -- return, errors and panics included, the universes that it listens to stay in increasing order,
  -- each once, which its binary search relies on.
  pub Lived-IsOrdered : (self : SacnReceiver S U) → Lived S U self → IsOrdered self.universes
  Lived-IsOrdered self (made ip source_limit _ e) = with_ip-IsOrdered ip source_limit self e
  Lived-IsOrdered _ (listened self us r) =
      listen_universes-IsOrdered us self (Lived-IsOrdered self r)
  Lived-IsOrdered _ (muted self u r) = mute_universe-IsOrdered u self (Lived-IsOrdered self r)
  Lived-IsOrdered _ (received self fuel timeout out e r) =
      (recv-Grows S U fuel timeout self out e).0 (Lived-IsOrdered self r)
  Lived-IsOrdered after (configured self _ s r) =
      subst IsOrdered (sym (Setting-universes s)) (Lived-IsOrdered self r)
