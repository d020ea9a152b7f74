-- ===== src/Receive/Growing.antt =====
-- What `recv` (src/receive.rs) does with the universes that a receiver listens to: it keeps their
-- order, and gives up none.
pub mod Reading
use sacn_rust.Packet.DataFraming.{DataPacketFramingLayer}
use sacn_rust.External.{UuidCrate}
use sacn_rust.Receive.Network.{SocketCalls}
use sacn_rust.Receive.Merge.{DmxData}
use sacn_rust.Packet.Constants.{e131_no_sync_addr}
use sacn_rust.Receive.Handlers.{
  packet_data, store_waiting_data, check_data_packet, deliver_data_packet,
}
use sacn_rust.Common.{
  refl, Outcome, Option, Bool-cases, inl, inr, List, [], ◌∷◌, none, arith, ◌==◌, ℕ, ◌≡◌, ◌∙◌, sym,
  ap, subst, true,
}
use sacn_rust.Common.State.{lift, return, ◌>>◌, Stateful, and_then_keeps, ◌>>=◌}
use sacn_rust.Error.{SacnError}
use sacn_rust.Receive.Receiver.{
  is_listening, clear_waiting_data, listen_universe, listen_each, listen_universes, check_range,
  SacnReceiver, contains_universe,
}
use sacn_rust.Receive.Listening.{listen_universe-IsOrdered, is_listening-listen_universe, IsOrdered}

module _ {S U : Type 0} where
  abbrev pub Grows : SacnReceiver S U → SacnReceiver S U → Type 0
  Grows before after =
      (IsOrdered before.universes → IsOrdered after.universes)
      × ((v : ℕ)
          → contains_universe v before.universes ≡ true
          → contains_universe v after.universes ≡ true)

  pub same-Grows : (s t : SacnReceiver S U) → t.universes ≡ s.universes → Grows s t
  same-Grows s t e = (λ h. subst IsOrdered (sym e) h, λ v h. ap (contains_universe v) e ∙ h)

  pub Grows-trans : (s t u : SacnReceiver S U) → Grows s t → Grows t u → Grows s u
  Grows-trans s t u (f, g) (f', g') = (λ h. f' (f h), λ v h. g' v (g v h))

module _ (S U : Type 0) where
  unfoldable pub AlwaysGrows : {A : Type 0} → Stateful (SacnReceiver S U) (SacnError U) A → Type 0
  AlwaysGrows m = (self : SacnReceiver S U) → Grows self ((m self).1)

  pub bind-AlwaysGrows :
      {A B : Type 0} (m : Stateful (SacnReceiver S U) (SacnError U) A)
      (f : A → Stateful (SacnReceiver S U) (SacnError U) B)
      → AlwaysGrows m
      → ((a : A) → AlwaysGrows (f a))
      → AlwaysGrows (m >>= f)
  unfolding AlwaysGrows
  bind-AlwaysGrows m f h k self =
      and_then_keeps (Grows self) (m self) f (h self)
        (λ a. Grows-trans self ((m self).1) ((f a ((m self).1)).1) (h self) (k a ((m self).1)))

  -- A call that leaves the universes alone.
  pub keeping-AlwaysGrows :
      {A : Type 0} (m : Stateful (SacnReceiver S U) (SacnError U) A)
      → ((self : SacnReceiver S U) → ((m self).1).universes ≡ self.universes)
      → AlwaysGrows m
  unfolding AlwaysGrows
  keeping-AlwaysGrows m h self = same-Grows self ((m self).1) (h self)

  pub lift-AlwaysGrows : {A : Type 0} (r : Outcome (SacnError U) A) → AlwaysGrows (lift r)
  lift-AlwaysGrows r = keeping-AlwaysGrows (lift r) (λ s. refl)

  pub return-AlwaysGrows : {A : Type 0} (a : A) → AlwaysGrows (return a)
  return-AlwaysGrows a = keeping-AlwaysGrows (return a) (λ s. refl)

  pub store-AlwaysGrows : (new : DmxData U) → AlwaysGrows (store_waiting_data new)
  unfolding store_waiting_data
  store-AlwaysGrows new = keeping-AlwaysGrows (store_waiting_data new) (λ s. ground arith)

module _ (S U : Type 0) ⦃sockets : SocketCalls S⦄ where
  listen_universe-AlwaysGrows : (u : ℕ) → AlwaysGrows S U (listen_universe u)
  unfolding AlwaysGrows is_listening
  listen_universe-AlwaysGrows u self = (
    listen_universe-IsOrdered u self,
    λ v h. is_listening-listen_universe u v self ∙ ground arith,
  )

  listen_each-AlwaysGrows : (us : List ℕ) → AlwaysGrows S U (listen_each us)
  unfolding listen_each
  listen_each-AlwaysGrows [] = return-AlwaysGrows S U tt
  listen_each-AlwaysGrows (u ∷ us) =
      bind-AlwaysGrows S U (listen_universe u) (λ _. listen_each us) (listen_universe-AlwaysGrows u)
        (λ _. listen_each-AlwaysGrows us)

  pub listen_universes-AlwaysGrows : (us : List ℕ) → AlwaysGrows S U (listen_universes us)
  unfolding listen_universes
  listen_universes-AlwaysGrows us =
      bind-AlwaysGrows S U (lift (check_range us)) (λ _. listen_each us)
        (lift-AlwaysGrows S U (check_range us)) (λ _. listen_each-AlwaysGrows us)

-- The handlers.
module _ (S U : Type 0) ⦃crate : UuidCrate U⦄ ⦃sockets : SocketCalls S⦄ where
  check-AlwaysGrows :
      (now : ℕ) (cid : U) (pkt : DataPacketFramingLayer)
      → AlwaysGrows S U (check_data_packet now cid pkt)
  unfolding check_data_packet
  check-AlwaysGrows now cid pkt =
      keeping-AlwaysGrows S U (check_data_packet now cid pkt) (λ s. refl)

  delayed-AlwaysGrows :
      (now : ℕ) (cid : U) (pkt : DataPacketFramingLayer)
      → AlwaysGrows S U {A = Option (List (DmxData U))} (
          listen_universes (pkt.synchronization_address ∷ [])
          >> store_waiting_data (packet_data now cid pkt)
          >> return none)
  delayed-AlwaysGrows now cid pkt = search (
    bind-AlwaysGrows S U,
    listen_universes-AlwaysGrows S U,
    store-AlwaysGrows S U,
    return-AlwaysGrows S U,
  )

  pub deliver-AlwaysGrows :
      (now : ℕ) (cid : U) (pkt : DataPacketFramingLayer)
      → AlwaysGrows S U (deliver_data_packet now cid pkt)
  unfolding deliver_data_packet AlwaysGrows
  deliver-AlwaysGrows now cid pkt self =
      elim (Bool-cases (pkt.synchronization_address == e131_no_sync_addr)) [
        | inl e ↦
            rw (deliver_data_packet, e)
              (same-Grows self ((clear_waiting_data pkt.universe self).1) refl)
        | inr e ↦ rw (deliver_data_packet, e) (delayed-AlwaysGrows now cid pkt self)
      ]

  pub checked-AlwaysGrows :
      (now : ℕ) (cid : U) (pkt : DataPacketFramingLayer)
      → AlwaysGrows S U (check_data_packet now cid pkt >> deliver_data_packet now cid pkt)
  checked-AlwaysGrows now cid pkt =
      search (bind-AlwaysGrows S U, check-AlwaysGrows, deliver-AlwaysGrows)
