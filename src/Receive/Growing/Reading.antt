-- ===== src/Receive/Growing/Reading.antt =====
-- What is read from the socket (`recv` of src/receive.rs) takes no universe from a receiver.
use sacn_rust.Receive.Network as Network
use sacn_rust.Receive.Merge.{DmxData}
use sacn_rust.Packet.Constants.{rcv_buf_default_size}
use sacn_rust.Common.{
  zero, suc, subst, replicate, List, ◌≡◌, ℕ, ◌&&◌, refl, leb, not, Bool-cases, inl, inr, Option,
  none, some, Outcome, ok, err, panic, arith,
}
use sacn_rust.Common.State.{fail, refuse_if, refuse_if-Keeps}
use sacn_rust.Error.{SacnError, io, would_block, timed_out, other_kind}
use sacn_rust.External.{NetworkEndian, UuidCrate}
use sacn_rust.Packet.Acn.{AcnRootLayerProtocol}
use sacn_rust.Packet.DataFraming.{DataPacketFramingLayer}
use sacn_rust.Packet.Sync.{SynchronizationPacketFramingLayer}
use sacn_rust.Packet.DiscoveryFraming.{UniverseDiscoveryPacketFramingLayer}
use sacn_rust.Packet.Root.{
  E131RootLayerData, data_packet, synchronization_packet, universe_discovery_packet,
}
use sacn_rust.Receive.Network.{set_timeout, SocketCalls, ReadCalls}
use sacn_rust.Receive.Receiver.{on_network, SacnReceiver, is_listening, check_waiting_data_timeouts}
use sacn_rust.Receive.Handlers.{
  packet_data, terminate_stream, add_page, handle_universe_discovery_packet, handle_data_packet,
  handle_sync_packet, rtrv_waiting_data,
}
use sacn_rust.Receive.Recv.{
  turn, recv_loop, recv, continue_with, read_packet, can_never_return, checked_add, instant,
  check_sequences, check_waiting, run_checks, remaining, handle_discovery, handle_packet,
  handle_read,
}
use sacn_rust.Receive.Growing.{
  Grows-trans, Grows, same-Grows, AlwaysGrows, bind-AlwaysGrows, keeping-AlwaysGrows,
  return-AlwaysGrows, checked-AlwaysGrows,
}

module _ (S U : Type 0) ⦃crate : UuidCrate U⦄ ⦃sockets : SocketCalls S⦄ ⦃calls : ReadCalls S⦄ where
  handle_data_packet-AlwaysGrows :
      (now : ℕ) (cid : U) (pkt : DataPacketFramingLayer)
      → AlwaysGrows S U (handle_data_packet now cid pkt)
  unfolding handle_data_packet AlwaysGrows terminate_stream packet_data
  handle_data_packet-AlwaysGrows now cid pkt self =
      elim (Bool-cases (pkt.preview_data && not self.process_preview_data)) [
        | inl p ↦ rw (handle_data_packet, p) (same-Grows self self refl)
        | inr p ↦ elim (Bool-cases pkt.stream_terminated) [
          | inl t ↦
              rw (handle_data_packet, p, t)
                (same-Grows self (terminate_stream cid pkt.universe self) (ground arith))
          | inr t ↦ elim (Bool-cases (is_listening self pkt.universe)) [
            | inl l ↦ rw (handle_data_packet, p, t, l) (checked-AlwaysGrows S U now cid pkt self)
            | inr l ↦ rw (handle_data_packet, p, t, l) (same-Grows self self refl)
          ]
        ]
      ]

  handle_sync_packet-AlwaysGrows :
      (now : ℕ) (cid : U) (pkt : SynchronizationPacketFramingLayer)
      → AlwaysGrows S U (handle_sync_packet now cid pkt)
  unfolding handle_sync_packet rtrv_waiting_data
  handle_sync_packet-AlwaysGrows now cid pkt =
      keeping-AlwaysGrows S U (handle_sync_packet now cid pkt) (λ s. ground arith)

  handle_discovery-AlwaysGrows :
      (pkt : UniverseDiscoveryPacketFramingLayer) (cid : U) (now : ℕ)
      → AlwaysGrows S U (handle_discovery pkt cid now)
  unfolding handle_universe_discovery_packet add_page
  handle_discovery-AlwaysGrows pkt cid now =
      keeping-AlwaysGrows S U (handle_discovery pkt cid now) (λ s. ground arith)

  instant-AlwaysGrows : AlwaysGrows S U instant
  instant-AlwaysGrows = keeping-AlwaysGrows S U instant (λ s. refl)

  handle_packet-AlwaysGrows :
      (cid : U) (payload : E131RootLayerData) → AlwaysGrows S U (handle_packet cid payload)
  unfolding handle_packet
  handle_packet-AlwaysGrows cid (data_packet d) =
      search (bind-AlwaysGrows S U, instant-AlwaysGrows, handle_data_packet-AlwaysGrows)
  handle_packet-AlwaysGrows cid (synchronization_packet d) =
      search (bind-AlwaysGrows S U, instant-AlwaysGrows, handle_sync_packet-AlwaysGrows)
  handle_packet-AlwaysGrows cid (universe_discovery_packet d) =
      search (bind-AlwaysGrows S U, instant-AlwaysGrows, handle_discovery-AlwaysGrows)

  handle_read-AlwaysGrows :
      (r : Outcome (SacnError U) (AcnRootLayerProtocol U)) → AlwaysGrows S U (handle_read r)
  unfolding handle_read AlwaysGrows
  handle_read-AlwaysGrows (ok pkt) self = handle_packet-AlwaysGrows pkt.pdu.cid pkt.pdu.payload self
  handle_read-AlwaysGrows (err (io would_block)) self = same-Grows self self refl
  handle_read-AlwaysGrows (err (io timed_out)) self = same-Grows self self refl
  handle_read-AlwaysGrows (err (io other_kind)) self = same-Grows self self refl
  handle_read-AlwaysGrows (err e) self = same-Grows self self refl
  handle_read-AlwaysGrows panic self = same-Grows self self refl

  run_checks-AlwaysGrows : AlwaysGrows S U run_checks
  unfolding run_checks check_waiting_data_timeouts
  run_checks-AlwaysGrows =
      let sequences = λ (now : ℕ). keeping-AlwaysGrows S U (check_sequences now) (λ s. refl) in
      let waiting = λ (now : ℕ). keeping-AlwaysGrows S U (check_waiting now) (λ s. refl) in
      search (bind-AlwaysGrows S U, instant-AlwaysGrows, sequences, waiting)

  remaining-AlwaysGrows : (deadline : Option ℕ) → AlwaysGrows S U (remaining deadline)
  unfolding remaining
  remaining-AlwaysGrows none = return-AlwaysGrows S U none
  remaining-AlwaysGrows (some deadline) =
      let refused = λ (now : ℕ).
        keeping-AlwaysGrows S U (refuse_if (leb deadline now) (io would_block)) (
          refuse_if-Keeps (λ (s : SacnReceiver S U). s.universes) (leb deadline now)
            (io would_block)) in
      search (bind-AlwaysGrows S U, instant-AlwaysGrows, refused, return-AlwaysGrows S U)

module _ (S U : Type 0) ⦃crate : UuidCrate U⦄ ⦃net : NetworkEndian⦄ ⦃sockets : SocketCalls S⦄
    ⦃calls : ReadCalls S⦄ where
  read_packet-AlwaysGrows : AlwaysGrows S U read_packet
  unfolding read_packet AlwaysGrows
  read_packet-AlwaysGrows self =
      let r = Network.recv (replicate rcv_buf_default_size 0) self.receiver in
      handle_read-AlwaysGrows S U (r.0) (record self { receiver = r.1 })

  turn-AlwaysGrows : (deadline : Option ℕ) → AlwaysGrows S U (turn deadline)
  unfolding turn
  turn-AlwaysGrows deadline =
      let timed =
        λ (t : Option ℕ). keeping-AlwaysGrows S U (on_network (set_timeout t)) (λ s. refl) in
      search (
        bind-AlwaysGrows S U,
        run_checks-AlwaysGrows S U,
        remaining-AlwaysGrows S U,
        timed,
        read_packet-AlwaysGrows,
      )

  -- If the fuel is enough, what it gives.
  abbrev GrowsIfDone :
      {A : Type 0} → SacnReceiver S U → Option (Outcome (SacnError U) A × SacnReceiver S U) → Type 0
  GrowsIfDone self none = Unit {0}
  GrowsIfDone self (some r) = Grows self (r.1)

  GrowsIfDone-trans :
      {A : Type 0} (s t : SacnReceiver S U)
      (o : Option (Outcome (SacnError U) A × SacnReceiver S U))
      → Grows s t
      → GrowsIfDone t o
      → GrowsIfDone s o
  GrowsIfDone-trans s t none h k = tt
  GrowsIfDone-trans s t (some r) h k = Grows-trans s t (r.1) h k

  continue_with-GrowsIfDone :
      {A : Type 0} (self : SacnReceiver S U)
      (again : SacnReceiver S U → Option (Outcome (SacnError U) A × SacnReceiver S U))
      (r : Outcome (SacnError U) (Option A) × SacnReceiver S U)
      → Grows self (r.1)
      → ((s : SacnReceiver S U) → GrowsIfDone s (again s))
      → GrowsIfDone self (continue_with again r)
  continue_with-GrowsIfDone self again (ok none, s) h k = GrowsIfDone-trans self s (again s) h (k s)
  continue_with-GrowsIfDone self again (ok (some a), s) h k = h
  continue_with-GrowsIfDone self again (err e, s) h k = h
  continue_with-GrowsIfDone self again (panic, s) h k = h

  recv_loop-GrowsIfDone :
      (fuel : ℕ) (deadline : Option ℕ) (self : SacnReceiver S U)
      → GrowsIfDone self (recv_loop fuel deadline self)
  unfolding recv_loop AlwaysGrows
  recv_loop-GrowsIfDone zero deadline self = tt
  recv_loop-GrowsIfDone (suc fuel) deadline self =
      continue_with-GrowsIfDone self (recv_loop fuel deadline) (turn deadline self)
        (turn-AlwaysGrows deadline self) (recv_loop-GrowsIfDone fuel deadline)

  recv-GrowsIfDone :
      (fuel : ℕ) (timeout : Option ℕ) (self : SacnReceiver S U)
      → GrowsIfDone self (recv fuel timeout self)
  unfolding recv AlwaysGrows
  recv-GrowsIfDone fuel none self = elim (Bool-cases (can_never_return none self)) [
    | inl e ↦ rw (recv, e) (same-Grows self self refl)
    | inr e ↦ rw (recv, e) (recv_loop-GrowsIfDone fuel none self)
  ]
  recv-GrowsIfDone fuel (some zero) self =
      let failing =
        λ (e : SacnError U). keeping-AlwaysGrows S U {A = List (DmxData U)} (fail e) (λ s. refl) in
      bind-AlwaysGrows S U run_checks (λ _. fail (io would_block)) (run_checks-AlwaysGrows S U)
        (λ _. failing (io would_block)) self
  recv-GrowsIfDone fuel (some (suc t)) self =
      recv_loop-GrowsIfDone fuel
        (checked_add calls.instant_max (calls.instant self.receiver.socket).0 (suc t))
        ((instant self).1)

  -- When `recv` returns, whatever it returns.
  pub recv-Grows :
      (fuel : ℕ) (timeout : Option ℕ) (self : SacnReceiver S U)
      (out : Outcome (SacnError U) (List (DmxData U)) × SacnReceiver S U)
      → recv fuel timeout self ≡ some out
      → Grows self (out.1)
  recv-Grows fuel timeout self out e =
      subst (GrowsIfDone self) e (recv-GrowsIfDone fuel timeout self)
