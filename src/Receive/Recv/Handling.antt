-- ===== src/Receive/Recv/Handling.antt =====
-- The handlers that `recv` calls, and its turns (src/receive.rs): how often they read.
use sacn_rust.Receive.Recv.Calls.{
  Paced, discovery-receiver, instant-Keeps, io_result-state, listen_universes-Keeps, reads_of,
  store_waiting_data-receiver, terminate_stream-receiver,
}
use sacn_rust.Packet.Constants.{rcv_buf_default_size}
use sacn_rust.Common.{
  leb, ◌-◌, ltb, ◌++◌, drop, replicate, ℕ, suc, ◌≡◌, ◌∙◌, refl, ap, Option, none, some, List, [],
  ◌∷◌, Outcome, ok, err, panic, arith, length,
}
use sacn_rust.Common.State.{
  Keeps, bind-Keeps, refuse_if-Keeps, Stateful, ◌>>=◌, ◌>>◌, lift, return, refuse_if,
  and_then_keeps,
}
use sacn_rust.Packet.DataFraming.{DataPacketFramingLayer}
use sacn_rust.Packet.Sync.{SynchronizationPacketFramingLayer}
use sacn_rust.Packet.DiscoveryFraming.{UniverseDiscoveryPacketFramingLayer}
use sacn_rust.Packet.Root.{
  E131RootLayerData, data_packet, synchronization_packet, universe_discovery_packet,
}
use sacn_rust.Packet.Acn.{parse, AcnRootLayerProtocol}
use sacn_rust.Error.{too_many_bytes_read, SacnError, io, would_block, timed_out, other_kind}
use sacn_rust.External.{UuidCrate, NetworkEndian}
use sacn_rust.Receive.Merge.{DmxData}
use sacn_rust.Receive.Network as Network
use sacn_rust.Receive.Network.{
  parse_read, io_result, SocketCalls, ReadCalls, SacnNetworkReceiver, on_socket, with_socket,
  join_unix_multicast, multicast_addr, listen_multicast_universe, set_timeout,
}
use sacn_rust.Receive.Receiver.{
  check_waiting_data_timeouts, SacnReceiver, on_network, listen_universes,
}
use sacn_rust.Receive.Handlers.{
  packet_data, handle_data_packet, handle_sync_packet, store_waiting_data, deliver_data_packet,
  check_data_packet, rtrv_waiting_data,
}
use sacn_rust.Receive.Recv.{
  handle_discovery, check_sequences, check_waiting, instant, run_checks, remaining, handle_packet,
  handle_read, read_packet,
}

-- The handlers of packets make no call of `read`.
module _ {S U : Type 0} ⦃crate : UuidCrate U⦄ ⦃sockets : SocketCalls S⦄ ⦃calls : ReadCalls S⦄
    (pace : Paced S) where
  check_data_packet-Keeps :
      (now : ℕ) (cid : U) (pkt : DataPacketFramingLayer)
      → Keeps (reads_of {U = U} pace) (check_data_packet now cid pkt)
  unfolding check_data_packet
  check_data_packet-Keeps now cid pkt self = refl

  -- What is done with data that has to wait.
  abbrev waits :
      ℕ → U → DataPacketFramingLayer → Stateful (SacnReceiver S U) (SacnError U) (Unit {0})
  waits now cid pkt =
      listen_universes (pkt.synchronization_address ∷ [])
      >> store_waiting_data (packet_data now cid pkt)

  waits-Keeps :
      (now : ℕ) (cid : U) (pkt : DataPacketFramingLayer)
      → Keeps (reads_of {U = U} pace) (waits now cid pkt)
  waits-Keeps now cid pkt =
      bind-Keeps (reads_of pace) (listen_universes (pkt.synchronization_address ∷ []))
        (λ _. store_waiting_data (packet_data now cid pkt))
        (listen_universes-Keeps pace (pkt.synchronization_address ∷ []))
        (λ _ s.
          ap (λ (n : SacnNetworkReceiver S). pace.reads n.socket)
            (store_waiting_data-receiver (packet_data now cid pkt) s))

  delayed-Keeps :
      (now : ℕ) (cid : U) (pkt : DataPacketFramingLayer)
      → Keeps {A = Option (List (DmxData U))}
          (reads_of {U = U} pace)
          (waits now cid pkt >> return none)
  delayed-Keeps now cid pkt =
      bind-Keeps (reads_of pace) (waits now cid pkt) (λ _. return none) (waits-Keeps now cid pkt)
        (λ _ s. refl)

  deliver_data_packet-Keeps :
      (now : ℕ) (cid : U) (pkt : DataPacketFramingLayer)
      → Keeps (reads_of {U = U} pace) (deliver_data_packet now cid pkt)
  unfolding deliver_data_packet
  deliver_data_packet-Keeps now cid pkt self = ground (arith, delayed-Keeps now cid pkt self)

  handle_data_packet-Keeps :
      (now : ℕ) (cid : U) (pkt : DataPacketFramingLayer)
      → Keeps (reads_of {U = U} pace) (handle_data_packet now cid pkt)
  unfolding handle_data_packet
  handle_data_packet-Keeps now cid pkt self = ground (
    arith,
    terminate_stream-receiver cid pkt.universe self,
    bind-Keeps (reads_of pace) (check_data_packet now cid pkt)
        (λ _. deliver_data_packet now cid pkt) (check_data_packet-Keeps now cid pkt)
        (λ _. deliver_data_packet-Keeps now cid pkt) self,
  )

  handle_sync_packet-Keeps :
      (now : ℕ) (cid : U) (pkt : SynchronizationPacketFramingLayer)
      → Keeps (reads_of {U = U} pace) (handle_sync_packet now cid pkt)
  unfolding handle_sync_packet rtrv_waiting_data
  handle_sync_packet-Keeps now cid pkt self = ground arith

  handle_discovery-Keeps :
      (pkt : UniverseDiscoveryPacketFramingLayer) (cid : U) (now : ℕ)
      → Keeps (reads_of {U = U} pace) (handle_discovery pkt cid now)
  handle_discovery-Keeps pkt cid now self = ground (arith, discovery-receiver now cid pkt self)

  handle_packet-Keeps :
      (cid : U) (payload : E131RootLayerData)
      → Keeps (reads_of {U = U} pace) (handle_packet cid payload)
  unfolding handle_packet
  handle_packet-Keeps cid (data_packet d) =
      bind-Keeps (reads_of pace) instant (λ now. handle_data_packet now cid d) (instant-Keeps pace)
        (λ now. handle_data_packet-Keeps now cid d)
  handle_packet-Keeps cid (synchronization_packet d) =
      bind-Keeps (reads_of pace) instant (λ now. handle_sync_packet now cid d) (instant-Keeps pace)
        (λ now. handle_sync_packet-Keeps now cid d)
  handle_packet-Keeps cid (universe_discovery_packet d) =
      bind-Keeps (reads_of pace) instant (handle_discovery d cid) (instant-Keeps pace)
        (handle_discovery-Keeps d cid)

  handle_read-Keeps :
      (r : Outcome (SacnError U) (AcnRootLayerProtocol U))
      → Keeps (reads_of {U = U} pace) (handle_read r)
  unfolding handle_read
  handle_read-Keeps (ok pkt) = handle_packet-Keeps pkt.pdu.cid pkt.pdu.payload
  handle_read-Keeps (err (io would_block)) = λ s. refl
  handle_read-Keeps (err (io timed_out)) = λ s. refl
  handle_read-Keeps (err (io other_kind)) = λ s. refl
  handle_read-Keeps (err e) = λ s. refl
  handle_read-Keeps panic = λ s. refl

  check_waiting-Keeps : (now : ℕ) → Keeps (reads_of {U = U} pace) (check_waiting now)
  unfolding check_waiting_data_timeouts
  check_waiting-Keeps now self = refl

  pub run_checks-Keeps : Keeps (reads_of {U = U} pace) run_checks
  unfolding run_checks
  run_checks-Keeps =
      bind-Keeps (reads_of {U = U} pace) instant
        (λ now. check_sequences now >> (instant >>= check_waiting)) (instant-Keeps pace)
        λ now.
          bind-Keeps (reads_of {U = U} pace) (check_sequences now) (λ _. instant >>= check_waiting)
            (λ s. refl)
            λ _.
              bind-Keeps (reads_of {U = U} pace) instant check_waiting (instant-Keeps pace)
                check_waiting-Keeps

module _ {S U : Type 0} ⦃crate : UuidCrate U⦄ ⦃sockets : SocketCalls S⦄ ⦃calls : ReadCalls S⦄
    (pace : Paced S) where
  pub remaining-Keeps : (deadline : Option ℕ) → Keeps (reads_of {U = U} pace) (remaining deadline)
  unfolding remaining
  remaining-Keeps none self = refl
  remaining-Keeps (some deadline) self =
      bind-Keeps (reads_of {U = U} pace) instant
        (λ now. refuse_if (leb deadline now) (io would_block) >> return (some (deadline - now)))
        (instant-Keeps pace)
        (λ now.
          bind-Keeps (reads_of {U = U} pace) (refuse_if (leb deadline now) (io would_block))
            (λ _. return (some (deadline - now)))
            (refuse_if-Keeps (reads_of {U = U} pace) (leb deadline now) (io would_block))
            (λ _ s. refl))
        self

module _ {S : Type 0} (U : Type 0) ⦃crate : UuidCrate U⦄ ⦃net : NetworkEndian⦄
    ⦃sockets : SocketCalls S⦄ ⦃calls : ReadCalls S⦄ (pace : Paced S) where
  recv-reads :
      (buf : List ℕ) (self : SacnNetworkReceiver S)
      → pace.reads ((Network.recv {U = U} buf self).1.socket) ≡ suc (pace.reads self.socket)
  unfolding Network.recv
  recv-reads buf self =
      let count = λ (n : SacnNetworkReceiver S). pace.reads n.socket in
      let bytes = calls.read (length buf) self.socket in
      and_then_keeps (λ n. count n ≡ suc (pace.reads self.socket))
        (with_socket (on_socket (calls.read (length buf))) self) (parse_read buf)
        (ap pace.reads (io_result-state U bytes) ∙ pace.read-reads (length buf) self.socket)
        λ got.
          bind-Keeps count
            (refuse_if (ltb rcv_buf_default_size (length got))
              (too_many_bytes_read (length got) (length buf)))
            (λ _. lift (parse (got ++ drop (length got) buf))) (refuse_if-Keeps count _ _)
            (λ _ n. refl) _
          ∙ ap pace.reads (io_result-state U bytes)
          ∙ pace.read-reads (length buf) self.socket

module _ {S U : Type 0} ⦃crate : UuidCrate U⦄ ⦃net : NetworkEndian⦄ ⦃sockets : SocketCalls S⦄
    ⦃calls : ReadCalls S⦄ (pace : Paced S) where
  pub set_timeout-Keeps :
      (t : Option ℕ) → Keeps (reads_of {U = U} pace) (on_network (set_timeout t))
  unfolding set_timeout
  set_timeout-Keeps t self =
      ap pace.reads (io_result-state U (calls.set_read_timeout t self.receiver.socket))
      ∙ pace.timeout-reads t self.receiver.socket

  pub read_packet-reads :
      (self : SacnReceiver S U) → reads_of pace ((read_packet self).1) ≡ suc (reads_of pace self)
  unfolding read_packet
  read_packet-reads self =
      let r = Network.recv (replicate rcv_buf_default_size 0) self.receiver in
      handle_read-Keeps pace (r.0) (record self { receiver = r.1 })
      ∙ recv-reads U pace (replicate rcv_buf_default_size 0) self.receiver
