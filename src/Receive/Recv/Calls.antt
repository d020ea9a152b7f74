-- ===== src/Receive/Recv/Calls.antt =====
-- What the steps of `recv` do with the socket of a receiver: which calls they make on it.
use sacn_rust.Receive.Sequence.{SequenceNumbering}
use sacn_rust.Common.{
  ℕ, suc, ◌+◌, ◌*◌, ◌≤◌, ◌≡◌, ◌∙◌, refl, ap, Option, List, [], ◌∷◌, Outcome, ok, err, panic, arith,
}
use sacn_rust.Common.State.{Keeps, bind-Keeps, Stateful, lift}
use sacn_rust.Packet.Universe.{SocketAddr, v4, v6}
use sacn_rust.Packet.DiscoveryFraming.{UniverseDiscoveryPacketFramingLayer}
use sacn_rust.Error.{SacnError, IoErrorKind}
use sacn_rust.External.{UuidCrate}
use sacn_rust.Receive.Merge.{DmxData}
use sacn_rust.Receive.Network.{
  io_result, SocketCalls, ReadCalls, SacnNetworkReceiver, join_unix_multicast, multicast_addr,
  listen_multicast_universe,
}
use sacn_rust.Receive.Receiver.{
  SacnReceiver, listen_universe, listen_each, listen_universes, check_range,
}
use sacn_rust.Receive.Handlers.{
  on_sequences, handle_universe_discovery_packet, store_waiting_data, add_page, terminate_stream,
}
use sacn_rust.Receive.Recv.{instant}

-- A number that every call on the socket but `read` leaves as it is, and `read` makes larger by
-- one: the number of reads so far. There are at most `rate` of them in each unit of time.
pub record Paced (S : Type 0) ⦃sockets : SocketCalls S⦄ ⦃calls : ReadCalls S⦄ : Type 0 where
  pub rate : ℕ
  pub reads : S → ℕ
  pub instant-reads : (s : S) → reads (calls.instant s).1 ≡ reads s
  pub timeout-reads : (t : Option ℕ) (s : S) → reads (calls.set_read_timeout t s).1 ≡ reads s
  pub join_v4-reads :
      (group interface_v4 : List ℕ) (s : S)
      → reads (sockets.join_multicast_v4 group interface_v4 s).1 ≡ reads s
  pub join_v6-reads :
      (group : List ℕ) (s : S) → reads (sockets.join_multicast_v6 group s).1 ≡ reads s
  pub read-reads : (n : ℕ) (s : S) → reads (calls.read n s).1 ≡ suc (reads s)
  pub paced : (s : S) → reads s ≤ rate * ((calls.instant s).0 + 1)

pub io_result-state :
    {S A : Type 0} (U : Type 0) (r : Outcome IoErrorKind A × S) → (io_result {U = U} r).1 ≡ r.1
io_result-state U (ok a, s) = refl
io_result-state U (err e, s) = refl
io_result-state U (panic, s) = refl

module _ {S U : Type 0} where
  -- The handler of discovery packets makes no call.
  pub discovery-receiver :
      ⦃crate : UuidCrate U⦄ (now : ℕ) (cid : U) (pkt : UniverseDiscoveryPacketFramingLayer)
      (self : SacnReceiver S U)
      → ((handle_universe_discovery_packet now cid pkt self).1).receiver ≡ self.receiver
  unfolding handle_universe_discovery_packet add_page
  discovery-receiver now cid pkt self = ground arith

  pub terminate_stream-receiver :
      ⦃crate : UuidCrate U⦄ (cid : U) (universe : ℕ) (self : SacnReceiver S U)
      → (terminate_stream cid universe self).receiver ≡ self.receiver
  unfolding terminate_stream
  terminate_stream-receiver cid universe self = ground arith

  pub store_waiting_data-receiver :
      (new : DmxData U) (self : SacnReceiver S U)
      → ((store_waiting_data new self).1).receiver ≡ self.receiver
  unfolding store_waiting_data
  store_waiting_data-receiver new self = ground arith

module _ {S : Type 0} (U : Type 0) ⦃sockets : SocketCalls S⦄ ⦃calls : ReadCalls S⦄
    (pace : Paced S) where
  pub join-Keeps :
      (addr interface_addr : SocketAddr)
      → Keeps pace.reads (join_unix_multicast {U = U} addr interface_addr)
  unfolding join_unix_multicast
  join-Keeps (v4 group _) (v4 interface_v4 _) s =
      ap pace.reads (io_result-state U (sockets.join_multicast_v4 group interface_v4 s))
      ∙ pace.join_v4-reads group interface_v4 s
  join-Keeps (v4 group _) (v6 _ _) s = refl
  join-Keeps (v6 group _) _ s =
      ap pace.reads (io_result-state U (sockets.join_multicast_v6 group s))
      ∙ pace.join_v6-reads group s

  pub listen_multicast-Keeps :
      (universe : ℕ)
      → Keeps
          (λ (n : SacnNetworkReceiver S). pace.reads n.socket)
          (listen_multicast_universe {U = U} universe)
  unfolding listen_multicast_universe
  listen_multicast-Keeps universe self =
      bind-Keeps (λ (n : SacnNetworkReceiver S). pace.reads n.socket)
        (lift (multicast_addr self.addr universe)) _ (λ n. refl)
        (λ addr n. join-Keeps addr self.addr n.socket) self

-- The number of reads of a receiver, and which of its steps keep it.
module _ {S U : Type 0} ⦃sockets : SocketCalls S⦄ ⦃calls : ReadCalls S⦄ (pace : Paced S) where
  abbrev pub reads_of : SacnReceiver S U → ℕ
  reads_of self = pace.reads self.receiver.socket

  pub instant-Keeps : Keeps reads_of instant
  instant-Keeps self = pace.instant-reads self.receiver.socket

  pub on_sequences-Keeps :
      (m : Stateful (SequenceNumbering U) (SacnError U) (Unit {0}))
      → Keeps reads_of (on_sequences m)
  on_sequences-Keeps m self = refl

  pub listen_universe-Keeps : (u : ℕ) → Keeps reads_of (listen_universe u)
  unfolding listen_universe
  listen_universe-Keeps u self = ground (arith, listen_multicast-Keeps U pace u self.receiver)

  pub listen_each-Keeps : (us : List ℕ) → Keeps reads_of (listen_each us)
  unfolding listen_each
  listen_each-Keeps [] self = refl
  listen_each-Keeps (u ∷ us) self =
      bind-Keeps reads_of (listen_universe u) _ (listen_universe-Keeps u)
        (λ _. listen_each-Keeps us) self

  pub listen_universes-Keeps : (us : List ℕ) → Keeps reads_of (listen_universes us)
  unfolding listen_universes
  listen_universes-Keeps us =
      bind-Keeps reads_of (lift (check_range us)) _ (λ s. refl) (λ _. listen_each-Keeps us)
