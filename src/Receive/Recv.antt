-- ===== src/Receive/Recv.antt =====
-- `SacnReceiver::recv` of src/receive.rs: the loop that reads packets until one has data to hand on,
-- an error stops it or its timeout has passed.
pub mod Calls
pub mod Handling
pub mod Termination
use sacn_rust.Packet.DiscoveryFraming.{UniverseDiscoveryPacketFramingLayer}
use sacn_rust.Common.{
  ℕ, zero, suc, ◌+◌, ◌-◌, ◌==◌, ◌&&◌, ltb, leb, not, Bool, false, Option, none, some, List, [], ◌∷◌,
  length, replicate, Outcome, ok, err, panic, if◌then◌else◌,
}
use sacn_rust.Common.State.{Stateful, ◌>>=◌, ◌>>◌, return, fail, refuse_if}
use sacn_rust.Packet.Constants.{
  e131_discovery_universe, e131_network_data_loss_timeout, rcv_buf_default_size,
}
use sacn_rust.Packet.Root.{
  E131RootLayerData, data_packet, synchronization_packet, universe_discovery_packet,
}
use sacn_rust.Packet.Acn.{AcnRootLayerProtocol}
use sacn_rust.Error.{
  SacnError, io, would_block, timed_out, source_discovered, no_data_universes_registered,
}
use sacn_rust.External.{UuidCrate, NetworkEndian}
use sacn_rust.Receive.Merge.{DmxData}
use sacn_rust.Receive.Sequence.{check_all_timeouts}
use sacn_rust.Receive.Network as Network
use sacn_rust.Receive.Network.{SocketCalls, ReadCalls, set_timeout}
use sacn_rust.Receive.Receiver.{SacnReceiver, check_waiting_data_timeouts, on_network}
use sacn_rust.Receive.Handlers.{
  on_sequences, handle_data_packet, handle_sync_packet, handle_universe_discovery_packet,
}

-- `Instant::now().checked_add(t)`: `none` if there is no such instant.
abbrev pub checked_add : ℕ → ℕ → ℕ → Option ℕ
checked_add instant_max now t = if leb (now + t) instant_max then some (now + t) else none

-- What the loop does after a turn: another, or the end with data or an error.
abbrev pub continue_with :
    {S E A : Type 0}
    → (S → Option (Outcome E A × S))
    → Outcome E (Option A) × S
    → Option (Outcome E A × S)
continue_with again (ok none, s) = again s
continue_with again (ok (some a), s) = some (ok a, s)
continue_with again (err e, s) = some (err e, s)
continue_with again (panic, s) = some (panic, s)

-- The time that one read may take: `E131_NETWORK_DATA_LOSS_TIMEOUT` at most.
abbrev pub actual_timeout : Option ℕ → ℕ
actual_timeout none = e131_network_data_loss_timeout
actual_timeout (some rem) =
    if ltb rem e131_network_data_loss_timeout then rem else e131_network_data_loss_timeout

module _ {S U : Type 0} ⦃calls : ReadCalls S⦄ where
  -- `Instant::now()`.
  abbrev pub instant : Stateful (SacnReceiver S U) (SacnError U) ℕ
  instant self =
      let r = calls.instant self.receiver.socket in
      (ok (r.0), record self { receiver = record self.receiver { socket = r.1 } })

module _ {S U : Type 0} ⦃crate : UuidCrate U⦄ ⦃sockets : SocketCalls S⦄ ⦃calls : ReadCalls S⦄ where
  abbrev pub check_sequences : ℕ → Stateful (SacnReceiver S U) (SacnError U) (Unit {0})
  check_sequences now self = on_sequences (check_all_timeouts now self.announce_timeout) self

  abbrev pub check_waiting : ℕ → Stateful (SacnReceiver S U) (SacnError U) (Unit {0})
  check_waiting now self = (ok tt, check_waiting_data_timeouts now self)

  -- The checks at the start of each turn, and of a call with a timeout of zero.
  unfoldable pub run_checks : Stateful (SacnReceiver S U) (SacnError U) (Unit {0})
  run_checks = instant >>= λ now. check_sequences now >> (instant >>= check_waiting)

  -- The time that is left until the deadline, or the error that it has passed.
  unfoldable pub remaining : Option ℕ → Stateful (SacnReceiver S U) (SacnError U) (Option ℕ)
  remaining none = return none
  remaining (some deadline) = do
    now ← instant
    refuse_if (leb deadline now) (io would_block)
    return (some (deadline - now))

  -- The arm for discovery packets.
  abbrev pub handle_discovery :
      UniverseDiscoveryPacketFramingLayer
      → U
      → ℕ
      → Stateful (SacnReceiver S U) (SacnError U) (Option (List (DmxData U)))
  handle_discovery u cid now self =
      let r = handle_universe_discovery_packet now cid u self in
      elim (r.0) [
        | none ↦ (ok none, r.1)
        | some src ↦
            if self.announce_source_discovery
            then (err (source_discovered src), r.1)
            else (ok none, r.1)
      ]

  unfoldable pub handle_packet :
      U → E131RootLayerData → Stateful (SacnReceiver S U) (SacnError U) (Option (List (DmxData U)))
  handle_packet cid (data_packet d) = instant >>= λ now. handle_data_packet now cid d
  handle_packet cid (synchronization_packet s) = instant >>= λ now. handle_sync_packet now cid s
  handle_packet cid (universe_discovery_packet u) = instant >>= handle_discovery u cid

  -- The two branches of the `match` on what has been read.
  unfoldable pub handle_read :
      Outcome (SacnError U) (AcnRootLayerProtocol U)
      → Stateful (SacnReceiver S U) (SacnError U) (Option (List (DmxData U)))
  unfolding handle_packet
  handle_read (ok pkt) = handle_packet pkt.pdu.cid pkt.pdu.payload
  handle_read (err (io would_block)) = return none
  handle_read (err (io timed_out)) = return none
  handle_read (err e) = fail e
  handle_read panic = λ self. (panic, self)

module _ {S U : Type 0} ⦃crate : UuidCrate U⦄ ⦃net : NetworkEndian⦄ ⦃sockets : SocketCalls S⦄
    ⦃calls : ReadCalls S⦄ where
  -- `match self.receiver.recv(&mut buf)`, with the buffer zeroed.
  unfoldable pub read_packet : Stateful (SacnReceiver S U) (SacnError U) (Option (List (DmxData U)))
  unfolding handle_read
  read_packet self =
      let r = Network.recv (replicate rcv_buf_default_size 0) self.receiver in
      handle_read (r.0) (record self { receiver = r.1 })

  -- One turn of the loop: `none` if there is another.
  unfoldable pub turn :
      Option ℕ → Stateful (SacnReceiver S U) (SacnError U) (Option (List (DmxData U)))
  unfolding run_checks remaining read_packet
  turn deadline = do
    run_checks
    rem ← remaining deadline
    on_network (set_timeout (some (actual_timeout rem)))
    read_packet

  -- The loop, with fuel: `none` means that the fuel ran out.
  unfoldable pub recv_loop :
      ℕ
      → Option ℕ
      → SacnReceiver S U
      → Option (Outcome (SacnError U) (List (DmxData U)) × SacnReceiver S U)
  unfolding turn
  recv_loop zero deadline self = none
  recv_loop (suc fuel) deadline self = continue_with (recv_loop fuel deadline) (turn deadline self)

  -- Only the discovery universe is listened to, and nothing of it is announced.
  abbrev pub can_never_return : Option ℕ → SacnReceiver S U → Bool
  can_never_return (some t) self = false
  can_never_return none self = elim self.universes [
    | [] ↦ false
    | u ∷ us ↦
        (length us == 0) && (u == e131_discovery_universe) && not self.announce_source_discovery
  ]

  unfoldable pub recv :
      ℕ
      → Option ℕ
      → SacnReceiver S U
      → Option (Outcome (SacnError U) (List (DmxData U)) × SacnReceiver S U)
  unfolding recv_loop
  recv fuel none self =
      if can_never_return none self
      then some (err no_data_universes_registered, self)
      else recv_loop fuel none self
  recv fuel (some zero) self = some ((run_checks >> fail (io would_block)) self)
  recv fuel (some (suc t)) self =
      let r = instant self in
      recv_loop fuel (checked_add calls.instant_max (calls.instant self.receiver.socket).0 (suc t))
        (r.1)
