-- ===== src/Session.antt =====
-- A source (src/source.rs) and a receiver (src/receive.rs) that are joined by a link: every packet
-- that the source gives to its socket is the next that the receiver reads.
pub mod Discovery
pub mod InOrder
pub mod Pages
pub mod Sources
use sacn_rust.Common.{
  ℕ, ◌+◌, ◌-◌, ◌≤◌, ◌<◌, ◌≡◌, ◌≢◌, ◌∙◌, ◌&&◌, ◌++◌, refl, sym, ap, subst, inl, inr, Bool, true,
  false, not, Option, none, some, List, [], ◌∷◌, Outcome, ok, err, panic, ℕ_discrete, arith, length,
  replicate, Option-cases,
}
use sacn_rust.Common.HashMap.{get, insert, get-insert_self, remove}
use sacn_rust.Common.State.{Stateful}
use sacn_rust.Packet.Constants.{rcv_buf_default_size}
use sacn_rust.Packet.Universe.{SocketAddr}
use sacn_rust.Packet.Acn.{AcnRootLayerProtocol, parse}
use sacn_rust.Packet.Acn.RoundTrip as AcnTrip
use sacn_rust.Packet.DataFraming.{DataPacketFramingLayer}
use sacn_rust.Packet.DataFraming.RoundTrip as DataTrip
use sacn_rust.Packet.Name.{is_utf8}
use sacn_rust.Packet.Name.Field.{NoZero}
use sacn_rust.Error.{SacnError}
use sacn_rust.External.{UuidCrate, NetworkEndian, IsByte}
use sacn_rust.Receive.Merge.{DmxData}
use sacn_rust.Receive.Network.{SocketCalls, ReadCalls}
use sacn_rust.Receive.Receiver.{SacnReceiver, is_listening}
use sacn_rust.Receive.Handlers.{handle_data_packet, packet_data}
use sacn_rust.Receive.Recv.{handle_read, handle_packet, instant}
use sacn_rust.Receive.Delivery.{IsHandled, handle_data_packet-immediate, data_seq}
use sacn_rust.Receive.Sequence.Lookup.{IsTable, last_seq}
use sacn_rust.Receive.Sequence.Steps.{Accepts, live_seq}
use sacn_rust.Source.{
  SendCalls, SacnSourceInternal, current_sequence, next_sequence, destination, data_packet_of,
}
use sacn_rust.Source.Sending.{send_universe}
use sacn_rust.Source.Behaviour.{sent, layer, send_universe-sent, next_sequence-Accepts}

-- What has been sent, the last packet first. A send on the link does not fail.
abbrev pub Link : Type 0
Link = List (List ℕ × SocketAddr)

instance abbrev pub link : SendCalls Link
link = record { send_to = λ bytes dst s. (ok tt, (bytes, dst) ∷ s) }

-- The buffer of the receiver, after a packet has been read into it.
abbrev pub buffer_of : List ℕ → List ℕ
buffer_of bytes = bytes ++ replicate (rcv_buf_default_size - length bytes) 0

abbrev pub Handed : Type 0 → Type 0
Handed U = Outcome (SacnError U) (Option (List (DmxData U)))

module _ {U : Type 0} where
  -- The values that are handed on.
  abbrev pub all_values : List (DmxData U) → List (List ℕ)
  all_values [] = []
  all_values (d ∷ ds) = d.values ∷ all_values ds

  abbrev pub values_of : Handed U → List (List ℕ)
  values_of (ok (some ds)) = all_values ds
  values_of _ = []

module _ {S U : Type 0} ⦃crate : UuidCrate U⦄ ⦃net : NetworkEndian⦄ ⦃sockets : SocketCalls S⦄
    ⦃calls : ReadCalls S⦄ where
  -- The receiver reads the packet that was sent last.
  abbrev pub receive_sent :
      Link → Stateful (SacnReceiver S U) (SacnError U) (Option (List (DmxData U)))
  receive_sent [] self = (ok none, self)
  receive_sent ((bytes, _) ∷ _) self = handle_read (parse (buffer_of bytes)) self

  -- The source sends values to a universe; if it succeeds the receiver reads its packet.
  abbrev pub received_after :
      Outcome (SacnError U) (Unit {0}) × SacnSourceInternal Link U
      → SacnReceiver S U
      → Handed U × SacnSourceInternal Link U × SacnReceiver S U
  received_after (ok _, src) self = let r = receive_sent src.socket self in (r.0, src, r.1)
  received_after (err e, src) self = (err e, src, self)
  received_after (panic, src) self = (panic, src, self)

  unfoldable pub transmit :
      ℕ
      → ℕ
      → List ℕ
      → SacnSourceInternal Link U
      → SacnReceiver S U
      → Handed U × SacnSourceInternal Link U × SacnReceiver S U
  transmit universe priority values src self =
      received_after (send_universe universe values priority none 0 src) self

  -- The values that the receiver hands on while the source sends one packet after the other.
  unfoldable pub transmit_all :
      ℕ → ℕ → List (List ℕ) → SacnSourceInternal Link U → SacnReceiver S U → List (List ℕ)
  unfolding transmit
  transmit_all universe priority [] src self = []
  transmit_all universe priority (values ∷ more) src self =
      let r = transmit universe priority values src self in
      values_of (r.0) ++ transmit_all universe priority more (r.1) (r.2)
