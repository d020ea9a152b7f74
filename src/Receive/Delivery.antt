-- ===== src/Receive/Delivery.antt =====
-- What `handle_data_packet` and `handle_sync_packet` of src/receive.rs hand on.
use sacn_rust.Receive.Listening.{listen_universes_again}
use sacn_rust.Receive.Waiting.{store_waiting_data_first, IsAmong, IsDue, rtrv_waiting_data-released}
use sacn_rust.Packet.Universe.{is_universe_in_range}
use sacn_rust.Receive.Sequence.Window.{IsStale}
use sacn_rust.Receive.Sequence.Check.{check_seq_number-Accepts, check_seq_number-IsStale}
use sacn_rust.Receive.Sequence.Steps.{expired, live_seq, check, put, Accepts, HasPlace}
use sacn_rust.Receive.Sequence.Lookup.{IsTable, last_seq}
use sacn_rust.Receive.Sequence.{
  is_empty, check_sync_seq_number, TimedStampedSeqNo, Sequences, check_data_seq_number,
  wrapping_sub, as_i8,
}
use sacn_rust.Packet.Sync.{SynchronizationPacketFramingLayer}
use sacn_rust.Packet.DataFraming.{DataPacketFramingLayer}
use sacn_rust.Receive.Network.{SocketCalls}
use sacn_rust.External.{UuidCrate, IsByte}
use sacn_rust.Error.{Result, out_of_sequence}
use sacn_rust.Receive.Handlers.{
  check_data_packet, deliver_data_packet, packet_data, handle_data_packet, handle_sync_packet,
  rtrv_waiting_data, store_waiting_data,
}
use sacn_rust.Receive.Receiver.{SacnReceiver, is_listening, clear_waiting_data, listen_universes}
use sacn_rust.Receive.Merge.{DmxData}
use sacn_rust.Common.HashMap.Keys.{keep, HasDistinctKeys}
use sacn_rust.Common.HashMap.{get-insert, get, insert, remove, get-remove_self, get-remove_ne}
use sacn_rust.Common.State.{◌>>◌, bind_ok, and_then, return}
use sacn_rust.Common.{
  ℕ, ◌==◌, ◌≡◌, ◌≢◌, ◌↔◌, ◌∙◌, ◌&&◌, refl, ap, true, false, not, Option, none, some, List, [], ◌∷◌,
  ok, err, if◌then◌else◌, ℕ_discrete, eq→==, ne→==,
}
use mathlib.Core.Logic.{ite}

module _ {U : Type 0} where
  -- The data that a packet brings, with the time at which it has come.
  abbrev pub data_of : ℕ → U → DataPacketFramingLayer → DmxData U
  data_of now cid pkt = record {
    universe = pkt.universe;
    values = pkt.dmp.property_values;
    sync_uni = pkt.synchronization_address;
    priority = pkt.priority;
    src_cid = some cid;
    preview = pkt.preview_data;
    recv_timestamp = now;
  }

-- A packet that goes on to the check of its sequence number.
pub record IsHandled {S U : Type 0} (pkt : DataPacketFramingLayer) (self : SacnReceiver S U)
    : Type 0 where
  pub wanted : (pkt.preview_data && not self.process_preview_data) ≡ false
  pub not_terminated : pkt.stream_terminated ≡ false
  pub listening : is_listening self pkt.universe ≡ true
  pub silent : self.announce_timeout ≡ false

module _ {S U : Type 0} ⦃crate : UuidCrate U⦄ ⦃calls : SocketCalls S⦄ where
  -- The table of the receiver's data sequence numbers.
  abbrev pub data_seq : SacnReceiver S U → U → ℕ → Option TimedStampedSeqNo
  data_seq self = last_seq self.sequences.data_sequences

  -- The check of the sequence number, and the receiver after it.
  abbrev pub checked :
      ℕ → U → DataPacketFramingLayer → SacnReceiver S U → Result U (Unit {0}) × Sequences U
  checked now cid pkt self =
      check now self.source_limit cid pkt.sequence_number pkt.universe self.sequences.data_sequences

  abbrev pub after_check : ℕ → U → DataPacketFramingLayer → SacnReceiver S U → SacnReceiver S U
  after_check now cid pkt self = record self {
    sequences = record self.sequences { data_sequences = (checked now cid pkt self).1 };
  }

  pub handled_lem :
      (now : ℕ) (cid : U) (pkt : DataPacketFramingLayer) (self : SacnReceiver S U)
      {o : Result U (Unit {0})}
      → IsHandled pkt self
      → (checked now cid pkt self).0 ≡ o
      → handle_data_packet now cid pkt self
        ≡ and_then (o, after_check now cid pkt self) (λ _. deliver_data_packet now cid pkt)
  unfolding handle_data_packet check_data_packet check_data_seq_number
  handled_lem now cid pkt self h e =
      let step : check_data_packet now cid pkt self
          ≡ ((checked now cid pkt self).0, after_check now cid pkt self) =
        rw (check_data_packet, h.silent) refl in
      let start : handle_data_packet now cid pkt self
          ≡ and_then (check_data_packet now cid pkt self) (λ _. deliver_data_packet now cid pkt) =
        rw (handle_data_packet, h.wanted, h.not_terminated, h.listening) refl in
      start
      ∙ ap (λ r. and_then r (λ _. deliver_data_packet now cid pkt)) step
      ∙ ap (λ o. and_then (o, after_check now cid pkt self) (λ _. deliver_data_packet now cid pkt))
          e

  -- A data packet that the receiver handles (not unwanted preview data, not a termination, of a
  -- universe that is listened to, timeouts not announced), that is not synchronised and whose
  -- sequence number is accepted, is handed on as the only data; what waited for its universe is
  -- discarded, other waiting data stays, and its sequence number is stored.
  pub handle_data_packet-immediate :
      (now : ℕ) (cid : U) (pkt : DataPacketFramingLayer) (self : SacnReceiver S U)
      → IsHandled pkt self
      → pkt.synchronization_address ≡ 0
      → IsTable self.sequences.data_sequences
      → IsByte pkt.sequence_number
      → HasPlace self.source_limit cid (expired now self.sequences.data_sequences)
      → Accepts pkt.sequence_number (live_seq now self.sequences.data_sequences cid pkt.universe)
      → (left : SacnReceiver S U) × (handle_data_packet now cid pkt self
          ≡ (ok (some (data_of now cid pkt ∷ [])), left))
        × (get ℕ_discrete pkt.universe left.waiting_data ≡ none)
        × ((u : ℕ)
            → pkt.universe ≢ u
            → get ℕ_discrete u left.waiting_data ≡ get ℕ_discrete u self.waiting_data)
        × ((c : U) (u : ℕ)
            → data_seq left c u
              ≡ put cid pkt.universe
                  (record { sequence_number = pkt.sequence_number; last_recv = now })
                  (live_seq now self.sequences.data_sequences)
                  c
                  u)
  unfolding deliver_data_packet clear_waiting_data packet_data
  handle_data_packet-immediate now cid pkt self h sync t b place fresh =
      let (accepted, _, table) =
        check_seq_number-Accepts now self.source_limit cid pkt.sequence_number pkt.universe
          self.sequences.data_sequences t b place fresh in
      let s1 = after_check now cid pkt self in
      (
        record s1 { waiting_data = remove ℕ_discrete pkt.universe s1.waiting_data },
        handled_lem now cid pkt self h accepted
            ∙ rw (deliver_data_packet, eq→== pkt.synchronization_address 0 sync),
        get-remove_self ℕ_discrete pkt.universe self.waiting_data,
        λ u n. get-remove_ne ℕ_discrete pkt.universe u self.waiting_data n,
        table,
      )

  -- A data packet that the receiver handles and whose sequence number is stale is refused with
  -- `OutOfSequence`; of the receiver only the data sequence numbers change, to the table after the
  -- timeouts.
  pub handle_data_packet-IsStale :
      (now : ℕ) (cid : U) (pkt : DataPacketFramingLayer) (self : SacnReceiver S U)
      (last : TimedStampedSeqNo)
      → IsHandled pkt self
      → IsTable self.sequences.data_sequences
      → IsByte pkt.sequence_number
      → live_seq now self.sequences.data_sequences cid pkt.universe ≡ some last
      → IsByte last.sequence_number
      → IsStale last.sequence_number pkt.sequence_number
      → (left : Sequences U) × (handle_data_packet now cid pkt self ≡ (
        err (
            out_of_sequence pkt.sequence_number last.sequence_number
              (as_i8 (wrapping_sub pkt.sequence_number last.sequence_number))),
        record self { sequences = record self.sequences { data_sequences = left } },
      ))
        × ((c : U) (u : ℕ) → last_seq left c u ≡ live_seq now self.sequences.data_sequences c u)
  handle_data_packet-IsStale now cid pkt self last h t b l lb stale =
      let (refused, table) =
        check_seq_number-IsStale now self.source_limit cid pkt.sequence_number pkt.universe
          self.sequences.data_sequences last t b l lb stale in
      ((checked now cid pkt self).1, handled_lem now cid pkt self h refused, table)

  -- A data packet that the receiver handles, with a synchronisation universe that is in range and
  -- listened to already, whose sequence number is accepted and for whose universe nothing waits, is
  -- not handed on: it waits for its universe, and the other waiting data stays.
  pub handle_data_packet-synchronised :
      (now : ℕ) (cid : U) (pkt : DataPacketFramingLayer) (self : SacnReceiver S U)
      → IsHandled pkt self
      → pkt.synchronization_address ≢ 0
      → is_universe_in_range {U = U} pkt.synchronization_address ≡ ok tt
      → is_listening self pkt.synchronization_address ≡ true
      → IsTable self.sequences.data_sequences
      → IsByte pkt.sequence_number
      → HasPlace self.source_limit cid (expired now self.sequences.data_sequences)
      → Accepts pkt.sequence_number (live_seq now self.sequences.data_sequences cid pkt.universe)
      → get ℕ_discrete pkt.universe self.waiting_data ≡ none
      → (left : SacnReceiver S U) × (handle_data_packet now cid pkt self ≡ (ok none, left))
        × ((u : ℕ)
            → get ℕ_discrete u left.waiting_data
              ≡ ite
                  (ℕ_discrete pkt.universe u)
                  (some (data_of now cid pkt))
                  (get ℕ_discrete u self.waiting_data))
  unfolding deliver_data_packet is_listening packet_data
  handle_data_packet-synchronised now cid pkt self h sync range l t b place fresh empty =
      let (accepted, _, table) =
        check_seq_number-Accepts now self.source_limit cid pkt.sequence_number pkt.universe
          self.sequences.data_sequences t b place fresh in
      let s1 = after_check now cid pkt self in
      (
        record s1 {
          waiting_data = insert ℕ_discrete pkt.universe (packet_data now cid pkt) s1.waiting_data;
        },
        handled_lem now cid pkt self h accepted
            ∙ rw (deliver_data_packet, ne→== pkt.synchronization_address 0 sync)
                (bind_ok
                  (listen_universes (pkt.synchronization_address ∷ [])
                    >> store_waiting_data (packet_data now cid pkt))
                  (λ _. return none)
                  (bind_ok (listen_universes (pkt.synchronization_address ∷ []))
                      (λ _. store_waiting_data (packet_data now cid pkt))
                      (listen_universes_again pkt.synchronization_address s1 range l)
                    ∙ store_waiting_data_first (packet_data now cid pkt) s1 empty)),
        λ u. get-insert ℕ_discrete pkt.universe u (packet_data now cid pkt) self.waiting_data,
      )

module _ {S U : Type 0} ⦃crate : UuidCrate U⦄ where
  -- A synchronisation packet for a universe that is listened to, whose sequence number is accepted,
  -- hands on exactly the waiting data that has its universe as synchronisation universe and is
  -- younger than the network data loss timeout, or nothing if there is none; afterwards exactly the
  -- data of other synchronisation universes waits. The waiting data has one entry for a universe.
  pub handle_sync_packet-released :
      (now : ℕ) (cid : U) (pkt : SynchronizationPacketFramingLayer) (self : SacnReceiver S U)
      → is_listening self pkt.synchronization_address ≡ true
      → (check_sync_seq_number now self.source_limit cid pkt.sequence_number
          pkt.synchronization_address self.announce_timeout self.sequences).0
        ≡ ok tt
      → HasDistinctKeys ℕ_discrete self.waiting_data
      → (res : List (DmxData U)) × (left : SacnReceiver S U) × (handle_sync_packet now cid pkt self
          ≡ (ok (if is_empty res then none else some res), left))
        × ((d : DmxData U)
            → IsAmong d res
              ↔ (u : ℕ) × (get ℕ_discrete u self.waiting_data ≡ some d)
                × IsDue now pkt.synchronization_address d)
        × ((u : ℕ)
            → get ℕ_discrete u left.waiting_data
              ≡ keep
                  (λ d. not (d.sync_uni == pkt.synchronization_address))
                  (get ℕ_discrete u self.waiting_data))
  unfolding handle_sync_packet rtrv_waiting_data
  handle_sync_packet-released now cid pkt self l e h =
      let r =
        check_sync_seq_number now self.source_limit cid pkt.sequence_number
          pkt.synchronization_address self.announce_timeout self.sequences in
      let s1 : SacnReceiver S U = record self { sequences = r.1 } in
      let (due, others) = rtrv_waiting_data-released now pkt.synchronization_address s1 h in
      let out = rtrv_waiting_data now pkt.synchronization_address s1 in
      (out.0, out.1, rw (handle_sync_packet, l, e), due, others)
