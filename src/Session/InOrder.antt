-- ===== src/Session/InOrder.antt =====
-- Over a link, a receiver hands on what a source sends, in order.
use sacn_rust.Common.HashMap.Keys.{keep}
use sacn_rust.Common.{
  Bool-cases, ℕ, ◌≤◌, ◌<◌, ◌≡◌, ◌∙◌, ◌&&◌, ◌++◌, refl, sym, ap, subst, inl, inr, true, false, not,
  Option, none, some, List, [], ◌∷◌, Outcome, ok, ℕ_discrete, arith, length, All, eq→==,
}
use sacn_rust.Common.HashMap.{insert, get-insert_self, remove}
use sacn_rust.Packet.Constants.{starting_sequence_number, e131_network_data_loss_timeout}
use sacn_rust.Packet.Universe.{SocketAddr}
use sacn_rust.Packet.Acn.{AcnRootLayerProtocol, parse}
use sacn_rust.Packet.Acn.RoundTrip as AcnTrip
use sacn_rust.Packet.DataFraming.{DataPacketFramingLayer}
use sacn_rust.Packet.DataFraming.RoundTrip as DataTrip
use sacn_rust.Packet.Name.{is_utf8}
use sacn_rust.Packet.Name.Field.{NoZero}
use sacn_rust.Error.{SacnError}
use sacn_rust.External.{UuidCrate, NetworkEndian, IsByte}
use sacn_rust.Receive.Merge.{DmxData}
use sacn_rust.Receive.Network.{SocketCalls, ReadCalls}
use sacn_rust.Receive.Receiver.{SacnReceiver, is_listening, clear_waiting_data}
use sacn_rust.Receive.Handlers.{handle_data_packet, packet_data, deliver_data_packet}
use sacn_rust.Receive.Recv.{handle_read, handle_packet, instant}
use sacn_rust.Receive.Delivery.{IsHandled, handled_lem, after_check}
use sacn_rust.Receive.Sequence.{TimedStampedSeqNo, is_timed_out}
use sacn_rust.Receive.Sequence.Lookup.{live, IsTable, last_seq}
use sacn_rust.Receive.Sequence.Steps.{Accepts, live_seq, put}
use sacn_rust.Receive.Sequence.Check.{check_seq_number-Accepts}
use sacn_rust.Source.{
  SacnSourceInternal, current_sequence, next_sequence, destination, data_packet_of,
}
use sacn_rust.Source.Behaviour.{sent, layer, send_universe-sent, next_sequence-Accepts}
use sacn_rust.Session.{
  Handed, Link, link, buffer_of, received_after, transmit, transmit_all, values_of,
}

-- A source whose packets for a universe are well formed, and a receiver that listens to it, takes
-- any number of sources, announces no timeouts and accepts the next sequence number.
pub record AreInStep {S U : Type 0} ⦃crate : UuidCrate U⦄ (universe priority : ℕ)
    (src : SacnSourceInternal Link U) (self : SacnReceiver S U) : Type 0 where
  pub short_name : length src.name < 64
  pub no_zero : NoZero src.name
  pub name_is_utf8 : is_utf8 src.name ≡ true
  pub priority_limit : priority ≤ 200
  pub universe_low : 1 ≤ universe
  pub universe_high : universe ≤ 63999
  pub group : SocketAddr
  pub has_group : destination {U = U} src.addr none universe ≡ ok group
  pub wanted : (src.preview_data && not self.process_preview_data) ≡ false
  pub listening : is_listening self universe ≡ true
  pub silent : self.announce_timeout ≡ false
  pub unlimited : self.source_limit ≡ none
  pub table : IsTable self.sequences.data_sequences
  pub number : IsByte (current_sequence universe src.data_sequences)
  pub fresh :
      Accepts
        (current_sequence universe src.data_sequences)
        (last_seq self.sequences.data_sequences src.cid universe)

-- `current_sequence` of what is stored.
abbrev current_of : Option ℕ → ℕ
current_of seen = elim seen [ none ↦ starting_sequence_number | some s ↦ s ]

-- A number that is accepted after the last one is accepted if that has timed out.
live-Accepts :
    (n now : ℕ) (seen : Option TimedStampedSeqNo)
    → Accepts n seen
    → Accepts n (live now e131_network_data_loss_timeout seen)
unfolding Accepts keep
live-Accepts n now none h = tt
live-Accepts n now (some last) h =
    elim (Bool-cases (is_timed_out now e131_network_data_loss_timeout last)) [
      | inl e ↦ rw e tt
      | inr e ↦ rw e h
    ]

-- The source after it has sent.
module _ {U : Type 0} ⦃crate : UuidCrate U⦄ ⦃net : NetworkEndian⦄ where
  abbrev sent_on :
      ℕ → ℕ → List ℕ → SacnSourceInternal Link U → SocketAddr → SacnSourceInternal Link U
  sent_on universe priority values src dst = record src {
    socket = (AcnTrip.encode (sent src priority 0 universe values), dst) ∷ src.socket;
    data_sequences =
        insert ℕ_discrete universe (next_sequence (current_sequence universe src.data_sequences))
          src.data_sequences;
  }

module _ {S U : Type 0} ⦃crate : UuidCrate U⦄ ⦃net : NetworkEndian⦄ ⦃sockets : SocketCalls S⦄
    ⦃calls : ReadCalls S⦄ where
  -- The receiver after it has handed a packet on.
  abbrev handed : ℕ → U → DataPacketFramingLayer → SacnReceiver S U → SacnReceiver S U
  handed now cid pkt self =
      let s1 = after_check now cid pkt self in
      record s1 { waiting_data = remove ℕ_discrete pkt.universe s1.waiting_data }

  handle_data_packet-handed :
      (now : ℕ) (cid : U) (pkt : DataPacketFramingLayer) (self : SacnReceiver S U)
      → IsHandled pkt self
      → pkt.synchronization_address ≡ 0
      → self.source_limit ≡ none
      → IsTable self.sequences.data_sequences
      → IsByte pkt.sequence_number
      → Accepts pkt.sequence_number (live_seq now self.sequences.data_sequences cid pkt.universe)
      → (handle_data_packet now cid pkt self
          ≡ (ok (some (packet_data now cid pkt ∷ [])), handed now cid pkt self))
        × IsTable ((handed now cid pkt self).sequences.data_sequences)
        × (last_seq (handed now cid pkt self).sequences.data_sequences cid pkt.universe
            ≡ some (record { sequence_number = pkt.sequence_number; last_recv = now }))
  unfolding deliver_data_packet clear_waiting_data put
  handle_data_packet-handed now cid pkt self h sync limit t b fresh =
      let (accepted, kept, table) =
        check_seq_number-Accepts now self.source_limit cid pkt.sequence_number pkt.universe
          self.sequences.data_sequences t b (inr (rw limit refl)) fresh in
      (
        handled_lem now cid pkt self h accepted
            ∙ rw (deliver_data_packet, eq→== pkt.synchronization_address 0 sync),
        kept,
        table cid pkt.universe ∙ ground arith,
      )

  AreInStep-Fits :
      (universe priority : ℕ) (values : List ℕ) (src : SacnSourceInternal Link U)
      (self : SacnReceiver S U)
      → AreInStep universe priority src self
      → length values ≤ 513
      → DataTrip.Fits (layer src priority 0 universe values)
  AreInStep-Fits universe priority values src self h short = record {
    values = short;
    short_name = h.short_name;
    no_zero = h.no_zero;
    name_is_utf8 = h.name_is_utf8;
    priority_limit = h.priority_limit;
    sync_limit = omega arith;
    universe_low = h.universe_low;
    universe_high = h.universe_high;
  }

  -- The receiver after it has handed on the packet of the source, at the time that its clock shows.
  abbrev handed_on :
      ℕ → ℕ → List ℕ → SacnSourceInternal Link U → SacnReceiver S U → SacnReceiver S U
  handed_on universe priority values src self =
      handed (calls.instant self.receiver.socket).0 src.cid (layer src priority 0 universe values)
        (instant self).1

  -- They stay in step when both have stored the number of the packet.
  handed_on-AreInStep :
      (universe priority : ℕ) (values : List ℕ) (src : SacnSourceInternal Link U)
      (self : SacnReceiver S U) (last : TimedStampedSeqNo)
      (h : AreInStep universe priority src self)
      → last.sequence_number ≡ current_sequence universe src.data_sequences
      → IsTable (handed_on universe priority values src self).sequences.data_sequences
      → last_seq
          (handed_on universe priority values src self).sequences.data_sequences
          src.cid
          universe
        ≡ some last
      → AreInStep universe priority
          (sent_on universe priority values src h.group)
          (handed_on universe priority values src self)
  unfolding is_listening
  handed_on-AreInStep universe priority values src self last h same kept stored =
      let table = (handed_on universe priority values src self).sequences.data_sequences in
      let (byte, next) = next_sequence-Accepts last (subst IsByte (sym same) h.number) in
      let number : current_sequence universe
            (sent_on universe priority values src h.group).data_sequences
          ≡ next_sequence last.sequence_number =
        ap current_of (
          get-insert_self ℕ_discrete universe
            (next_sequence (current_sequence universe src.data_sequences)) src.data_sequences)
        ∙ ap next_sequence (sym same) in
      record {
        short_name = h.short_name;
        no_zero = h.no_zero;
        name_is_utf8 = h.name_is_utf8;
        priority_limit = h.priority_limit;
        universe_low = h.universe_low;
        universe_high = h.universe_high;
        group = h.group;
        has_group = h.has_group;
        wanted = h.wanted;
        listening = h.listening;
        silent = h.silent;
        unlimited = h.unlimited;
        table = kept;
        number = subst IsByte (sym number) byte;
        fresh =
            subst (λ n. Accepts n (last_seq table src.cid universe)) (sym number)
              (subst (Accepts (next_sequence last.sequence_number)) (sym stored) next);
      }

  transmit-AreInStep :
      (universe priority : ℕ) (values : List ℕ) (src : SacnSourceInternal Link U)
      (self : SacnReceiver S U)
      → AreInStep universe priority src self
      → length values ≤ 513
      → (d : DmxData U) × (src' : SacnSourceInternal Link U) × (self' : SacnReceiver S U)
        × (transmit universe priority values src self ≡ (ok (some (d ∷ [])), src', self'))
        × (d.values ≡ values)
        × AreInStep universe priority src' self'
  unfolding transmit data_packet_of is_listening packet_data handle_read handle_packet
  transmit-AreInStep universe priority values src self h short =
      let pkt = layer src priority 0 universe values in
      let bytes = AcnTrip.encode (sent src priority 0 universe values) in
      let fits = AreInStep-Fits universe priority values src self h short in
      let (sending, _) =
        send_universe-sent src universe values priority 0 none h.group
          ((bytes, h.group) ∷ src.socket) fits h.has_group refl in
      let parsed : parse (buffer_of bytes) ≡ ok (sent src priority 0 universe values) =
        AcnTrip.parse-encode (sent src priority 0 universe values) _ fits in
      let s1 = (instant self).1 in
      let now = (calls.instant self.receiver.socket).0 in
      let ready : IsHandled pkt s1 = record {
        wanted = h.wanted;
        not_terminated = refl;
        listening = h.listening;
        silent = h.silent;
      } in
      let (handling, kept, stored) =
        handle_data_packet-handed now src.cid pkt s1 ready refl h.unlimited h.table h.number
          (live-Accepts (current_sequence universe src.data_sequences) now _ h.fresh) in
      let src' = sent_on universe priority values src h.group in
      let last : TimedStampedSeqNo = record {
        sequence_number = pkt.sequence_number;
        last_recv = now;
      } in
      (
        packet_data now src.cid pkt,
        src',
        handed now src.cid pkt s1,
        ap (λ r. received_after r self) sending
            ∙ ap
                (λ (p : Outcome (SacnError U) (AcnRootLayerProtocol U)).
                  let r = handle_read p self in (r.0, src', r.1))
                parsed
            ∙ ap (λ (r : Handed U × SacnReceiver S U). (r.0, src', r.1)) handling,
        refl,
        handed_on-AreInStep universe priority values src self last h refl kept stored,
      )

  -- Over a link that loses nothing, a receiver hands on exactly the values that a source sends to a
  -- universe without synchronisation, in order, however many there are and whatever its clock
  -- shows, if each has at most 513 slots and the two are in step (`AreInStep`): the packets of the
  -- source are well formed, the receiver listens to the universe, wants its preview data, has no
  -- limit of sources, announces no timeouts and accepts the next sequence number.
  pub transmit_all-values :
      (universe priority : ℕ) (values : List (List ℕ)) (src : SacnSourceInternal Link U)
      (self : SacnReceiver S U)
      → AreInStep universe priority src self
      → All (λ v. length v ≤ 513) values
      → transmit_all universe priority values src self ≡ values
  unfolding transmit_all
  transmit_all-values universe priority [] src self h short = refl
  transmit_all-values universe priority (v ∷ vs) src self h short =
      let (d, src', self', step, same, h') =
        transmit-AreInStep universe priority v src self h (short.0) in
      ap
        (λ (r : Handed U × SacnSourceInternal Link U × SacnReceiver S U).
          values_of (r.0) ++ transmit_all universe priority vs (r.1) (r.2))
        step
      ∙ ap (λ w. w ∷ transmit_all universe priority vs src' self') same
      ∙ ap (λ ws. v ∷ ws) (transmit_all-values universe priority vs src' self' h' (short.1))
