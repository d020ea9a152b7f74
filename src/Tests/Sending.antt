-- ===== src/Tests/Sending.antt =====
-- What a source sends, for concrete numbers, data and universes.
use sacn_rust.Source.Checks.{send-registered}
use sacn_rust.Common.State.{and_then, return}
use sacn_rust.Source.Universes.{
  register_universes-IsOrdered, contains-register_universes, deregister_universe-contains,
}
use sacn_rust.Receive.Receiver.{contains_universe}
use sacn_rust.Receive.Listening.{IsOrdered, IsAbove}
use sacn_rust.Error.{SacnError, universe_not_found}
use sacn_rust.Packet.Acn.RoundTrip as Acn
use sacn_rust.Packet.Acn.{parse}
use sacn_rust.Packet.Universe.{
  SocketAddr, v4, universe_to_ipv4_multicast_addr, is_universe_in_range,
}
use sacn_rust.Common.HashMap.{get, insert}
use sacn_rust.Common.{
  ap, Outcome, err, if◌then◌else◌, ◌==◌, ℕ, List, none, ok, true, false, ℕ_discrete, ◌≤◌, ◌≡◌, refl,
  some, [], ◌∷◌, All, arith, length,
}
use sacn_rust.External.{IsByte}
use sacn_rust.Receive.Sequence.{TimedStampedSeqNo}
use sacn_rust.Receive.Sequence.Steps.{Accepts}
use sacn_rust.Source.{
  check_all_allowed, register_universe, register_universes, deregister_universe, SendCalls,
  SacnSourceInternal, current_sequence, data_packet_of, destination, source_multicast_addr,
  next_sequence,
}
use sacn_rust.Source.Sending.{send, send_chunks, send_universe, required}
use sacn_rust.Source.Behaviour.{sent, send_universe-sent, next_sequence-Accepts}
use sacn_rust.Source.Parts.{parts, concat, parts-required}
use sacn_rust.Tests.Instances.{big_endian, uuid_crate, Uuid}
use sacn_rust.Tests.Packets.{data_layer-Fits, cid}

abbrev last_number : TimedStampedSeqNo
last_number = record { sequence_number = 255; last_recv = 9000 }

next_sequence-Accepts_example :
    IsByte (next_sequence 255) × Accepts (next_sequence 255) (some last_number)
next_sequence-Accepts_example = next_sequence-Accepts last_number (omega arith)

parts-required_example :
    (concat (parts 513 0 (required 3) (0 ∷ 7 ∷ 9 ∷ [])) ≡ 0 ∷ 7 ∷ 9 ∷ [])
    × All (λ p. length p ≤ 513) (parts 513 0 (required 3) (0 ∷ 7 ∷ 9 ∷ []))
parts-required_example = parts-required (0 ∷ 7 ∷ 9 ∷ [])

-- A socket that keeps what is sent.
instance abbrev pub recorder : SendCalls (List (List ℕ × SocketAddr))
recorder = record { send_to = λ bytes dst s. (ok tt, (bytes, dst) ∷ s) }

-- A source named "desk" that has sent packet 4 of universe 1.
abbrev desk : SacnSourceInternal (List (List ℕ × SocketAddr)) Uuid
desk = record {
  socket = [];
  addr = v4 (192 ∷ 168 ∷ 0 ∷ 2 ∷ []) 5568;
  cid = cid;
  name = 100 ∷ 101 ∷ 115 ∷ 107 ∷ [];
  preview_data = false;
  data_sequences = (1, 5) ∷ [];
  sync_sequences = [];
  universes = 1 ∷ [];
  running = true;
  last_discovery_advert_timestamp = 0;
  is_sending_discovery = true;
}

abbrev group : SocketAddr
group = v4 (239 ∷ 255 ∷ 0 ∷ 1 ∷ []) 5568

abbrev slots : List ℕ
slots = 0 ∷ 255 ∷ 10 ∷ 20 ∷ []

desk-Fits : Acn.Fits (sent desk 100 0 1 slots)
unfolding data_packet_of get ℕ_discrete
desk-Fits = data_layer-Fits

desk_destination : destination {U = Uuid} desk.addr none 1 ≡ ok group
unfolding source_multicast_addr universe_to_ipv4_multicast_addr is_universe_in_range
desk_destination = refl

send_universe-sent_example :
    (send_universe 1 slots 100 none 0 desk ≡ (
      ok tt,
      record desk {
        socket = (Acn.encode (sent desk 100 0 1 slots), group) ∷ [];
        data_sequences =
            insert ℕ_discrete 1
              (next_sequence (current_sequence 1 desk.data_sequences))
              desk.data_sequences;
      },
    ))
    × (parse (Acn.encode (sent desk 100 0 1 slots)) ≡ ok (sent desk 100 0 1 slots))
send_universe-sent_example =
    send_universe-sent desk 1 slots 100 0 none group
      ((Acn.encode (sent desk 100 0 1 slots), group) ∷ []) desk-Fits desk_destination refl

desk-IsOrdered : IsOrdered desk.universes
unfolding IsOrdered IsAbove
desk-IsOrdered = (tt, tt)

registered : (register_universes (5 ∷ 1 ∷ []) desk).0 ≡ ok tt
unfolding register_universes register_universe is_universe_in_range
registered = refl

in_range : is_universe_in_range {U = Uuid} 1 ≡ ok tt
unfolding is_universe_in_range
in_range = refl

register_universes-IsOrdered_example :
    IsOrdered ((register_universes (5 ∷ 0 ∷ []) desk).1).universes
register_universes-IsOrdered_example = register_universes-IsOrdered (5 ∷ 0 ∷ []) desk desk-IsOrdered

contains-register_universes_example :
    contains_universe 5 ((register_universes (5 ∷ 1 ∷ []) desk).1).universes
    ≡ (if contains_universe 5 (5 ∷ 1 ∷ []) then true else contains_universe 5 desk.universes)
contains-register_universes_example = contains-register_universes (5 ∷ 1 ∷ []) 5 desk registered

deregister_universe-contains_example :
    ((deregister_universe 1 desk).0
      ≡ (if contains_universe 1 desk.universes then ok tt else err (universe_not_found 1)))
    × IsOrdered ((deregister_universe 1 desk).1).universes
    × (contains_universe 1 ((deregister_universe 1 desk).1).universes
        ≡ (if 1 == 1 then false else contains_universe 1 desk.universes))
deregister_universe-contains_example = deregister_universe-contains 1 1 desk desk-IsOrdered in_range

desk_sends : (send (1 ∷ []) slots (some 100) none none desk).0 ≡ ok tt
unfolding send send_chunks check_all_allowed is_universe_in_range contains_universe
desk_sends =
    ap
      (λ (r : Outcome (SacnError Uuid) (Unit {0})
          × SacnSourceInternal (List (List ℕ × SocketAddr)) Uuid).
        (and_then r (λ _. return tt)).0)
      ((send_universe-sent desk 1 slots 100 0 none group
        ((Acn.encode (sent desk 100 0 1 slots), group) ∷ []) desk-Fits desk_destination refl).0)

send-registered_example :
    (desk.running ≡ true)
    × All (λ u. contains_universe u desk.universes ≡ true) (1 ∷ [])
    × (required (length slots) ≤ 1)
send-registered_example = send-registered (1 ∷ []) slots (some 100) none none desk desk_sends
