-- ===== src/Tests/Delivering.antt =====
-- A receiver with waiting data, and the packets that it handles.
use sacn_rust.Receive.Waiting.{IsAmong, IsDue, store_waiting_data-stored, stored}
use sacn_rust.Receive.Sequence.Check.{check_seq_number-Accepts}
use sacn_rust.Receive.Sequence.Steps.{live_seq, put, Accepts}
use sacn_rust.Receive.Sequence.Lookup.{in_universe, IsTable, last_seq}
use sacn_rust.Packet.Sync.{SynchronizationPacketFramingLayer}
use sacn_rust.Packet.DataFraming.{DataPacketFramingLayer}
use sacn_rust.Error.{out_of_sequence}
use sacn_rust.Receive.Handlers.{
  check_data_packet, handle_data_packet, handle_sync_packet, store_waiting_data,
}
use sacn_rust.Common.HashMap.Keys.{keep, HasDistinctKeys}
use sacn_rust.Common.HashMap.{get, retain}
use sacn_rust.Tests.Receiving.{sequences, sequences-IsTable, known, fresh, seen}
use sacn_rust.Tests.Packets.{cid, data_layer}
use sacn_rust.Tests.Instances.{big_endian, uuid_crate, open_socket, Uuid}
use sacn_rust.Receive.Handing.{IsPlain, handle_data_packet-some}
use sacn_rust.Receive.Delivery.{
  IsHandled, handle_data_packet-immediate, handle_data_packet-IsStale,
  handle_data_packet-synchronised, handle_sync_packet-released, data_seq, data_of,
}
use sacn_rust.Receive.Receiver.{
  insert_universe, insert_universe, listen_each, listen_universe, check_range, contains_universe,
  SacnReceiver, is_listening, listen_universes, mute_universe,
}
use sacn_rust.Receive.Listening.{
  IsOrdered, IsAbove, is_listening-listen_universes, mute_universe-is_listening,
}
use sacn_rust.Receive.Network.{multicast_addr, join_unix_multicast, listen_multicast_universe}
use sacn_rust.Packet.Universe.{is_universe_in_range, v4, universe_to_ipv4_multicast_addr}
use sacn_rust.Receive.Discovery.Pages.{IsComplete, has_all_pages-IsComplete}
use sacn_rust.Receive.Discovery.{DiscoveredSacnSource, has_all_pages}
use sacn_rust.Receive.Sequence.{
  check_timeouts, is_empty, check_sync_seq_number, Sequences, wrapping_sub, as_i8,
}
use sacn_rust.Receive.Merge.{DmxData, htp_dmx_merge, max, discard_lowest_priority_then_previous}
use sacn_rust.Receive.Merge.Htp.{CanMerge, slot, htp_dmx_merge-equal}
use sacn_rust.Common.{
  ℕ, ◌==◌, ◌≡◌, ◌≢◌, ◌↔◌, ◌||◌, ◌&&◌, refl, inl, inr, true, false, not, none, some, List, [], ◌∷◌,
  ok, err, if◌then◌else◌, ℕ_discrete, arith, length,
}
use mathlib.Core.Logic.{ite}

abbrev pub desk : DmxData Uuid
desk = record {
  universe = 1;
  values = 0 ∷ 10 ∷ 200 ∷ [];
  sync_uni = 7;
  priority = 100;
  src_cid = some cid;
  preview = false;
  recv_timestamp = 9500;
}

abbrev pub house : DmxData Uuid
house = record {
  universe = 1;
  values = 0 ∷ 90 ∷ 50 ∷ 30 ∷ [];
  sync_uni = 7;
  priority = 100;
  src_cid = none;
  preview = true;
  recv_timestamp = 9600;
}

desk-CanMerge : CanMerge desk house
desk-CanMerge = record {
  same_universe = refl;
  same_sync = refl;
  start_code = 0;
  i_slots = 10 ∷ 200 ∷ [];
  n_slots = 90 ∷ 50 ∷ 30 ∷ [];
  i_values = refl;
  n_values = refl;
}

htp_dmx_merge-equal_example :
    (r : DmxData Uuid) × (htp_dmx_merge desk house ≡ ok r)
    × ((k : ℕ) → slot k r.values ≡ max (slot k desk.values) (slot k house.values))
    × (length r.values ≡ max (length desk.values) (length house.values))
    × (r.universe ≡ desk.universe)
    × (r.sync_uni ≡ desk.sync_uni)
    × (r.priority ≡ desk.priority)
    × (r.preview ≡ desk.preview || house.preview)
    × (r.src_cid ≡ none)
htp_dmx_merge-equal_example = htp_dmx_merge-equal desk house desk-CanMerge refl

-- Two pages, the second first.
abbrev console : DiscoveredSacnSource Uuid
console = record {
  name = 100 ∷ [];
  cid = cid;
  last_updated = 9000;
  pages = record { page = 1; universes = 600 ∷ [] } ∷ record { page = 0; universes = 1 ∷ [] } ∷ [];
  last_page = 1;
}

has_all_pages-IsComplete_example : ((has_all_pages console).0 ≡ true) ↔ IsComplete console
has_all_pages-IsComplete_example = has_all_pages-IsComplete console

abbrev receiver : SacnReceiver (Unit {0}) Uuid
receiver = record {
  receiver = record {
    socket = tt;
    addr = v4 (127 ∷ 0 ∷ 0 ∷ 1 ∷ []) 5568;
    is_multicast_enabled = true;
  };
  waiting_data = (2, record desk { universe = 2 }) ∷ [];
  universes = 1 ∷ 7 ∷ 64214 ∷ [];
  discovered_sources = [];
  merge_func = discard_lowest_priority_then_previous;
  partially_discovered_sources = [];
  source_limit = some 2;
  sequences = record { data_sequences = sequences; sync_sequences = [] };
  process_preview_data = false;
  announce_source_discovery = false;
  announce_stream_termination = false;
  announce_timeout = false;
}

receiver-IsOrdered : IsOrdered receiver.universes
unfolding IsOrdered IsAbove
receiver-IsOrdered = ((omega arith, (omega arith, tt)), ((omega arith, tt), (tt, tt)))

listened : (listen_universes (5 ∷ 9 ∷ []) receiver).0 ≡ ok tt
unfolding listen_universes listen_each listen_universe check_range is_universe_in_range
    contains_universe listen_multicast_universe multicast_addr universe_to_ipv4_multicast_addr
    join_unix_multicast insert_universe
listened = refl

is_listening-listen_universes_example :
    is_listening ((listen_universes (5 ∷ 9 ∷ []) receiver).1) 9
    ≡ (if contains_universe 9 (5 ∷ 9 ∷ []) then true else is_listening receiver 9)
is_listening-listen_universes_example =
    is_listening-listen_universes (5 ∷ 9 ∷ []) 9 receiver listened

in_range_7 : is_universe_in_range {U = Uuid} 7 ≡ ok tt
unfolding is_universe_in_range
in_range_7 = refl

listening_1 : is_listening receiver 1 ≡ true
unfolding is_listening contains_universe
listening_1 = refl

listening_7 : is_listening receiver 7 ≡ true
unfolding is_listening contains_universe
listening_7 = refl

mute_universe-is_listening_example :
    IsOrdered ((mute_universe 7 receiver).1).universes
    × (is_listening ((mute_universe 7 receiver).1) 1
        ≡ (if 7 == 1 then false else is_listening receiver 1))
mute_universe-is_listening_example =
    mute_universe-is_listening 7 1 receiver receiver-IsOrdered in_range_7 listening_7

store_waiting_data-stored_example :
    ((store_waiting_data house receiver).0
      ≡ (stored receiver.merge_func house (get ℕ_discrete 1 receiver.waiting_data)).0)
    × (get ℕ_discrete 1 ((store_waiting_data house receiver).1).waiting_data
        ≡ ite
            (ℕ_discrete 1 1)
            ((stored receiver.merge_func house (get ℕ_discrete 1 receiver.waiting_data)).1)
            (get ℕ_discrete 1 receiver.waiting_data))
store_waiting_data-stored_example = store_waiting_data-stored house 1 receiver

-- The packet of the other tests, for universe 1.
handled : IsHandled data_layer receiver
handled = record { wanted = refl; not_terminated = refl; listening = listening_1; silent = refl }

handle_data_packet-immediate_example :
    (left : SacnReceiver (Unit {0}) Uuid) × (handle_data_packet 10000 cid data_layer receiver
      ≡ (ok (some (data_of 10000 cid data_layer ∷ [])), left))
    × (get ℕ_discrete 1 left.waiting_data ≡ none)
    × ((u : ℕ)
        → 1 ≢ u
        → get ℕ_discrete u left.waiting_data ≡ get ℕ_discrete u receiver.waiting_data)
    × ((c : Uuid) (u : ℕ)
        → data_seq left c u
          ≡ put cid 1
              (record { sequence_number = 5; last_recv = 10000 })
              (live_seq 10000 sequences)
              c
              u)
handle_data_packet-immediate_example =
    handle_data_packet-immediate 10000 cid data_layer receiver handled refl sequences-IsTable
      (omega arith) (inl known) fresh

abbrev stale_layer : DataPacketFramingLayer
stale_layer = record data_layer { sequence_number = 3 }

handle_data_packet-IsStale_example :
    (left : Sequences Uuid) × (handle_data_packet 10000 cid stale_layer receiver ≡ (
      err (out_of_sequence 3 4 (as_i8 (wrapping_sub 3 4))),
      record receiver { sequences = record receiver.sequences { data_sequences = left } },
    ))
    × ((c : Uuid) (u : ℕ) → last_seq left c u ≡ live_seq 10000 sequences c u)
handle_data_packet-IsStale_example =
    handle_data_packet-IsStale 10000 cid stale_layer receiver
      (record { sequence_number = 4; last_recv = 9000 })
      (record { wanted = refl; not_terminated = refl; listening = listening_1; silent = refl })
      sequences-IsTable (omega arith) seen (omega arith) (1, omega arith, refl)

abbrev synchronised_layer : DataPacketFramingLayer
synchronised_layer = record data_layer { synchronization_address = 7 }

no_data : get ℕ_discrete 1 receiver.waiting_data ≡ none
unfolding get ℕ_discrete
no_data = refl

handle_data_packet-synchronised_example :
    (left : SacnReceiver (Unit {0}) Uuid) × (handle_data_packet 10000 cid synchronised_layer
        receiver
      ≡ (ok none, left))
    × ((u : ℕ)
        → get ℕ_discrete u left.waiting_data
          ≡ ite
              (ℕ_discrete 1 u)
              (some (data_of 10000 cid synchronised_layer))
              (get ℕ_discrete u receiver.waiting_data))
handle_data_packet-synchronised_example =
    handle_data_packet-synchronised 10000 cid synchronised_layer receiver
      (record { wanted = refl; not_terminated = refl; listening = listening_1; silent = refl })
      (omega arith) in_range_7 listening_7 sequences-IsTable (omega arith) (inl known) fresh no_data

-- The packet without synchronisation is handed on.
data_layer-handed :
    (left : SacnReceiver (Unit {0}) Uuid) × (handle_data_packet 10000 cid data_layer receiver
      ≡ (ok (some (data_of 10000 cid data_layer ∷ [])), left))
data_layer-handed =
    let handed =
      handle_data_packet-immediate 10000 cid data_layer receiver handled refl sequences-IsTable
        (omega arith) (inl known) fresh in
    (handed.0, handed.1)

handle_data_packet-some_example :
    ((data_layer.preview_data && not receiver.process_preview_data) ≡ false)
    × (data_layer.stream_terminated ≡ false)
    × (is_listening receiver data_layer.universe ≡ true)
    × ((check_data_packet 10000 cid data_layer receiver).0 ≡ ok tt)
    × IsPlain 10000 cid data_layer (data_of 10000 cid data_layer ∷ []) (data_layer-handed.0)
handle_data_packet-some_example =
    handle_data_packet-some 10000 cid data_layer receiver (data_layer-handed.0)
      (data_of 10000 cid data_layer ∷ []) (data_layer-handed.1)

abbrev sync : SynchronizationPacketFramingLayer
sync = record { sequence_number = 1; synchronization_address = 7 }

waiting-HasDistinctKeys : HasDistinctKeys ℕ_discrete receiver.waiting_data
unfolding HasDistinctKeys get
waiting-HasDistinctKeys = (refl, tt)

sync_accepted : (check_sync_seq_number 10000 (some 2) cid 1 7 false receiver.sequences).0 ≡ ok tt
unfolding check_sync_seq_number IsTable check_timeouts retain Accepts keep in_universe get
sync_accepted =
    (check_seq_number-Accepts 10000 (some 2) cid 1 7 [] tt (omega arith) (inr refl) tt).0

handle_sync_packet-released_example :
    (res : List (DmxData Uuid)) × (left : SacnReceiver (Unit {0}) Uuid) × (handle_sync_packet 10000
        cid sync receiver
      ≡ (ok (if is_empty res then none else some res), left))
    × ((d : DmxData Uuid)
        → IsAmong d res
          ↔ (u : ℕ) × (get ℕ_discrete u receiver.waiting_data ≡ some d) × IsDue 10000 7 d)
    × ((u : ℕ)
        → get ℕ_discrete u left.waiting_data
          ≡ keep (λ d. not (d.sync_uni == 7)) (get ℕ_discrete u receiver.waiting_data))
handle_sync_packet-released_example =
    handle_sync_packet-released 10000 cid sync receiver listening_7 sync_accepted
      waiting-HasDistinctKeys
