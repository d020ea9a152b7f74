-- ===== src/Tests/Links.antt =====
-- A source and a receiver on a link, and a receiver whose socket has nothing to read.
use sacn_rust.Common.{
  ℕ, suc, ◌≡◌, refl, true, false, none, some, List, [], ◌∷◌, Outcome, ok, err, ℕ_discrete, arith,
}
use sacn_rust.Common.HashMap.{get}
use sacn_rust.Packet.Name.{is_utf8}
use sacn_rust.Packet.Universe.{v4, universe_to_ipv4_multicast_addr, is_universe_in_range}
use sacn_rust.Error.{SacnError, would_block}
use sacn_rust.Receive.Merge.{DmxData, discard_lowest_priority_then_previous}
use sacn_rust.Receive.Network.{SocketCalls, ReadCalls}
use sacn_rust.Receive.Receiver.{SacnReceiver, is_listening, contains_universe}
use sacn_rust.Receive.Recv.{recv}
use sacn_rust.Receive.Recv.Calls.{Paced}
use sacn_rust.Receive.Recv.Termination.{recv-returns}
use sacn_rust.Receive.Sequence.Lookup.{IsTable}
use sacn_rust.Receive.Sequence.Steps.{Accepts}
use sacn_rust.Common.HashMap.Keys.{HasDistinctKeys}
use sacn_rust.Receive.Sequence.Lookup.{in_universe}
use sacn_rust.Source.{SacnSourceInternal, source_multicast_addr}
use sacn_rust.Session.{Link, transmit_all}
use sacn_rust.Session.InOrder.{AreInStep, transmit_all-values}
use sacn_rust.Tests.Instances.{big_endian, uuid_crate, Uuid}
use sacn_rust.Tests.Packets.{cid}

-- A socket whose state is the number of reads so far. A read blocks for a unit of time.
instance abbrev pub quiet_socket : SocketCalls ℕ
quiet_socket = record {
  join_multicast_v4 = λ group interface_v4 s. (ok tt, s);
  join_multicast_v6 = λ group s. (ok tt, s);
  leave_multicast_v4 = λ group interface_v4 s. (ok tt, s);
  leave_multicast_v6 = λ group s. (ok tt, s);
}

instance abbrev pub quiet_reads : ReadCalls ℕ
quiet_reads = record {
  instant = λ s. (s, s);
  instant_max = 1000000;
  set_read_timeout = λ timeout s. (ok tt, s);
  set_only_v6 = λ val s. (ok tt, s);
  read = λ n s. (err would_block, suc s);
}

abbrev quiet_pace : Paced ℕ
quiet_pace = record {
  rate = 1;
  reads = λ s. s;
  instant-reads = λ s. refl;
  timeout-reads = λ t s. refl;
  join_v4-reads = λ group interface_v4 s. refl;
  join_v6-reads = λ group s. refl;
  read-reads = λ n s. refl;
  paced = λ s. omega arith;
}

-- It listens to universe 1.
abbrev pub listener : SacnReceiver ℕ Uuid
listener = record {
  receiver = record {
    socket = 0;
    addr = v4 (0 ∷ 0 ∷ 0 ∷ 0 ∷ []) 5568;
    is_multicast_enabled = true;
  };
  waiting_data = [];
  universes = 1 ∷ [];
  discovered_sources = [];
  merge_func = discard_lowest_priority_then_previous;
  partially_discovered_sources = [];
  source_limit = none;
  sequences = record { data_sequences = []; sync_sequences = [] };
  process_preview_data = false;
  announce_source_discovery = false;
  announce_stream_termination = false;
  announce_timeout = false;
}

recv-returns_example :
    (out : Outcome (SacnError Uuid) (List (DmxData Uuid)) × SacnReceiver ℕ Uuid) × (recv 32
        (some 30)
        listener
      ≡ some out)
recv-returns_example = recv-returns quiet_pace 32 30 listener (omega arith) (omega arith)

-- A source named "A" that is about to send the last number before they start again.
abbrev pub sender : SacnSourceInternal Link Uuid
sender = record {
  socket = [];
  addr = v4 (192 ∷ 168 ∷ 0 ∷ 2 ∷ []) 5568;
  cid = cid;
  name = 65 ∷ [];
  preview_data = false;
  data_sequences = (1, 255) ∷ [];
  sync_sequences = [];
  universes = 1 ∷ [];
  running = true;
  last_discovery_advert_timestamp = 0;
  is_sending_discovery = true;
}

sender-AreInStep : AreInStep 1 100 sender listener
unfolding is_utf8 source_multicast_addr universe_to_ipv4_multicast_addr is_universe_in_range
    is_listening contains_universe IsTable HasDistinctKeys Accepts get in_universe ℕ_discrete
sender-AreInStep = record {
  short_name = omega arith;
  no_zero = (omega arith, tt);
  name_is_utf8 = refl;
  priority_limit = omega arith;
  universe_low = omega arith;
  universe_high = omega arith;
  group = v4 (239 ∷ 255 ∷ 0 ∷ 1 ∷ []) 5568;
  has_group = refl;
  wanted = refl;
  listening = refl;
  silent = refl;
  unlimited = refl;
  table = tt;
  number = omega arith;
  fresh = tt;
}

transmit_all-values_example :
    transmit_all 1 100 ((0 ∷ 5 ∷ []) ∷ (0 ∷ 6 ∷ []) ∷ []) sender listener
    ≡ (0 ∷ 5 ∷ []) ∷ (0 ∷ 6 ∷ []) ∷ []
transmit_all-values_example =
    transmit_all-values 1 100 ((0 ∷ 5 ∷ []) ∷ (0 ∷ 6 ∷ []) ∷ []) sender listener sender-AreInStep
      (omega arith, (omega arith, tt))
