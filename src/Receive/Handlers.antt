-- ===== src/Receive/Handlers.antt =====
-- What a `SacnReceiver` (src/receive.rs) does with a packet.
use sacn_rust.Common.{
  ◌++◌, ℕ, ◌==◌, not, ◌&&◌, Option, none, some, List, [], ◌∷◌, ok, err, panic, if◌then◌else◌,
  ℕ_discrete,
}
use sacn_rust.Common.State.{Stateful, ◌>>◌, return}
use sacn_rust.Common.HashMap.{get, insert, remove}
use sacn_rust.Packet.Constants.{e131_no_sync_addr}
use sacn_rust.Packet.DataFraming.{DataPacketFramingLayer}
use sacn_rust.Packet.Sync.{SynchronizationPacketFramingLayer}
use sacn_rust.Packet.DiscoveryFraming.{UniverseDiscoveryPacketFramingLayer}
use sacn_rust.Error.{SacnError, universe_terminated}
use sacn_rust.External.{UuidCrate}
use sacn_rust.Receive.Merge.{DmxData}
use sacn_rust.Receive.Discovery.{
  DiscoveredSacnSource, UniversePage, find_discovered_src, modify_at, remove_at, terminate_universe,
  has_all_pages, get_elem?,
}
use sacn_rust.Receive.Sequence.{
  is_empty, is_empty, SequenceNumbering, check_data_seq_number, check_sync_seq_number,
  remove_seq_numbers, is_empty,
}
use sacn_rust.Receive.Network.{SocketCalls}
use sacn_rust.Receive.Receiver.{
  SacnReceiver, is_listening, clear_waiting_data, is_recent, listen_universes,
}

-- `rtrv_waiting_data`: the data that waits for `sync_uni` and is recent, and the data that does not
-- wait for it.
unfoldable pub released : {U : Type 0} → ℕ → ℕ → List (ℕ × DmxData U) → List (DmxData U)
released now sync_uni [] = []
released now sync_uni ((u, d) ∷ m) =
    let rest = released now sync_uni m in
    if (d.sync_uni == sync_uni) && is_recent now d then d ∷ rest else rest

unfoldable pub still_waiting : {U : Type 0} → ℕ → List (ℕ × DmxData U) → List (ℕ × DmxData U)
still_waiting sync_uni [] = []
still_waiting sync_uni ((u, d) ∷ m) =
    let rest = still_waiting sync_uni m in if d.sync_uni == sync_uni then rest else (u, d) ∷ rest

module _ {S U : Type 0} where
  unfoldable pub rtrv_waiting_data : ℕ → ℕ → SacnReceiver S U → List (DmxData U) × SacnReceiver S U
  rtrv_waiting_data now sync_uni self = (
    released now sync_uni self.waiting_data,
    record self { waiting_data = still_waiting sync_uni self.waiting_data },
  )

  -- The data that waits is taken out before it is merged.
  unfoldable pub store_waiting_data :
      DmxData U → Stateful (SacnReceiver S U) (SacnError U) (Unit {0})
  store_waiting_data new self = elim (get ℕ_discrete new.universe self.waiting_data) [
    | none ↦
        (ok tt, record self { waiting_data = insert ℕ_discrete new.universe new self.waiting_data })
    | some existing ↦
        let left = remove ℕ_discrete new.universe self.waiting_data in
        elim (self.merge_func existing new) [
          | ok merged ↦
              (ok tt, record self { waiting_data = insert ℕ_discrete new.universe merged left })
          | err e ↦ (err e, record self { waiting_data = left })
          | panic ↦ (panic, record self { waiting_data = left })
        ]
  ]

  abbrev pub on_sequences :
      Stateful (SequenceNumbering U) (SacnError U) (Unit {0})
      → Stateful (SacnReceiver S U) (SacnError U) (Unit {0})
  on_sequences m self = let r = m self.sequences in (r.0, record self { sequences = r.1 })

-- The data of a packet, as it is handed on.
unfoldable pub packet_data : {U : Type 0} → ℕ → U → DataPacketFramingLayer → DmxData U
packet_data now cid data_pkt = record {
  universe = data_pkt.universe;
  values = data_pkt.dmp.property_values;
  sync_uni = data_pkt.synchronization_address;
  priority = data_pkt.priority;
  src_cid = some cid;
  preview = data_pkt.preview_data;
  recv_timestamp = now;
}

module _ {S U : Type 0} ⦃crate : UuidCrate U⦄ where
  -- The error of `remove_seq_numbers` is dropped, not what it did before.
  unfoldable pub terminate_stream : U → ℕ → SacnReceiver S U → SacnReceiver S U
  terminate_stream src_cid universe self =
      let sequences = (remove_seq_numbers src_cid universe self.sequences).1 in
      elim (find_discovered_src self.discovered_sources src_cid) [
        | none ↦ record self { sequences = sequences }
        | some index ↦ record self {
          sequences = sequences;
          discovered_sources =
              modify_at index (terminate_universe universe) self.discovered_sources;
        }
      ]

-- `Vec::push`.
abbrev pub push : {A : Type 0} → A → List A → List A
push x xs = xs ++ (x ∷ [])

module _ {U : Type 0} ⦃crate : UuidCrate U⦄ where
  unfoldable pub update_discovered_srcs :
      DiscoveredSacnSource U → List (DiscoveredSacnSource U) → List (DiscoveredSacnSource U)
  update_discovered_srcs src sources = elim (find_discovered_src sources src.cid) [
    | none ↦ push src sources
    | some index ↦ push src (remove_at index sources)
  ]

module _ {S U : Type 0} ⦃crate : UuidCrate U⦄ where
  -- A page of a source of which pages have come before, at its index.
  unfoldable pub add_page :
      ℕ → ℕ → UniversePage → List ℕ → SacnReceiver S U → Option (List ℕ) × SacnReceiver S U
  unfolding update_discovered_srcs
  add_page now index page name self =
      let add = λ (src : DiscoveredSacnSource U). record src {
        pages = push page src.pages;
        last_updated = now;
      } in
      let sources =
        modify_at index (λ src. (has_all_pages (add src)).1) self.partially_discovered_sources in
      elim (get_elem? index self.partially_discovered_sources) [
        | none ↦ (none, self)
        | some src ↦
            let (complete, sorted) = has_all_pages (add src) in
            if complete
            then (
              some name,
              record self {
                partially_discovered_sources = remove_at index self.partially_discovered_sources;
                discovered_sources = update_discovered_srcs sorted self.discovered_sources;
              },
            )
            else (none, record self { partially_discovered_sources = sources })
      ]

  unfoldable pub handle_universe_discovery_packet :
      ℕ
      → U
      → UniverseDiscoveryPacketFramingLayer
      → SacnReceiver S U
      → Option (List ℕ) × SacnReceiver S U
  unfolding add_page update_discovered_srcs
  handle_universe_discovery_packet now cid discovery_pkt self =
      let layer = discovery_pkt.layer in
      let page : UniversePage = record { page = layer.page; universes = layer.universes } in
      let first : DiscoveredSacnSource U = record {
        name = discovery_pkt.source_name;
        cid = cid;
        last_updated = now;
        pages = page ∷ [];
        last_page = layer.last_page;
      } in
      elim (find_discovered_src self.partially_discovered_sources cid) [
        | some index ↦ add_page now index page discovery_pkt.source_name self
        | none ↦
            if (layer.page == 0) && (layer.page == layer.last_page)
            then (
              some discovery_pkt.source_name,
              record self {
                discovered_sources = update_discovered_srcs first self.discovered_sources;
              },
            )
            else (
              none,
              record self {
                partially_discovered_sources = push first self.partially_discovered_sources;
              },
            )
      ]

module _ {S U : Type 0} ⦃crate : UuidCrate U⦄ ⦃calls : SocketCalls S⦄ where
  -- The check of the sequence number in `handle_data_packet`.
  unfoldable pub check_data_packet :
      ℕ → U → DataPacketFramingLayer → Stateful (SacnReceiver S U) (SacnError U) (Unit {0})
  check_data_packet now cid data_pkt self =
      on_sequences
        (check_data_seq_number now self.source_limit cid data_pkt.sequence_number data_pkt.universe
          self.announce_timeout)
        self

  -- What follows it: the data is handed on, or waits.
  unfoldable pub deliver_data_packet :
      ℕ
      → U
      → DataPacketFramingLayer
      → Stateful (SacnReceiver S U) (SacnError U) (Option (List (DmxData U)))
  unfolding listen_universes store_waiting_data clear_waiting_data
  deliver_data_packet now cid data_pkt self =
      if data_pkt.synchronization_address == e131_no_sync_addr
      then (
        ok (some (packet_data now cid data_pkt ∷ [])),
        (clear_waiting_data data_pkt.universe self).1,
      )
      else ((listen_universes (data_pkt.synchronization_address ∷ [])
            >> store_waiting_data (packet_data now cid data_pkt)
            >> return none)
          self)

  unfoldable pub handle_data_packet :
      ℕ
      → U
      → DataPacketFramingLayer
      → Stateful (SacnReceiver S U) (SacnError U) (Option (List (DmxData U)))
  unfolding check_data_packet deliver_data_packet terminate_stream is_listening
  handle_data_packet now cid data_pkt self =
      if data_pkt.preview_data && not self.process_preview_data
      then (ok none, self)
      else (if data_pkt.stream_terminated
          then (
            (if self.announce_stream_termination
                then err (universe_terminated cid data_pkt.universe)
                else ok none),
            terminate_stream cid data_pkt.universe self,
          )
          else (if not (is_listening self data_pkt.universe)
              then (ok none, self)
              else (check_data_packet now cid data_pkt >> deliver_data_packet now cid data_pkt)
                  self))

module _ {S U : Type 0} ⦃crate : UuidCrate U⦄ where
  unfoldable pub handle_sync_packet :
      ℕ
      → U
      → SynchronizationPacketFramingLayer
      → Stateful (SacnReceiver S U) (SacnError U) (Option (List (DmxData U)))
  unfolding rtrv_waiting_data is_listening
  handle_sync_packet now cid sync_pkt self =
      if not (is_listening self sync_pkt.synchronization_address)
      then (ok none, self)
      else ((on_sequences (
              check_sync_seq_number now self.source_limit cid sync_pkt.sequence_number
                sync_pkt.synchronization_address self.announce_timeout)
            >> λ self.
                let (res, left) = rtrv_waiting_data now sync_pkt.synchronization_address self in
                (ok (if is_empty res then none else some res), left))
          self)
