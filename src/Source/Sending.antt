-- ===== src/Source/Sending.antt =====
-- The methods of `SacnSourceInternal` (src/source.rs) that send packets.
use sacn_rust.Common.{
  ℕ, zero, suc, ◌+◌, ◌-◌, ◌/◌, ◌%◌, ◌==◌, ◌&&◌, ltb, true, false, not, Option, none, some, List, [],
  ◌∷◌, ok, err, panic, if◌then◌else◌, ℕ_discrete, length,
}
use sacn_rust.Common.State.{Stateful, ◌>>=◌, ◌>>◌, lift, return, refuse_if}
use sacn_rust.Common.HashMap.{insert, remove}
use sacn_rust.Packet.Constants.{
  e131_max_priority, e131_default_priority, no_sync_universe, universe_channel_capacity,
  discovery_uni_per_page, e131_terminate_stream_packet_count, e131_discovery_universe,
  e131_universe_discovery_interval,
}
use sacn_rust.Packet.Universe.{SocketAddr}
use sacn_rust.Packet.Acn.{pack_alloc}
use sacn_rust.Error.{
  SacnError, io, text, invalid_priority, exceed_universe_capacity, universe_list_empty,
  data_array_empty, sender_already_terminated,
}
use sacn_rust.External.{UuidCrate, NetworkEndian}
use sacn_rust.Source.{
  SendCalls, SacnSourceInternal, current_sequence, next_sequence, chunk, check_all_allowed,
  check_sync_allowed, destination, unwrap, deregister_universe, universe_allowed, data_packet_of,
  sync_packet_of, discovery_packet_of,
}

-- `(data.len() as f64 / 513 as f64).ceil()`, exact for every length below 2 ^ 53.
abbrev pub required : ℕ → ℕ
required n = (n + 512) / universe_channel_capacity

-- `((universes.len() / 512) + 1) as u8`
abbrev pub pages_req : ℕ → ℕ
pages_req n = (n / discovery_uni_per_page + 1) % 256

module _ {S U : Type 0} ⦃net : NetworkEndian⦄ ⦃crate : UuidCrate U⦄ ⦃calls : SendCalls S⦄ where
  abbrev pub send_bytes :
      SocketAddr → List ℕ → Stateful (SacnSourceInternal S U) (SacnError U) (Unit {0})
  send_bytes dst bytes self =
      let r = calls.send_to bytes dst self.socket in
      elim (r.0) [
        | ok _ ↦ (ok tt, record self { socket = r.1 })
        | err e ↦ (err (io e), record self { socket = r.1 })
        | panic ↦ (panic, record self { socket = r.1 })
      ]

  abbrev pub store_data_sequence :
      ℕ → ℕ → Stateful (SacnSourceInternal S U) (SacnError U) (Unit {0})
  store_data_sequence universe sequence self = (
    ok tt,
    record self { data_sequences = insert ℕ_discrete universe sequence self.data_sequences },
  )

  unfoldable pub send_universe :
      ℕ
      → List ℕ
      → ℕ
      → Option SocketAddr
      → ℕ
      → Stateful (SacnSourceInternal S U) (SacnError U) (Unit {0})
  send_universe universe values priority dst_ip sync_address self =
      let sequence = current_sequence universe self.data_sequences in
      (do
        refuse_if (ltb e131_max_priority priority) (invalid_priority priority)
        refuse_if (ltb universe_channel_capacity (length values))
            (exceed_universe_capacity (length values))
        dst ← lift (destination self.addr dst_ip universe)
        bytes ← lift (
            unwrap (
              pack_alloc
                (data_packet_of self priority sync_address sequence false universe values)))
        send_bytes dst bytes
        store_data_sequence universe (next_sequence sequence))
        self

  -- The loop of `send`, from the universe with index `i` on, with `left` universes to send to.
  unfoldable pub send_chunks :
      ℕ
      → ℕ
      → List ℕ
      → List ℕ
      → ℕ
      → Option SocketAddr
      → ℕ
      → Stateful (SacnSourceInternal S U) (SacnError U) (Unit {0})
  unfolding send_universe
  send_chunks i zero universes values priority dst_ip sync_address = return tt
  send_chunks i (suc left) [] values priority dst_ip sync_address = return tt
  send_chunks i (suc left) (u ∷ us) values priority dst_ip sync_address = do
    send_universe u (chunk universe_channel_capacity i values) priority dst_ip sync_address
    send_chunks (i + 1) left us values priority dst_ip sync_address

  unfoldable pub send :
      List ℕ
      → List ℕ
      → Option ℕ
      → Option SocketAddr
      → Option ℕ
      → Stateful (SacnSourceInternal S U) (SacnError U) (Unit {0})
  unfolding send_chunks
  send universes values priority dst_ip sync_addr self =
      (do
        refuse_if (not self.running) (sender_already_terminated (text "Attempted to send"))
        refuse_if (length values == 0) data_array_empty
        lift (check_all_allowed universes self.universes)
        lift (check_sync_allowed sync_addr self.universes)
        refuse_if (ltb (length universes) (required (length values))) universe_list_empty
        send_chunks 0 (required (length values)) universes values
            (elim priority [ none ↦ e131_default_priority | some p ↦ p ]) dst_ip
            (elim sync_addr [ none ↦ no_sync_universe | some u ↦ u ]))
        self

  unfoldable pub send_sync_packet :
      ℕ → Option SocketAddr → Stateful (SacnSourceInternal S U) (SacnError U) (Unit {0})
  send_sync_packet universe dst_ip self =
      let sequence = current_sequence universe self.sync_sequences in
      (do
        lift (universe_allowed universe self)
        ip ← lift (destination self.addr dst_ip universe)
        bytes ← lift (pack_alloc (sync_packet_of self sequence universe))
        send_bytes ip bytes
        λ s. (
          ok tt,
          record s {
            sync_sequences = insert ℕ_discrete universe (next_sequence sequence) s.sync_sequences;
          },
        ))
        self

  -- The sequence number is taken out of the map before the packet is sent, and put back after.
  unfoldable pub send_terminate_stream_pkt :
      ℕ → Option SocketAddr → ℕ → Stateful (SacnSourceInternal S U) (SacnError U) (Unit {0})
  send_terminate_stream_pkt universe dst_ip start_code self =
      let sequence = current_sequence universe self.data_sequences in
      (do
        lift (universe_allowed universe self)
        ip ← lift (destination self.addr dst_ip universe)
        λ s. (ok tt, record s { data_sequences = remove ℕ_discrete universe s.data_sequences })
        bytes ← lift (
            unwrap
              (pack_alloc (data_packet_of self 100 0 sequence true universe (start_code ∷ []))))
        send_bytes ip bytes
        store_data_sequence universe (next_sequence sequence))
        self

  unfoldable pub send_terminations :
      ℕ → ℕ → ℕ → Stateful (SacnSourceInternal S U) (SacnError U) (Unit {0})
  unfolding send_terminate_stream_pkt
  send_terminations zero universe start_code = return tt
  send_terminations (suc left) universe start_code = do
    send_terminate_stream_pkt universe none start_code
    send_terminations left universe start_code

  unfoldable pub terminate_stream :
      ℕ → ℕ → Stateful (SacnSourceInternal S U) (SacnError U) (Unit {0})
  unfolding send_terminations
  terminate_stream universe start_code = do
    send_terminations e131_terminate_stream_packet_count universe start_code
    deregister_universe universe

  unfoldable pub terminate_each :
      List ℕ → ℕ → Stateful (SacnSourceInternal S U) (SacnError U) (Unit {0})
  unfolding terminate_stream
  terminate_each [] start_code = return tt
  terminate_each (u ∷ us) start_code = terminate_stream u start_code >> terminate_each us start_code

  unfoldable pub terminate : ℕ → Stateful (SacnSourceInternal S U) (SacnError U) (Unit {0})
  unfolding terminate_each
  terminate start_code self =
      terminate_each self.universes start_code (record self { running = false })

  unfoldable pub send_universe_discovery_detailed :
      ℕ → ℕ → List ℕ → Stateful (SacnSourceInternal S U) (SacnError U) (Unit {0})
  send_universe_discovery_detailed page last_page universes self =
      (do
        ip ← lift (destination self.addr none e131_discovery_universe)
        bytes ← lift (pack_alloc (discovery_packet_of self page last_page universes))
        send_bytes ip bytes)
        self

  -- The loop of `send_universe_discovery`, from page `p` on.
  unfoldable pub send_pages :
      ℕ → ℕ → ℕ → List ℕ → Stateful (SacnSourceInternal S U) (SacnError U) (Unit {0})
  unfolding send_universe_discovery_detailed
  send_pages p zero last_page universes = return tt
  send_pages p (suc left) last_page universes = do
    send_universe_discovery_detailed p last_page (chunk discovery_uni_per_page p universes)
    send_pages (p + 1) left last_page universes

  unfoldable pub send_universe_discovery :
      Stateful (SacnSourceInternal S U) (SacnError U) (Unit {0})
  unfolding send_pages
  send_universe_discovery self =
      let n = pages_req (length self.universes) in send_pages 0 n (n - 1) self.universes self

  -- On a source whose mutex is locked. The clock is read twice: before and after sending.
  unfoldable pub perform_periodic_update :
      ℕ → ℕ → Stateful (SacnSourceInternal S U) (SacnError U) (Unit {0})
  unfolding send_universe_discovery
  perform_periodic_update now later self =
      if self.is_sending_discovery
        && ltb e131_universe_discovery_interval (now - self.last_discovery_advert_timestamp)
      then (send_universe_discovery >> λ s.
            (ok tt, record s { last_discovery_advert_timestamp = later }))
          self
      else (ok tt, self)
