-- ===== src/Source/Keeping.antt =====
-- What the methods of a source (src/source.rs) leave as it is when they send.
use sacn_rust.Common.{
  length, ℕ, zero, suc, ◌+◌, ◌-◌, refl, Bool, Option, none, some, List, [], ◌∷◌, arith,
}
use sacn_rust.Common.State.{Keeps, bind-Keeps}
use sacn_rust.Packet.Universe.{SocketAddr}
use sacn_rust.External.{UuidCrate, NetworkEndian}
use sacn_rust.Source.{SendCalls, SacnSourceInternal, chunk}
use sacn_rust.Packet.Constants.{
  e131_default_priority, no_sync_universe, universe_channel_capacity, discovery_uni_per_page,
}
use sacn_rust.Source.Sending.{
  required, pages_req, send_bytes, send_universe, send_chunks, send, send_sync_packet,
  send_terminate_stream_pkt, send_terminations, send_universe_discovery_detailed, send_pages,
  send_universe_discovery, perform_periodic_update,
}

-- The universes of a source, and whether it runs.
abbrev pub registered : {S U : Type 0} → SacnSourceInternal S U → List ℕ × Bool
registered self = (self.universes, self.running)

module _ {S U : Type 0} ⦃net : NetworkEndian⦄ ⦃crate : UuidCrate U⦄ ⦃calls : SendCalls S⦄ where
  send_bytes-Keeps :
      (dst : SocketAddr) (bytes : List ℕ)
      → Keeps (registered {S = S} {U = U}) (send_bytes dst bytes)
  send_bytes-Keeps dst bytes self = ground arith

  send_universe-Keeps :
      (universe : ℕ) (values : List ℕ) (priority : ℕ) (dst_ip : Option SocketAddr)
      (sync_address : ℕ)
      → Keeps
          (registered {S = S} {U = U})
          (send_universe universe values priority dst_ip sync_address)
  unfolding send_universe
  send_universe-Keeps universe values priority dst_ip sync_address self = ground arith

  pub send_sync_packet-Keeps :
      (universe : ℕ) (dst_ip : Option SocketAddr)
      → Keeps (registered {S = S} {U = U}) (send_sync_packet universe dst_ip)
  unfolding send_sync_packet
  send_sync_packet-Keeps universe dst_ip self = ground arith

  send_terminate_stream_pkt-Keeps :
      (universe : ℕ) (dst_ip : Option SocketAddr) (start_code : ℕ)
      → Keeps (registered {S = S} {U = U}) (send_terminate_stream_pkt universe dst_ip start_code)
  unfolding send_terminate_stream_pkt
  send_terminate_stream_pkt-Keeps universe dst_ip start_code self = ground arith

  send_detailed-Keeps :
      (page last_page : ℕ) (universes : List ℕ)
      → Keeps
          (registered {S = S} {U = U})
          (send_universe_discovery_detailed page last_page universes)
  unfolding send_universe_discovery_detailed
  send_detailed-Keeps page last_page universes self = ground arith

  send_chunks-Keeps :
      (i left : ℕ) (universes values : List ℕ) (priority : ℕ) (dst_ip : Option SocketAddr)
      (sync_address : ℕ)
      → Keeps
          (registered {S = S} {U = U})
          (send_chunks i left universes values priority dst_ip sync_address)
  unfolding send_chunks
  send_chunks-Keeps i zero universes values priority dst_ip sync_address self = refl
  send_chunks-Keeps i (suc left) [] values priority dst_ip sync_address self = refl
  send_chunks-Keeps i (suc left) (u ∷ us) values priority dst_ip sync_address self =
      bind-Keeps (registered {S = S} {U = U})
        (send_universe u (chunk universe_channel_capacity i values) priority dst_ip sync_address)
        (λ _. send_chunks (i + 1) left us values priority dst_ip sync_address)
        (send_universe-Keeps u (chunk universe_channel_capacity i values) priority dst_ip
          sync_address)
        (λ _. send_chunks-Keeps (i + 1) left us values priority dst_ip sync_address) self

  pub send-Keeps :
      (universes values : List ℕ) (priority : Option ℕ) (dst_ip : Option SocketAddr)
      (sync_addr : Option ℕ)
      → Keeps (registered {S = S} {U = U}) (send universes values priority dst_ip sync_addr)
  unfolding send
  send-Keeps universes values priority dst_ip sync_addr self =
      let chunks =
        send_chunks-Keeps 0 (required (length values)) universes values
          (elim priority [ none ↦ e131_default_priority | some p ↦ p ]) dst_ip
          (elim sync_addr [ none ↦ no_sync_universe | some u ↦ u ]) self in
      ground arith

  pub send_terminations-Keeps :
      (left universe start_code : ℕ)
      → Keeps (registered {S = S} {U = U}) (send_terminations left universe start_code)
  unfolding send_terminations
  send_terminations-Keeps zero universe start_code self = refl
  send_terminations-Keeps (suc left) universe start_code self =
      bind-Keeps (registered {S = S} {U = U}) (send_terminate_stream_pkt universe none start_code)
        (λ _. send_terminations left universe start_code)
        (send_terminate_stream_pkt-Keeps universe none start_code)
        (λ _. send_terminations-Keeps left universe start_code) self

  send_pages-Keeps :
      (p left last_page : ℕ) (universes : List ℕ)
      → Keeps (registered {S = S} {U = U}) (send_pages p left last_page universes)
  unfolding send_pages
  send_pages-Keeps p zero last_page universes self = refl
  send_pages-Keeps p (suc left) last_page universes self =
      bind-Keeps (registered {S = S} {U = U})
        (send_universe_discovery_detailed p last_page (chunk discovery_uni_per_page p universes))
        (λ _. send_pages (p + 1) left last_page universes)
        (send_detailed-Keeps p last_page (chunk discovery_uni_per_page p universes))
        (λ _. send_pages-Keeps (p + 1) left last_page universes) self

  pub perform_periodic_update-Keeps :
      (now later : ℕ) → Keeps (registered {S = S} {U = U}) (perform_periodic_update now later)
  unfolding perform_periodic_update send_universe_discovery
  perform_periodic_update-Keeps now later self =
      let n = pages_req (length self.universes) in
      let pages = send_pages-Keeps 0 n (n - 1) self.universes self in ground arith
