-- ===== src/Receive/Creation.antt =====
-- How a `SacnReceiver` (src/receive.rs) is made, set up and dropped. The calls that make a socket
-- are the operating system's: they are a parameter.
use sacn_rust.Common.{
  ℕ, ◌==◌, Bool, true, false, Option, none, some, List, [], ◌∷◌, Outcome, ok, err, panic,
  if◌then◌else◌,
}
use sacn_rust.Common.State.{Stateful, ◌>>◌}
use sacn_rust.Packet.Constants.{
  acn_sdt_multicast_port, e131_discovery_universe, process_preview_data_default,
  announce_source_discovery_default, announce_stream_termination_default, announce_timeout_default,
}
use sacn_rust.Packet.Universe.{SocketAddr, v4, v6}
use sacn_rust.Error.{SacnError, IoErrorKind, Result, io, source_limit_zero}
use sacn_rust.Receive.Merge.{DmxData, discard_lowest_priority_then_previous}
use sacn_rust.Receive.Discovery.{DiscoveredSacnSource}
use sacn_rust.Receive.Sequence as Sequence
use sacn_rust.Receive.Network as Network
use sacn_rust.Receive.Network.{SocketCalls, ReadCalls, SacnNetworkReceiver, io_result, on_socket}
use sacn_rust.Receive.Receiver.{SacnReceiver, on_network, listen_universes, mute_universe}

-- `Domain`.
pub data Domain : Type 0 where
  ipv4 ipv6 : Domain

-- The calls with which a UDP socket is made.
pub record CreateCalls (S : Type 0) : Type 0 where
  pub new_socket : Domain → Outcome IoErrorKind S
  pub set_reuse_port : Bool → Stateful S IoErrorKind (Unit {0})
  pub set_reuse_address : Bool → Stateful S IoErrorKind (Unit {0})
  pub bind : SocketAddr → Stateful S IoErrorKind (Unit {0})

module _ {S U : Type 0} where
  -- A socket that has been made, or the error of making it, and what is done with it then.
  abbrev pub with_new_socket :
      Outcome IoErrorKind S → Stateful S (SacnError U) (Unit {0}) → Result U S
  with_new_socket (err e) set_up = err (io e)
  with_new_socket panic set_up = panic
  with_new_socket (ok s) set_up =
      let r = set_up s in elim (r.0) [ ok _ ↦ ok (r.1) | err e ↦ err e | panic ↦ panic ]

module _ {S U : Type 0} ⦃creates : CreateCalls S⦄ where
  -- The socket listens on every interface, whatever address the receiver is made with.
  unfoldable pub create_unix_socket : SocketAddr → Result U S
  create_unix_socket (v4 _ _) = with_new_socket (creates.new_socket ipv4) (do
    on_socket (creates.set_reuse_port true)
    on_socket (creates.set_reuse_address true)
    on_socket (creates.bind (v4 (0 ∷ 0 ∷ 0 ∷ 0 ∷ []) acn_sdt_multicast_port)))
  create_unix_socket (v6 _ _) = with_new_socket (creates.new_socket ipv6) (do
    on_socket (creates.set_reuse_port true)
    on_socket (creates.set_reuse_address true)
    on_socket (creates.bind (v6 (0 ∷ 0 ∷ 0 ∷ 0 ∷ 0 ∷ 0 ∷ 0 ∷ 0 ∷ []) acn_sdt_multicast_port)))

  -- `SacnNetworkReceiver::new`.
  unfoldable pub new_network_receiver : SocketAddr → Result U (SacnNetworkReceiver S)
  unfolding create_unix_socket
  new_network_receiver ip = elim (create_unix_socket ip) [
    | ok socket ↦ ok (record { socket = socket; addr = ip; is_multicast_enabled = true })
    | err e ↦ err e
    | panic ↦ panic
  ]

module _ {S U : Type 0} where
  -- The receiver of `with_ip`, before it listens.
  abbrev pub new_receiver : Option ℕ → SacnNetworkReceiver S → SacnReceiver S U
  new_receiver source_limit receiver = record {
    receiver = receiver;
    waiting_data = [];
    universes = [];
    discovered_sources = [];
    merge_func = discard_lowest_priority_then_previous;
    partially_discovered_sources = [];
    process_preview_data = process_preview_data_default;
    source_limit = source_limit;
    sequences = Sequence.new;
    announce_source_discovery = announce_source_discovery_default;
    announce_stream_termination = announce_stream_termination_default;
    announce_timeout = announce_timeout_default;
  }

-- A limit of no sources.
abbrev pub is_zero_limit : Option ℕ → Bool
is_zero_limit none = false
is_zero_limit (some x) = x == 0

module _ {S U : Type 0} ⦃creates : CreateCalls S⦄ ⦃calls : SocketCalls S⦄ where
  unfoldable pub with_ip : SocketAddr → Option ℕ → Result U (SacnReceiver S U)
  unfolding new_network_receiver listen_universes
  with_ip ip source_limit =
      if is_zero_limit source_limit
      then err source_limit_zero
      else (elim (new_network_receiver ip) [
        | err e ↦ err e
        | panic ↦ panic
        | ok receiver ↦
            let r =
              listen_universes (e131_discovery_universe ∷ [])
                (new_receiver source_limit receiver) in
            elim (r.0) [ ok _ ↦ ok (r.1) | err e ↦ err e | panic ↦ panic ]
      ])

-- The settings.
module _ {S U : Type 0} where
  unfoldable pub set_is_multicast_enabled :
      Bool → Stateful (SacnReceiver S U) (SacnError U) (Unit {0})
  set_is_multicast_enabled val = on_network (Network.set_is_multicast_enabled val)

  unfoldable pub is_multicast_enabled : SacnReceiver S U → Bool
  is_multicast_enabled self = self.receiver.is_multicast_enabled

  unfoldable pub set_merge_fn :
      (DmxData U → DmxData U → Result U (DmxData U))
      → Stateful (SacnReceiver S U) (SacnError U) (Unit {0})
  set_merge_fn func self = (ok tt, record self { merge_func = func })

  unfoldable pub set_process_preview_data : Bool → SacnReceiver S U → SacnReceiver S U
  set_process_preview_data val self = record self { process_preview_data = val }

  unfoldable pub get_announce_source_discovery : SacnReceiver S U → Bool
  get_announce_source_discovery self = self.announce_source_discovery

  unfoldable pub set_announce_source_discovery : Bool → SacnReceiver S U → SacnReceiver S U
  set_announce_source_discovery new_val self = record self { announce_source_discovery = new_val }

  unfoldable pub get_announce_timeout : SacnReceiver S U → Bool
  get_announce_timeout self = self.announce_timeout

  unfoldable pub set_announce_timeout : Bool → SacnReceiver S U → SacnReceiver S U
  set_announce_timeout new_val self = record self { announce_timeout = new_val }

  unfoldable pub get_announce_stream_termination : SacnReceiver S U → Bool
  get_announce_stream_termination self = self.announce_stream_termination

  unfoldable pub set_announce_stream_termination : Bool → SacnReceiver S U → SacnReceiver S U
  set_announce_stream_termination new_val self = record self {
    announce_stream_termination = new_val;
  }

  unfoldable pub get_discovered_sources_no_check : SacnReceiver S U → List (DiscoveredSacnSource U)
  get_discovered_sources_no_check self = self.discovered_sources

module _ {S U : Type 0} ⦃calls : ReadCalls S⦄ where
  unfoldable pub set_ipv6_only : Bool → Stateful (SacnReceiver S U) (SacnError U) (Unit {0})
  set_ipv6_only val = on_network (Network.set_only_v6 val)

module _ {S U : Type 0} ⦃calls : SocketCalls S⦄ where
  -- `drop` mutes every universe, and ignores the errors.
  unfoldable pub mute_all : List ℕ → SacnReceiver S U → SacnReceiver S U
  unfolding mute_universe
  mute_all [] self = self
  mute_all (u ∷ us) self = mute_all us ((mute_universe u self).1)

  unfoldable pub drop_receiver : SacnReceiver S U → SacnReceiver S U
  unfolding mute_all
  drop_receiver self = mute_all self.universes self
