-- ===== src/Source/Creation.antt =====
-- How a `SacnSourceInternal` of src/source.rs is made, its settings and the options of its socket.
use sacn_rust.Common.{ℕ, Bool, true, false, List, [], Outcome, ok, err, panic}
use sacn_rust.Common.State.{Stateful, ◌>>◌}
use sacn_rust.Packet.Universe.{SocketAddr, v4, v6}
use sacn_rust.Error.{SacnError, IoErrorKind, Result}
use sacn_rust.Receive.Network.{on_socket}
use sacn_rust.Receive.Creation.{CreateCalls, ipv4, ipv6}
use sacn_rust.Source.{SacnSourceInternal}

-- The calls that read and set the options of a socket.
pub record OptionCalls (S : Type 0) : Type 0 where
  pub set_multicast_ttl_v4 : ℕ → Stateful S IoErrorKind (Unit {0})
  pub multicast_ttl_v4 : Stateful S IoErrorKind ℕ
  pub set_ttl_v4 : ℕ → Stateful S IoErrorKind (Unit {0})
  pub ttl_v4 : Stateful S IoErrorKind ℕ
  pub set_multicast_loop_v4 : Bool → Stateful S IoErrorKind (Unit {0})
  pub multicast_loop_v4 : Stateful S IoErrorKind Bool

module _ {S : Type 0} ⦃creates : CreateCalls S⦄ where
  -- `Socket::new`, with `unwrap`.
  abbrev pub new_socket_for : SocketAddr → Outcome IoErrorKind S
  new_socket_for (v4 _ _) = creates.new_socket ipv4
  new_socket_for (v6 _ _) = creates.new_socket ipv6

module _ {S U : Type 0} ⦃creates : CreateCalls S⦄ where
  -- On Linux, where the port can be shared.
  abbrev pub set_up : SocketAddr → Stateful S (SacnError U) (Unit {0})
  set_up ip = do
    on_socket (creates.set_reuse_port true)
    on_socket (creates.set_reuse_address true)
    on_socket (creates.bind ip)

  unfoldable pub new_internal : ℕ → List ℕ → U → SocketAddr → Result U (SacnSourceInternal S U)
  new_internal now name cid ip = elim (new_socket_for ip) [
    | err e ↦ panic
    | panic ↦ panic
    | ok made ↦
        let r = set_up ip made in
        elim (r.0) [
          | err e ↦ err e
          | panic ↦ panic
          | ok _ ↦ ok (record {
            socket = r.1;
            addr = ip;
            cid = cid;
            name = name;
            preview_data = false;
            data_sequences = [];
            sync_sequences = [];
            universes = [];
            running = true;
            last_discovery_advert_timestamp = now;
            is_sending_discovery = true;
          })
        ]
  ]

module _ {S U : Type 0} where
  unfoldable pub set_is_sending_discovery : Bool → SacnSourceInternal S U → SacnSourceInternal S U
  set_is_sending_discovery val self = record self { is_sending_discovery = val }

  unfoldable pub set_cid : U → SacnSourceInternal S U → SacnSourceInternal S U
  set_cid cid self = record self { cid = cid }

  unfoldable pub set_preview_mode : Bool → SacnSourceInternal S U → SacnSourceInternal S U
  set_preview_mode preview_mode self = record self { preview_data = preview_mode }

  -- A call on the socket of the source.
  abbrev pub with_source_socket :
      {A : Type 0} → Stateful S IoErrorKind A → Stateful (SacnSourceInternal S U) (SacnError U) A
  with_source_socket m self = let r = on_socket m self.socket in (r.0, record self { socket = r.1 })

module _ {S U : Type 0} ⦃options : OptionCalls S⦄ where
  unfoldable pub set_multicast_ttl : ℕ → Stateful (SacnSourceInternal S U) (SacnError U) (Unit {0})
  set_multicast_ttl multicast_ttl = with_source_socket (options.set_multicast_ttl_v4 multicast_ttl)

  unfoldable pub multicast_ttl : Stateful (SacnSourceInternal S U) (SacnError U) ℕ
  multicast_ttl = with_source_socket options.multicast_ttl_v4

  unfoldable pub set_ttl : ℕ → Stateful (SacnSourceInternal S U) (SacnError U) (Unit {0})
  set_ttl ttl = with_source_socket (options.set_ttl_v4 ttl)

  unfoldable pub ttl : Stateful (SacnSourceInternal S U) (SacnError U) ℕ
  ttl = with_source_socket options.ttl_v4

  unfoldable pub set_multicast_loop_v4 :
      Bool → Stateful (SacnSourceInternal S U) (SacnError U) (Unit {0})
  set_multicast_loop_v4 multicast_loop =
      with_source_socket (options.set_multicast_loop_v4 multicast_loop)

  unfoldable pub multicast_loop : Stateful (SacnSourceInternal S U) (SacnError U) Bool
  multicast_loop = with_source_socket options.multicast_loop_v4
