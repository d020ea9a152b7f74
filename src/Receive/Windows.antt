-- ===== src/Receive/Windows.antt =====
-- `SacnNetworkReceiver` of src/receive.rs as it is built for Windows, where IPv6 multicast is not
-- supported; what differs from the Unix one.
pub mod Enabled
use sacn_rust.Common.{
  ℕ, ◌&&◌, Bool, true, false, not, List, [], ◌∷◌, ok, err, panic, if◌then◌else◌, length,
}
use sacn_rust.Common.State.{Stateful, ◌>>◌, ◌>>=◌, lift}
use sacn_rust.Packet.Universe.{SocketAddr, v4, v6, is_ipv4}
use sacn_rust.Error.{SacnError, text, Result, ip_version_error, os_operation_unsupported}
use sacn_rust.External.{NetworkEndian, UuidCrate}
use sacn_rust.Packet.Acn.{AcnRootLayerProtocol}
use sacn_rust.Receive.Creation.{CreateCalls, ipv4, ipv6, with_new_socket}
use sacn_rust.Receive.Network.{
  SocketCalls, ReadCalls, parse_read, SacnNetworkReceiver, on_socket, with_socket, multicast_addr,
}

module _ {S U : Type 0} ⦃creates : CreateCalls S⦄ where
  -- The socket is bound to the address itself.
  unfoldable pub create_win_socket : SocketAddr → Result U S
  create_win_socket (v4 ip port) =
      with_new_socket (creates.new_socket ipv4)
        (do on_socket (creates.set_reuse_address true); on_socket (creates.bind (v4 ip port)))
  create_win_socket (v6 ip port) =
      with_new_socket (creates.new_socket ipv6)
        (do on_socket (creates.set_reuse_address true); on_socket (creates.bind (v6 ip port)))

  -- `SacnNetworkReceiver::new`.
  unfoldable pub new : SocketAddr → Result U (SacnNetworkReceiver S)
  unfolding create_win_socket
  new ip = elim (create_win_socket ip) [
    | ok socket ↦ ok (record { socket = socket; addr = ip; is_multicast_enabled = is_ipv4 ip })
    | err e ↦ err e
    | panic ↦ panic
  ]

module _ {S U : Type 0} ⦃calls : SocketCalls S⦄ where
  -- A multicast address is IPv4 or IPv6: the other families of the source do not occur.
  unfoldable pub join_win_multicast : SocketAddr → SocketAddr → Stateful S (SacnError U) (Unit {0})
  join_win_multicast (v4 group _) (v4 interface_v4 _) =
      on_socket (calls.join_multicast_v4 group interface_v4)
  join_win_multicast (v4 group _) (v6 _ _) = λ s. (err ip_version_error, s)
  join_win_multicast (v6 group _) _ = on_socket (calls.join_multicast_v6 group)

  unfoldable pub leave_win_multicast : SocketAddr → Stateful S (SacnError U) (Unit {0})
  leave_win_multicast (v4 group _) = on_socket (calls.leave_multicast_v4 group (0 ∷ 0 ∷ 0 ∷ 0 ∷ []))
  leave_win_multicast (v6 _ _) = λ s. (
    err (os_operation_unsupported (text "IPv6 multicast is currently unsupported on Windows")),
    s,
  )

  unfoldable pub listen_multicast_universe :
      ℕ → Stateful (SacnNetworkReceiver S) (SacnError U) (Unit {0})
  unfolding multicast_addr join_win_multicast
  listen_multicast_universe universe self =
      (lift (multicast_addr self.addr universe) >>= λ addr.
      with_socket (join_win_multicast addr self.addr))
        self

  unfoldable pub mute_multicast_universe :
      ℕ → Stateful (SacnNetworkReceiver S) (SacnError U) (Unit {0})
  unfolding multicast_addr leave_win_multicast
  mute_multicast_universe universe self =
      (lift (multicast_addr self.addr universe) >>= λ addr. with_socket (leave_win_multicast addr))
        self

-- `read` and not `read_exact`.
module _ {S U : Type 0} ⦃calls : ReadCalls S⦄ ⦃net : NetworkEndian⦄ ⦃crate : UuidCrate U⦄ where
  unfoldable pub recv :
      List ℕ → Stateful (SacnNetworkReceiver S) (SacnError U) (AcnRootLayerProtocol U)
  recv buf = with_socket (on_socket (calls.read (length buf))) >>= parse_read buf

module _ {S U : Type 0} where
  unfoldable pub set_is_multicast_enabled :
      Bool → Stateful (SacnNetworkReceiver S) (SacnError U) (Unit {0})
  set_is_multicast_enabled val self =
      if val && not (is_ipv4 self.addr)
      then (
        err (os_operation_unsupported (text "IPv6 multicast is currently unsupported on Windows")),
        self,
      )
      else (ok tt, record self { is_multicast_enabled = val })
