-- ===== src/Receive/Network.antt =====
-- `SacnNetworkReceiver` of src/receive.rs (the Unix one): the socket, and the joining and leaving
-- of multicast groups. The socket is the operating system's: its calls are a parameter.
use sacn_rust.Packet.Acn.{AcnRootLayerProtocol, parse}
use sacn_rust.Packet.Constants.{rcv_buf_default_size}
use sacn_rust.External.{UuidCrate, NetworkEndian}
use sacn_rust.Common.{Outcome, Option, ltb, length, ◌++◌, drop, Bool, ℕ, List, ok, err, panic}
use sacn_rust.Common.State.{refuse_if, ◌>>◌, Stateful, ◌>>=◌, lift}
use sacn_rust.Error.{too_many_bytes_read, SacnError, io, ip_version_error, IoErrorKind, Result}
use sacn_rust.Packet.Universe.{
  is_ipv4, SocketAddr, v4, v6, universe_to_ipv4_multicast_addr, universe_to_ipv6_multicast_addr,
}

-- The calls on a socket; each leaves the socket in a new state. The segments of the addresses are
-- given: the group, and for IPv4 the interface.
pub record SocketCalls (S : Type 0) : Type 0 where
  pub join_multicast_v4 : List ℕ → List ℕ → Stateful S IoErrorKind (Unit {0})
  pub join_multicast_v6 : List ℕ → Stateful S IoErrorKind (Unit {0})
  pub leave_multicast_v4 : List ℕ → List ℕ → Stateful S IoErrorKind (Unit {0})
  pub leave_multicast_v6 : List ℕ → Stateful S IoErrorKind (Unit {0})

-- The clock and the calls with which a receiver reads. `instant` is `Instant::now`, after which the
-- clock may have moved on, and `instant_max` the last instant that `checked_add` can give. `read`
-- returns the bytes that it has put into a buffer of that many bytes, and `set_read_timeout` takes
-- the time that a read may block.
pub record ReadCalls (S : Type 0) : Type 0 where
  pub instant : S → ℕ × S
  pub instant_max : ℕ
  pub set_read_timeout : Option ℕ → Stateful S IoErrorKind (Unit {0})
  pub set_only_v6 : Bool → Stateful S IoErrorKind (Unit {0})
  pub read : ℕ → Stateful S IoErrorKind (List ℕ)

pub record SacnNetworkReceiver (S : Type 0) : Type 0 where
  pub socket : S
  pub addr : SocketAddr
  pub is_multicast_enabled : Bool

module _ {U : Type 0} where
  -- `if self.addr.is_ipv4()`
  unfoldable pub multicast_addr : SocketAddr → ℕ → Result U SocketAddr
  multicast_addr (v4 _ _) universe = universe_to_ipv4_multicast_addr universe
  multicast_addr (v6 _ _) universe = universe_to_ipv6_multicast_addr universe

module _ {S U : Type 0} where
  -- `map_err`, then `?`.
  abbrev pub io_result : {A : Type 0} → Outcome IoErrorKind A × S → Outcome (SacnError U) A × S
  io_result (ok a, s) = (ok a, s)
  io_result (err e, s) = (err (io e), s)
  io_result (panic, s) = (panic, s)

  abbrev pub on_socket : {A : Type 0} → Stateful S IoErrorKind A → Stateful S (SacnError U) A
  on_socket m s = io_result (m s)

  abbrev pub with_socket :
      {A : Type 0} → Stateful S (SacnError U) A → Stateful (SacnNetworkReceiver S) (SacnError U) A
  with_socket m self = let r = m self.socket in (r.0, record self { socket = r.1 })

module _ {S U : Type 0} ⦃calls : SocketCalls S⦄ where
  -- A multicast address is IPv4 or IPv6: the other families of the source do not occur.
  unfoldable pub join_unix_multicast : SocketAddr → SocketAddr → Stateful S (SacnError U) (Unit {0})
  join_unix_multicast (v4 group _) (v4 interface_v4 _) =
      on_socket (calls.join_multicast_v4 group interface_v4)
  join_unix_multicast (v4 group _) (v6 _ _) = λ s. (err ip_version_error, s)
  join_unix_multicast (v6 group _) _ = on_socket (calls.join_multicast_v6 group)

  unfoldable pub leave_unix_multicast :
      SocketAddr → SocketAddr → Stateful S (SacnError U) (Unit {0})
  leave_unix_multicast (v4 group _) (v4 interface_v4 _) =
      on_socket (calls.leave_multicast_v4 group interface_v4)
  leave_unix_multicast (v4 group _) (v6 _ _) = λ s. (err ip_version_error, s)
  leave_unix_multicast (v6 group _) _ = on_socket (calls.leave_multicast_v6 group)

  unfoldable pub listen_multicast_universe :
      ℕ → Stateful (SacnNetworkReceiver S) (SacnError U) (Unit {0})
  listen_multicast_universe universe self =
      (lift (multicast_addr self.addr universe) >>= λ addr.
      with_socket (join_unix_multicast addr self.addr))
        self

  unfoldable pub mute_multicast_universe :
      ℕ → Stateful (SacnNetworkReceiver S) (SacnError U) (Unit {0})
  mute_multicast_universe universe self =
      (lift (multicast_addr self.addr universe) >>= λ addr.
      with_socket (leave_unix_multicast addr self.addr))
        self

module _ {S U : Type 0} where
  unfoldable pub set_is_multicast_enabled :
      Bool → Stateful (SacnNetworkReceiver S) (SacnError U) (Unit {0})
  set_is_multicast_enabled val self = (ok tt, record self { is_multicast_enabled = val })

-- Reading and its settings.
module _ {S U : Type 0} ⦃calls : ReadCalls S⦄ where
  unfoldable pub set_only_v6 : Bool → Stateful (SacnNetworkReceiver S) (SacnError U) (Unit {0})
  set_only_v6 val = do
    λ self. refuse_if (is_ipv4 self.addr) ip_version_error self
    with_socket (on_socket (calls.set_only_v6 val))

  unfoldable pub set_timeout : Option ℕ → Stateful (SacnNetworkReceiver S) (SacnError U) (Unit {0})
  set_timeout timeout = with_socket (on_socket (calls.set_read_timeout timeout))

module _ {S U : Type 0} ⦃calls : ReadCalls S⦄ ⦃net : NetworkEndian⦄ ⦃crate : UuidCrate U⦄ where
  -- What has been read fills the front of the buffer; `parse` gets all of the buffer.
  abbrev pub parse_read :
      List ℕ → List ℕ → Stateful (SacnNetworkReceiver S) (SacnError U) (AcnRootLayerProtocol U)
  parse_read buf bytes = do
    refuse_if (ltb rcv_buf_default_size (length bytes))
        (too_many_bytes_read (length bytes) (length buf))
    lift (parse (bytes ++ drop (length bytes) buf))

  unfoldable pub recv :
      List ℕ → Stateful (SacnNetworkReceiver S) (SacnError U) (AcnRootLayerProtocol U)
  recv buf = with_socket (on_socket (calls.read (length buf))) >>= parse_read buf
