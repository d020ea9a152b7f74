-- ===== src/Tests/Windows.antt =====
-- A receiver on Windows listens to universe 1 and then turns multicast off and on.
use sacn_rust.Common.{ℕ, ◌≡◌, ◌↔◌, refl, true, [], ◌∷◌, ok}
use sacn_rust.Packet.Universe.{
  universe_to_ipv4_multicast_addr, is_universe_in_range, SocketAddr, v4, is_ipv4,
}
use sacn_rust.Receive.Creation.{CreateCalls}
use sacn_rust.Receive.Network.{SacnNetworkReceiver}
use sacn_rust.Receive.Ordering.{cmp, equal, eq, reverse}
use sacn_rust.Receive.Ordering.IsOrder.{cmp-eq}
use sacn_rust.Receive.Windows.{
  new, create_win_socket, listen_multicast_universe, set_is_multicast_enabled,
}
use sacn_rust.Receive.Windows.Enabled.{Reach, made, listened, enabled, Reach-IsSupported}
use sacn_rust.Tests.Instances.{big_endian, uuid_crate, Uuid}
use sacn_rust.Tests.Delivering.{desk, house}
use sacn_rust.Tests.Links.{quiet_socket, quiet_reads}

instance abbrev pub quiet_creation : CreateCalls ℕ
quiet_creation = record {
  new_socket = λ domain. ok 0;
  set_reuse_port = λ val s. (ok tt, s);
  set_reuse_address = λ val s. (ok tt, s);
  bind = λ addr s. (ok tt, s);
}

abbrev pub interface_v4 : SocketAddr
interface_v4 = v4 (192 ∷ 168 ∷ 0 ∷ 3 ∷ []) 5568

abbrev first_state : SacnNetworkReceiver ℕ
first_state = record { socket = 0; addr = interface_v4; is_multicast_enabled = true }

abbrev last_state : SacnNetworkReceiver ℕ
last_state =
    (set_is_multicast_enabled {U = Uuid} true
      ((listen_multicast_universe {U = Uuid} 1 first_state).1)).1

first_state-made : new {U = Uuid} interface_v4 ≡ ok first_state
unfolding new create_win_socket
first_state-made = refl

last_state-Reach : Reach Uuid interface_v4 last_state
last_state-Reach =
    enabled ((listen_multicast_universe {U = Uuid} 1 first_state).1) true
      (listened first_state 1 (made first_state first_state-made))

last_state-enabled : last_state.is_multicast_enabled ≡ true
unfolding set_is_multicast_enabled listen_multicast_universe universe_to_ipv4_multicast_addr
    is_universe_in_range
last_state-enabled = refl

Reach-IsSupported_example : is_ipv4 last_state.addr ≡ true
Reach-IsSupported_example =
    Reach-IsSupported Uuid interface_v4 last_state last_state-Reach last_state-enabled

-- The data of two sources for one universe.
cmp-eq_example :
    (cmp house desk ≡ reverse (cmp desk house))
    × ((cmp desk house ≡ equal) ↔ (eq desk house ≡ true))
cmp-eq_example = cmp-eq desk house
