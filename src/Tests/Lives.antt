-- ===== src/Tests/Lives.antt =====
-- A receiver that is made, listens to universe 1, polls for a packet, and stops listening.
use sacn_rust.Common.{true, ℕ, ◌≡◌, refl, none, some, List, [], ◌∷◌, Outcome, ok}
use sacn_rust.Common.State.{fail, ◌>>◌}
use sacn_rust.Packet.Universe.{is_universe_in_range, universe_to_ipv4_multicast_addr}
use sacn_rust.Error.{SacnError, io, would_block}
use sacn_rust.Receive.Merge.{DmxData}
use sacn_rust.Receive.Network.{listen_multicast_universe, multicast_addr, join_unix_multicast}
use sacn_rust.Receive.Receiver.{
  contains_universe, check_range, listen_each, listen_universe, SacnReceiver, listen_universes,
  mute_universe,
}
use sacn_rust.Receive.Creation.{with_ip, new_network_receiver, create_unix_socket, new_receiver}
use sacn_rust.Receive.Recv.{recv, run_checks}
use sacn_rust.Receive.Listening.{IsOrdered}
use sacn_rust.Receive.Lifetime.{made, listened, muted, received, Lived-IsOrdered}
use sacn_rust.Tests.Instances.{big_endian, uuid_crate, Uuid}
use sacn_rust.Tests.Links.{quiet_socket, quiet_reads}
use sacn_rust.Tests.Windows.{quiet_creation, interface_v4}

abbrev newborn : SacnReceiver ℕ Uuid
newborn =
    (listen_universes (64214 ∷ []) (
      new_receiver none
        (record { socket = 0; addr = interface_v4; is_multicast_enabled = true }))).1

newborn-made : with_ip interface_v4 none ≡ ok newborn
unfolding with_ip new_network_receiver create_unix_socket listen_universes check_range listen_each
    listen_universe is_universe_in_range contains_universe listen_multicast_universe multicast_addr
    universe_to_ipv4_multicast_addr join_unix_multicast
newborn-made = refl

abbrev listening : SacnReceiver ℕ Uuid
listening = (listen_universes (1 ∷ []) newborn).1

abbrev polled : Outcome (SacnError Uuid) (List (DmxData Uuid)) × SacnReceiver ℕ Uuid
polled = (run_checks >> fail (io would_block)) listening

listening-polled : recv 0 (some 0) listening ≡ some polled
unfolding recv
listening-polled = refl

Lived-IsOrdered_example : IsOrdered ((mute_universe 1 (polled.1)).1).universes
Lived-IsOrdered_example = Lived-IsOrdered ((mute_universe 1 (polled.1)).1) (
    muted (polled.1) 1 (
      received listening 0 (some 0) polled listening-polled
        (listened newborn (1 ∷ []) (made interface_v4 none newborn newborn-made))))
