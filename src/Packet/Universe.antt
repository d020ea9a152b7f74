-- ===== src/Packet/Universe.antt =====
-- Universe numbers and the multicast addresses that they map to.
pub mod Addresses
use sacn_rust.Common.{
  true, false, ℕ, ◌/◌, ◌%◌, ◌^◌, Bool, not, ◌&&◌, List, [], ◌∷◌, leb, ◌==◌, if◌then◌else◌, ok, err,
  ◌>>◌, bit_and,
}
use sacn_rust.Error.{illegal_universe, Result}
use sacn_rust.Packet.Constants.{
  e131_discovery_universe, e131_min_multicast_universe, e131_max_multicast_universe,
  acn_sdt_multicast_port,
}

-- `(lo ..= hi).contains(&x)`
abbrev pub contains : ℕ → ℕ → ℕ → Bool
contains lo hi x = leb lo x && leb x hi

module _ {U : Type 0} where
  unfoldable pub is_universe_in_range : ℕ → Result U (Unit {0})
  is_universe_in_range universe =
      if not (universe == e131_discovery_universe)
        && not (contains e131_min_multicast_universe e131_max_multicast_universe universe)
      then err (illegal_universe universe)
      else ok tt

-- A `SocketAddr`: the segments of the address (bytes for IPv4, 16-bit words for IPv6) and the port.
pub data SocketAddr : Type 0 where
  v4 : List ℕ → ℕ → SocketAddr
  v6 : List ℕ → ℕ → SocketAddr

abbrev pub is_ipv4 : SocketAddr → Bool
is_ipv4 (v4 _ _) = true
is_ipv4 (v6 _ _) = false

module _ {U : Type 0} where
  unfoldable pub universe_to_ipv4_multicast_addr : ℕ → Result U SocketAddr
  universe_to_ipv4_multicast_addr universe = do
    is_universe_in_range universe
    let high_byte = bit_and (universe / 2 ^ 8) 0xff % 256
    let low_byte = bit_and universe 0xff % 256
    ok (v4 (239 ∷ 255 ∷ high_byte ∷ low_byte ∷ []) acn_sdt_multicast_port)

  unfoldable pub universe_to_ipv6_multicast_addr : ℕ → Result U SocketAddr
  universe_to_ipv6_multicast_addr universe = do
    is_universe_in_range universe
    ok (v6 (0xff18 ∷ 0 ∷ 0 ∷ 0 ∷ 0 ∷ 0 ∷ 0x8300 ∷ universe ∷ []) acn_sdt_multicast_port)
