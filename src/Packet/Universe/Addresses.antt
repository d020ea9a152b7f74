-- ===== src/Packet/Universe/Addresses.antt =====
-- The multicast addresses of src/packet.rs tell the universes apart.
use sacn_rust.Common.{
  ℕ, ◌+◌, ◌*◌, ◌/◌, ◌%◌, ◌<◌, ◌≡◌, ◌∙◌, sym, ap, inl, inr, ok, [], ◌∷◌, bit_and, arith,
}
use sacn_rust.Common.Bits.{byte_mask}
use sacn_rust.Common.Results.{Outcome-cases}
use sacn_rust.Error.{Result}
use sacn_rust.Packet.Universe.{
  SocketAddr, v4, v6, is_universe_in_range, universe_to_ipv4_multicast_addr,
  universe_to_ipv6_multicast_addr,
}

-- The universe that a group of ANSI E1.31 is for: the last two bytes of the address.
unfoldable pub universe_of : SocketAddr → ℕ
universe_of (v4 (a ∷ b ∷ hi ∷ lo ∷ []) _) = hi * 256 + lo
universe_of (v6 (a ∷ b ∷ c ∷ d ∷ e ∷ f ∷ g ∷ word ∷ []) _) = word
universe_of _ = 0

low_bytes : (u : ℕ) → u < 65536 → bit_and (u / 256) 0xff % 256 * 256 + bit_and u 0xff % 256 ≡ u
low_bytes u h = omega (arith, byte_mask u h, byte_mask (u / 256) (omega arith))

module _ {U : Type 0} where
  -- The universe of the address that a call returns.
  abbrev returned : Result U SocketAddr → ℕ
  returned (ok dst) = universe_of dst
  returned _ = 0

  ipv4-universe_of :
      (u : ℕ) (dst : SocketAddr)
      → u < 65536
      → universe_to_ipv4_multicast_addr {U = U} u ≡ ok dst
      → universe_of dst ≡ u
  unfolding universe_to_ipv4_multicast_addr universe_of
  ipv4-universe_of u dst h e = elim (Outcome-cases (is_universe_in_range {U = U} u)) [
    | inl (_, r) ↦ sym (ap returned (rw r at e)) ∙ low_bytes u h
    | inr (inl (x, r)) ↦ let never = rw r at e in cc
    | inr (inr r) ↦ let never = rw r at e in cc
  ]

  ipv6-universe_of :
      (u : ℕ) (dst : SocketAddr)
      → universe_to_ipv6_multicast_addr {U = U} u ≡ ok dst
      → universe_of dst ≡ u
  unfolding universe_to_ipv6_multicast_addr universe_of
  ipv6-universe_of u dst e = elim (Outcome-cases (is_universe_in_range {U = U} u)) [
    | inl (_, r) ↦ sym (ap returned (rw r at e))
    | inr (inl (x, r)) ↦ let never = rw r at e in cc
    | inr (inr r) ↦ let never = rw r at e in cc
  ]

  -- The universe can be read back (`universe_of`) from the IPv4 and from the IPv6 multicast address
  -- of every 16-bit universe number that the two functions give an address for, so no two universes
  -- share one.
  pub universe_of-multicast_addr :
      (u : ℕ) (ipv4 ipv6 : SocketAddr)
      → u < 65536
      → universe_to_ipv4_multicast_addr {U = U} u ≡ ok ipv4
      → universe_to_ipv6_multicast_addr {U = U} u ≡ ok ipv6
      → (universe_of ipv4 ≡ u) × (universe_of ipv6 ≡ u)
  universe_of-multicast_addr u ipv4 ipv6 h e4 e6 =
      (ipv4-universe_of u ipv4 h e4, ipv6-universe_of u ipv6 e6)
