-- ===== src/Receive/Windows/Enabled.antt =====
-- On Windows, multicast is enabled only on a receiver that is bound to an IPv4 address.
use sacn_rust.Common.{
  subst, ℕ, ◌≡◌, refl, sym, Bool, true, ok, err, panic, Option, Bool-cases, List, ◌++◌, drop,
  length, ltb, inl, inr, Outcome-cases,
}
use sacn_rust.Common.State.{Keeps, bind-Keeps, refuse_if-Keeps, lift, refuse_if, Stateful}
use sacn_rust.Packet.Universe.{SocketAddr, is_ipv4}
use sacn_rust.Error.{SacnError, ip_version_error, too_many_bytes_read}
use sacn_rust.External.{NetworkEndian, UuidCrate}
use sacn_rust.Packet.Acn.{parse}
use sacn_rust.Packet.Constants.{rcv_buf_default_size}
use sacn_rust.Receive.Creation.{CreateCalls}
use sacn_rust.Receive.Network.{
  SocketCalls, ReadCalls, SacnNetworkReceiver, set_only_v6, set_timeout, multicast_addr,
  with_socket, on_socket, parse_read,
}
use sacn_rust.Receive.Windows.{
  create_win_socket, new, listen_multicast_universe, mute_multicast_universe, recv,
  set_is_multicast_enabled, join_win_multicast, leave_win_multicast,
}

-- What no call on the socket changes.
abbrev settings : {S : Type 0} → SacnNetworkReceiver S → SocketAddr × Bool
settings self = (self.addr, self.is_multicast_enabled)

module _ {S U : Type 0} where
  with_socket-Keeps :
      {A : Type 0} (m : Stateful S (SacnError U) A) → Keeps (settings {S = S}) (with_socket m)
  with_socket-Keeps m self = refl

module _ {S : Type 0} (U : Type 0) ⦃calls : SocketCalls S⦄ where
  listen-Keeps :
      (universe : ℕ) → Keeps (settings {S = S}) (listen_multicast_universe {U = U} universe)
  unfolding listen_multicast_universe
  listen-Keeps universe self =
      bind-Keeps settings (lift (multicast_addr self.addr universe))
        (λ addr. with_socket (join_win_multicast addr self.addr)) (λ s. refl) (λ addr s. refl) self

  mute-Keeps : (universe : ℕ) → Keeps (settings {S = S}) (mute_multicast_universe {U = U} universe)
  unfolding mute_multicast_universe
  mute-Keeps universe self =
      bind-Keeps settings (lift (multicast_addr self.addr universe))
        (λ addr. with_socket (leave_win_multicast addr)) (λ s. refl) (λ addr s. refl) self

module _ {S : Type 0} (U : Type 0) ⦃calls : ReadCalls S⦄ where
  set_only_v6-Keeps : (val : Bool) → Keeps (settings {S = S}) (set_only_v6 {U = U} val)
  unfolding set_only_v6
  set_only_v6-Keeps val =
      bind-Keeps settings (λ s. refuse_if (is_ipv4 s.addr) ip_version_error s)
        (λ _. with_socket (on_socket (calls.set_only_v6 val)))
        (λ s. refuse_if-Keeps settings (is_ipv4 s.addr) ip_version_error s) (λ _ s. refl)

module _ {S : Type 0} (U : Type 0) ⦃calls : ReadCalls S⦄ ⦃net : NetworkEndian⦄
    ⦃crate : UuidCrate U⦄ where
  recv-Keeps : (buf : List ℕ) → Keeps (settings {S = S}) (recv {U = U} buf)
  unfolding recv
  recv-Keeps buf =
      bind-Keeps settings (with_socket (on_socket (calls.read (length buf)))) (parse_read buf)
        (λ s. refl)
        (λ bytes.
          bind-Keeps settings
            (refuse_if (ltb rcv_buf_default_size (length bytes))
              (too_many_bytes_read (length bytes) (length buf)))
            (λ _. lift (parse (bytes ++ drop (length bytes) buf)))
            (refuse_if-Keeps settings (ltb rcv_buf_default_size (length bytes))
              (too_many_bytes_read (length bytes) (length buf)))
            (λ _ s. refl))

-- A receiver that was made with an address, and what the calls of its methods leave of it.
pub data Reach {S : Type 0} (U : Type 0) ⦃creates : CreateCalls S⦄ ⦃calls : SocketCalls S⦄
    ⦃reads : ReadCalls S⦄ ⦃net : NetworkEndian⦄ ⦃crate : UuidCrate U⦄ (ip : SocketAddr)
    : SacnNetworkReceiver S → Type 0 where
  made : (self : SacnNetworkReceiver S) → new {U = U} ip ≡ ok self → Reach U ip self
  listened :
      (self : SacnNetworkReceiver S) (universe : ℕ)
      → Reach U ip self
      → Reach U ip ((listen_multicast_universe {U = U} universe self).1)
  muted :
      (self : SacnNetworkReceiver S) (universe : ℕ)
      → Reach U ip self
      → Reach U ip ((mute_multicast_universe {U = U} universe self).1)
  enabled :
      (self : SacnNetworkReceiver S) (val : Bool)
      → Reach U ip self
      → Reach U ip ((set_is_multicast_enabled {U = U} val self).1)
  restricted :
      (self : SacnNetworkReceiver S) (val : Bool)
      → Reach U ip self
      → Reach U ip ((set_only_v6 {U = U} val self).1)
  timed :
      (self : SacnNetworkReceiver S) (timeout : Option ℕ)
      → Reach U ip self
      → Reach U ip ((set_timeout {U = U} timeout self).1)
  received :
      (self : SacnNetworkReceiver S) (buf : List ℕ)
      → Reach U ip self
      → Reach U ip ((recv {U = U} buf self).1)

abbrev pub IsSupported : SocketAddr × Bool → Type 0
IsSupported (addr, val) = val ≡ true → is_ipv4 addr ≡ true

module _ {S : Type 0} (U : Type 0) where
  set_is_multicast_enabled-IsSupported :
      (val : Bool) (self : SacnNetworkReceiver S)
      → IsSupported (settings self)
      → IsSupported (settings ((set_is_multicast_enabled {U = U} val self).1))
  unfolding set_is_multicast_enabled
  set_is_multicast_enabled-IsSupported val self h = elim (Bool-cases val) [
    | inl on ↦ elim (Bool-cases (is_ipv4 self.addr)) [
      | inl is_v4 ↦ rw (on, is_v4) (λ _. is_v4)
      | inr is_v6 ↦ rw (on, is_v6) h
    ]
    | inr off ↦ rw off (λ on. cc)
  ]

module _ {S : Type 0} (U : Type 0) ⦃creates : CreateCalls S⦄ ⦃calls : SocketCalls S⦄
    ⦃reads : ReadCalls S⦄ ⦃net : NetworkEndian⦄ ⦃crate : UuidCrate U⦄ (ip : SocketAddr) where
  new-IsSupported :
      (self : SacnNetworkReceiver S) → new {U = U} ip ≡ ok self → IsSupported (settings self)
  unfolding new
  new-IsSupported self e on = elim (Outcome-cases (create_win_socket {S = S} {U = U} ip)) [
    | inl (socket, ok_eq) ↦
        let fresh : SacnNetworkReceiver S = record {
          socket = socket;
          addr = ip;
          is_multicast_enabled = is_ipv4 ip;
        } in
        let first : new {U = U} ip ≡ ok fresh = rw (new, ok_eq) in
        let same : fresh ≡ self = cc (first, e) in
        subst (λ s. IsSupported (settings s)) same (λ on. on) on
    | inr (inl (e', err_eq)) ↦
        let first : new {S = S} {U = U} ip ≡ err e' = rw (new, err_eq) in cc (first, e)
    | inr (inr panic_eq) ↦
        let first : new {S = S} {U = U} ip ≡ panic = rw (new, panic_eq) in cc (first, e)
  ]

  -- On Windows, a network receiver whose multicast is enabled is bound to an IPv4 address, after
  -- its creation and after any calls of its methods, whatever they return.
  pub Reach-IsSupported :
      (self : SacnNetworkReceiver S)
      → Reach U ip self
      → self.is_multicast_enabled ≡ true
      → is_ipv4 self.addr ≡ true
  unfolding set_timeout
  Reach-IsSupported self (made _ e) = new-IsSupported self e
  Reach-IsSupported _ (listened self universe r) =
      subst IsSupported (sym (listen-Keeps U universe self)) (Reach-IsSupported self r)
  Reach-IsSupported _ (muted self universe r) =
      subst IsSupported (sym (mute-Keeps U universe self)) (Reach-IsSupported self r)
  Reach-IsSupported _ (enabled self val r) =
      set_is_multicast_enabled-IsSupported U val self (Reach-IsSupported self r)
  Reach-IsSupported _ (restricted self val r) =
      subst IsSupported (sym (set_only_v6-Keeps U val self)) (Reach-IsSupported self r)
  Reach-IsSupported _ (timed self timeout r) = Reach-IsSupported self r
  Reach-IsSupported _ (received self buf r) =
      subst IsSupported (sym (recv-Keeps U buf self)) (Reach-IsSupported self r)
