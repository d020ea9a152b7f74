-- ===== src/Source/Handle.antt =====
-- `SacnSource` of src/source.rs: the source behind a mutex that its user shares with the thread that
-- sends universe discovery packets. A call that panics while it holds the mutex poisons it.
pub mod Threads
use sacn_rust.Common.{
  [], ◌∷◌, ℕ, Bool, true, false, Option, none, some, List, Outcome, ok, err, panic, if◌then◌else◌,
  ltb, length,
}
use sacn_rust.Common.State.{Stateful, ◌>>=◌, ◌>>◌, return}
use sacn_rust.Packet.Constants.{
  e131_source_name_field_length, acn_sdt_multicast_port, default_terminate_start_code,
}
use sacn_rust.Packet.Universe.{SocketAddr, v4, v6}
use sacn_rust.Error.{
  SacnError, IoErrorKind, Result, io, text, malformed_source_name, source_corrupt,
}
use sacn_rust.External.{UuidCrate, NetworkEndian}
use sacn_rust.Receive.Creation.{CreateCalls}
use sacn_rust.Source as Internal
use sacn_rust.Source.Sending as Sending
use sacn_rust.Source.Creation as Settings
use sacn_rust.Source.Creation.{OptionCalls, new_internal}
use sacn_rust.Source.{SendCalls, SacnSourceInternal}

pub record SacnSource (S U : Type 0) : Type 0 where
  pub internal : SacnSourceInternal S U
  pub poisoned : Bool
  pub has_thread : Bool

module _ {S U : Type 0} where
  -- The state of the mutex after a call that has held it.
  abbrev pub after_call :
      {A : Type 0}
      → Outcome (SacnError U) A × SacnSourceInternal S U
      → SacnSource S U
      → Outcome (SacnError U) A × SacnSource S U
  after_call (ok a, i) self = (ok a, record self { internal = i })
  after_call (err e, i) self = (err e, record self { internal = i })
  after_call (panic, i) self = (panic, record self { internal = i; poisoned = true })

  -- `unlock_internal_mut(&mut self.internal)?`, then a call.
  abbrev pub unlock_internal_mut :
      {A : Type 0}
      → Stateful (SacnSourceInternal S U) (SacnError U) A
      → Stateful (SacnSource S U) (SacnError U) A
  unlock_internal_mut m self =
      if self.poisoned
      then (err (source_corrupt (text "Mutex poisoned")), self)
      else after_call (m self.internal) self

  -- `unlock_internal(&self.internal)?`, then a call that reads.
  abbrev pub unlock_internal :
      {A : Type 0} → (SacnSourceInternal S U → A) → SacnSource S U → Result U A
  unlock_internal read self =
      if self.poisoned
      then err (source_corrupt (text "Mutex poisoned"))
      else ok (read self.internal)

  -- A setter that cannot fail.
  abbrev pub always :
      (SacnSourceInternal S U → SacnSourceInternal S U)
      → Stateful (SacnSourceInternal S U) (SacnError U) (Unit {0})
  always f i = (ok tt, f i)

  unfoldable pub register_universes : List ℕ → Stateful (SacnSource S U) (SacnError U) (Unit {0})
  register_universes universes = unlock_internal_mut (Internal.register_universes universes)

  unfoldable pub register_universe : ℕ → Stateful (SacnSource S U) (SacnError U) (Unit {0})
  register_universe universe = unlock_internal_mut (Internal.register_universe universe)

  unfoldable pub cid : SacnSource S U → Result U U
  cid = unlock_internal (λ i. i.cid)

  unfoldable pub set_cid : U → Stateful (SacnSource S U) (SacnError U) (Unit {0})
  set_cid cid = unlock_internal_mut (always (Settings.set_cid cid))

  unfoldable pub name : SacnSource S U → Result U (List ℕ)
  name = unlock_internal (λ i. i.name)

  unfoldable pub set_name : List ℕ → Stateful (SacnSource S U) (SacnError U) (Unit {0})
  set_name name = unlock_internal_mut (Internal.set_name name)

  unfoldable pub preview_mode : SacnSource S U → Result U Bool
  preview_mode = unlock_internal (λ i. i.preview_data)

  unfoldable pub set_preview_mode : Bool → Stateful (SacnSource S U) (SacnError U) (Unit {0})
  set_preview_mode preview_mode =
      unlock_internal_mut (always (Settings.set_preview_mode preview_mode))

  unfoldable pub universes : SacnSource S U → Result U (List ℕ)
  universes = unlock_internal (λ i. i.universes)

  -- This one panics on a poisoned mutex: it has `unwrap` and no result.
  unfoldable pub set_is_sending_discovery :
      Bool → Stateful (SacnSource S U) (SacnError U) (Unit {0})
  set_is_sending_discovery val self =
      if self.poisoned
      then (panic, self)
      else (ok tt, record self { internal = Settings.set_is_sending_discovery val self.internal })

module _ {S U : Type 0} ⦃options : OptionCalls S⦄ where
  unfoldable pub multicast_ttl : Stateful (SacnSource S U) (SacnError U) ℕ
  multicast_ttl = unlock_internal_mut Settings.multicast_ttl

  unfoldable pub set_multicast_ttl : ℕ → Stateful (SacnSource S U) (SacnError U) (Unit {0})
  set_multicast_ttl multicast_ttl = unlock_internal_mut (Settings.set_multicast_ttl multicast_ttl)

  unfoldable pub ttl : Stateful (SacnSource S U) (SacnError U) ℕ
  ttl = unlock_internal_mut Settings.ttl

  unfoldable pub set_ttl : ℕ → Stateful (SacnSource S U) (SacnError U) (Unit {0})
  set_ttl ttl = unlock_internal_mut (Settings.set_ttl ttl)

  unfoldable pub multicast_loop : Stateful (SacnSource S U) (SacnError U) Bool
  multicast_loop = unlock_internal_mut Settings.multicast_loop

  unfoldable pub set_multicast_loop_v4 : Bool → Stateful (SacnSource S U) (SacnError U) (Unit {0})
  set_multicast_loop_v4 multicast_loop =
      unlock_internal_mut (Settings.set_multicast_loop_v4 multicast_loop)

module _ {S U : Type 0} ⦃net : NetworkEndian⦄ ⦃crate : UuidCrate U⦄ ⦃calls : SendCalls S⦄ where
  unfoldable pub send :
      List ℕ
      → List ℕ
      → Option ℕ
      → Option SocketAddr
      → Option ℕ
      → Stateful (SacnSource S U) (SacnError U) (Unit {0})
  send universes values priority dst_ip synchronisation_addr =
      unlock_internal_mut (Sending.send universes values priority dst_ip synchronisation_addr)

  unfoldable pub send_sync_packet :
      ℕ → Option SocketAddr → Stateful (SacnSource S U) (SacnError U) (Unit {0})
  send_sync_packet universe dst_ip = unlock_internal_mut (Sending.send_sync_packet universe dst_ip)

  unfoldable pub terminate_stream : ℕ → ℕ → Stateful (SacnSource S U) (SacnError U) (Unit {0})
  terminate_stream universe start_code =
      unlock_internal_mut (Sending.terminate_stream universe start_code)

  -- `drop` up to the end of its first lock.
  unfoldable pub drop_stop : Stateful (SacnSource S U) (SacnError U) (Unit {0})
  drop_stop = unlock_internal_mut (always (λ i. record i { running = false }))

  -- Its second part, if there is a thread to join, up to the end of its second lock. An error of
  -- `terminate` is ignored.
  unfoldable pub drop_terminate : Stateful (SacnSource S U) (SacnError U) (Unit {0})
  drop_terminate self =
      if self.has_thread
      then unlock_internal_mut (Sending.terminate default_terminate_start_code)
          (record self { has_thread = false })
      else (ok tt, self)

-- Creation. The identifiers that `Uuid::new_v4` gives, the time and whether the thread could be
-- spawned are arguments.
module _ {S U : Type 0} ⦃creates : CreateCalls S⦄ where
  unfoldable pub with_cid_ip :
      ℕ → Outcome IoErrorKind (Unit {0}) → List ℕ → U → SocketAddr → Result U (SacnSource S U)
  with_cid_ip now spawned name cid ip =
      if ltb e131_source_name_field_length (length name)
      then err (malformed_source_name (text "Source name provided is longer than maximum allowed"))
      else (elim (new_internal now name cid ip) [
        | err e ↦ err e
        | panic ↦ panic
        | ok internal ↦ elim spawned [
          | ok _ ↦ ok (record { internal = internal; poisoned = false; has_thread = true })
          | err e ↦ err (io e)
          | panic ↦ panic
        ]
      ])

  unfoldable pub with_cid_v4 :
      ℕ → Outcome IoErrorKind (Unit {0}) → List ℕ → U → Result U (SacnSource S U)
  unfolding with_cid_ip
  with_cid_v4 now spawned name cid =
      with_cid_ip now spawned name cid (v4 (0 ∷ 0 ∷ 0 ∷ 0 ∷ []) acn_sdt_multicast_port)

  unfoldable pub with_cid_v6 :
      ℕ → Outcome IoErrorKind (Unit {0}) → List ℕ → U → Result U (SacnSource S U)
  unfolding with_cid_ip
  with_cid_v6 now spawned name cid =
      with_cid_ip now spawned name cid
        (v6 (0 ∷ 0 ∷ 0 ∷ 0 ∷ 0 ∷ 0 ∷ 0 ∷ 0 ∷ []) acn_sdt_multicast_port)

  -- With a fresh UUID.
  unfoldable pub new_v4 :
      ℕ → Outcome IoErrorKind (Unit {0}) → List ℕ → U → Result U (SacnSource S U)
  unfolding with_cid_v4
  new_v4 now spawned name fresh = with_cid_v4 now spawned name fresh

  unfoldable pub new_v6 :
      ℕ → Outcome IoErrorKind (Unit {0}) → List ℕ → U → Result U (SacnSource S U)
  unfolding with_cid_v6
  new_v6 now spawned name fresh = with_cid_v6 now spawned name fresh

  unfoldable pub with_ip :
      ℕ → Outcome IoErrorKind (Unit {0}) → List ℕ → U → SocketAddr → Result U (SacnSource S U)
  unfolding with_cid_ip
  with_ip now spawned name fresh ip = with_cid_ip now spawned name fresh ip
