-- ===== src/Source/Handle/Threads/Safety.antt =====
-- What holds of a source and its update thread (src/source.rs), however they are interleaved.
use sacn_rust.Source.Creation as Settings
use sacn_rust.Source.Creation.{OptionCalls}
use sacn_rust.Common.State.{◌>>=◌, return, Stateful, and_then_keeps}
use sacn_rust.Error.{SacnError, IoErrorKind}
use sacn_rust.External.{UuidCrate, NetworkEndian}
use sacn_rust.Receive.Listening.{IsOrdered}
use sacn_rust.Source.{SendCalls}
use sacn_rust.Source.Sending.{perform_periodic_update}
use sacn_rust.Source.Keeping.{perform_periodic_update-Keeps}
use sacn_rust.Source.Handle as Handle
use sacn_rust.Source.Handle.{SacnSource, after_call, unlock_internal_mut, always}
use sacn_rust.Source.Handle.Threads.{
  System, update, ThreadStep, goes_on, ends, panics, updates, UserStep, calling, optioning, Step,
  by_user, by_thread, Reach, here, next, OptionCall, perform_option, reading_multicast_ttl,
  reading_ttl, reading_multicast_loop, setting_multicast_ttl, setting_ttl, setting_multicast_loop,
}
use sacn_rust.Source.Handle.Threads.Calls.{
  IsSound, IsSound-trans, kept-IsSound, unlock-IsSound, perform-IsSound,
}

module _ {S U : Type 0} ⦃options : OptionCalls S⦄ where
  -- A call on an option, and what is done with what it reads, is sound.
  option-IsSound :
      {A : Type 0} (m : Stateful S IoErrorKind A) (s : SacnSource S U)
      → IsSound s.internal ((unlock_internal_mut (Settings.with_source_socket m) s).1).internal
  option-IsSound m s = unlock-IsSound (Settings.with_source_socket m) s (λ h. h, λ h. h)

  read-IsSound :
      {A : Type 0} (m : Stateful (SacnSource S U) (SacnError U) A) (s : SacnSource S U)
      → IsSound s.internal ((m s).1).internal
      → IsSound s.internal (((m >>= λ _. return tt) s).1).internal
  read-IsSound m s h =
      and_then_keeps (λ (t : SacnSource S U). IsSound s.internal t.internal) (m s) (λ _. return tt)
        h (λ _. h)

  perform_option-IsSound :
      (c : OptionCall) (s : SacnSource S U) → IsSound s.internal ((perform_option c s).1).internal
  unfolding perform_option Handle.multicast_ttl Handle.set_multicast_ttl Handle.ttl Handle.set_ttl
      Handle.multicast_loop Handle.set_multicast_loop_v4 Settings.multicast_ttl
      Settings.set_multicast_ttl Settings.ttl Settings.set_ttl Settings.multicast_loop
      Settings.set_multicast_loop_v4
  perform_option-IsSound reading_multicast_ttl s =
      read-IsSound Handle.multicast_ttl s (option-IsSound options.multicast_ttl_v4 s)
  perform_option-IsSound reading_ttl s = read-IsSound Handle.ttl s (option-IsSound options.ttl_v4 s)
  perform_option-IsSound reading_multicast_loop s =
      read-IsSound Handle.multicast_loop s (option-IsSound options.multicast_loop_v4 s)
  perform_option-IsSound (setting_multicast_ttl value) s =
      option-IsSound (options.set_multicast_ttl_v4 value) s
  perform_option-IsSound (setting_ttl value) s = option-IsSound (options.set_ttl_v4 value) s
  perform_option-IsSound (setting_multicast_loop val) s =
      option-IsSound (options.set_multicast_loop_v4 val) s

module _ {S U : Type 0} ⦃net : NetworkEndian⦄ ⦃crate : UuidCrate U⦄ ⦃calls : SendCalls S⦄
    ⦃options : OptionCalls S⦄ where
  pub UserStep-IsSound :
      {s t : System S U} → UserStep s t → IsSound s.source.internal t.source.internal
  UserStep-IsSound {s} (calling c) = perform-IsSound c s.source
  UserStep-IsSound {s} (optioning c) = perform_option-IsSound c s.source

  pub ThreadStep-IsSound :
      {s t : System S U} → ThreadStep s t → IsSound s.source.internal t.source.internal
  unfolding update
  ThreadStep-IsSound (goes_on _ _ _) = (λ h. h, λ h. h)
  ThreadStep-IsSound (ends _ _ _) = (λ h. h, λ h. h)
  ThreadStep-IsSound (panics _ _) = (λ h. h, λ h. h)
  ThreadStep-IsSound {s} (updates now later _) =
      let m = perform_periodic_update now later in
      unlock-IsSound m s.source (
        kept-IsSound s.source.internal ((m s.source.internal).1)
          (perform_periodic_update-Keeps now later s.source.internal))

  pub Step-IsSound : {s t : System S U} → Step s t → IsSound s.source.internal t.source.internal
  Step-IsSound (by_user st) = UserStep-IsSound st
  Step-IsSound (by_thread st) = ThreadStep-IsSound st

  pub Reach-IsSound : {s t : System S U} → Reach s t → IsSound s.source.internal t.source.internal
  Reach-IsSound here = (λ h. h, λ h. h)
  Reach-IsSound {s} {t} (next {t = v} r st) =
      IsSound-trans s.source.internal v.source.internal t.source.internal (Reach-IsSound r)
        (Step-IsSound st)

  -- However the calls of the user of a `SacnSource`, those on the options of its socket, panics and
  -- the mutex that they poison included, are interleaved with its update thread, the registered
  -- universes stay in increasing order, each once.
  pub Reach-IsOrdered :
      {s t : System S U}
      → Reach s t
      → IsOrdered s.source.internal.universes
      → IsOrdered t.source.internal.universes
  Reach-IsOrdered r = (Reach-IsSound r).0
