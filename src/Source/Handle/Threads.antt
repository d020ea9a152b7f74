-- ===== src/Source/Handle/Threads.antt =====
-- The user of a `SacnSource` (src/source.rs) and its update thread, interleaved in any order: each
-- step holds the mutex. The thread checks `running`, sleeps, sends what is due and checks again;
-- `drop` waits for its end.
pub mod Calls
pub mod Ending
pub mod Safety
use sacn_rust.Common.{ℕ, suc, ◌≡◌, Bool, true, false, Option, none, some, List, ok, err, panic}
use sacn_rust.Common.State.{Stateful, ◌>>=◌, return}
use sacn_rust.Packet.Universe.{SocketAddr}
use sacn_rust.Error.{SacnError, Result}
use sacn_rust.External.{UuidCrate, NetworkEndian}
use sacn_rust.Source.{SendCalls}
use sacn_rust.Source.Sending.{perform_periodic_update}
use sacn_rust.Source.Creation.{OptionCalls}
use sacn_rust.Source.Handle.{
  multicast_ttl, set_multicast_ttl, ttl, set_ttl, multicast_loop, set_multicast_loop_v4, SacnSource,
  unlock_internal_mut, register_universe, register_universes, set_cid, set_name, set_preview_mode,
  set_is_sending_discovery, send, send_sync_packet, terminate_stream, drop_stop, drop_terminate,
}

-- The calls of the user that change the source, apart from those on the options of its socket,
-- and the parts of `drop` that hold the mutex.
pub data Call (U : Type 0) : Type 0 where
  registering : ℕ → Call U
  registering_all : List ℕ → Call U
  naming : List ℕ → Call U
  identifying : U → Call U
  previewing : Bool → Call U
  advertising : Bool → Call U
  sending : List ℕ → List ℕ → Option ℕ → Option SocketAddr → Option ℕ → Call U
  synchronising : ℕ → Option SocketAddr → Call U
  terminating : ℕ → ℕ → Call U
  stopping : Call U
  dropping : Call U

-- The calls on the options of the socket.
pub data OptionCall : Type 0 where
  reading_multicast_ttl reading_ttl reading_multicast_loop : OptionCall
  setting_multicast_ttl setting_ttl : ℕ → OptionCall
  setting_multicast_loop : Bool → OptionCall

-- Where the update thread is: before its test of `running`, asleep, at its end, or panicked.
pub data UpdateThread : Type 0 where
  testing asleep finished crashed : UpdateThread

-- `thread.join().unwrap()`: it returns when the thread has ended, and panics if the thread has.
unfoldable pub join : {U : Type 0} → UpdateThread → Option (Result U (Unit {0}))
join testing = none
join asleep = none
join finished = some (ok tt)
join crashed = some panic

-- An error of the update is printed, a panic ends the thread.
unfoldable pub after_update : {U : Type 0} → Result U (Unit {0}) → UpdateThread
after_update (ok _) = testing
after_update (err e) = testing
after_update panic = crashed

pub record System (S U : Type 0) : Type 0 where
  pub source : SacnSource S U
  pub thread : UpdateThread

module _ {S U : Type 0} ⦃options : OptionCalls S⦄ where
  unfoldable pub perform_option : OptionCall → Stateful (SacnSource S U) (SacnError U) (Unit {0})
  perform_option reading_multicast_ttl = multicast_ttl >>= λ _. return tt
  perform_option reading_ttl = ttl >>= λ _. return tt
  perform_option reading_multicast_loop = multicast_loop >>= λ _. return tt
  perform_option (setting_multicast_ttl value) = set_multicast_ttl value
  perform_option (setting_ttl value) = set_ttl value
  perform_option (setting_multicast_loop val) = set_multicast_loop_v4 val

module _ {S U : Type 0} ⦃net : NetworkEndian⦄ ⦃crate : UuidCrate U⦄ ⦃calls : SendCalls S⦄ where
  unfoldable pub perform : Call U → Stateful (SacnSource S U) (SacnError U) (Unit {0})
  perform (registering universe) = register_universe universe
  perform (registering_all universes) = register_universes universes
  perform (naming name) = set_name name
  perform (identifying cid) = set_cid cid
  perform (previewing mode) = set_preview_mode mode
  perform (advertising val) = set_is_sending_discovery val
  perform (sending universes values priority dst_ip sync_addr) =
      send universes values priority dst_ip sync_addr
  perform (synchronising universe dst_ip) = send_sync_packet universe dst_ip
  perform (terminating universe start_code) = terminate_stream universe start_code
  perform stopping = drop_stop
  perform dropping = drop_terminate

  -- The thread's part of the loop between two tests. An error is printed, and ignored.
  unfoldable pub update : ℕ → ℕ → SacnSource S U → SacnSource S U
  update now later source = (unlock_internal_mut (perform_periodic_update now later) source).1

  -- Where it leaves the thread.
  unfoldable pub woken : ℕ → ℕ → SacnSource S U → UpdateThread
  woken now later source =
      after_update ((unlock_internal_mut (perform_periodic_update now later) source).0)

  -- `trd_src.lock().unwrap().running`, the sleep and the update. A poisoned mutex ends the thread.
  pub data ThreadStep (s : System S U) : System S U → Type 0 where
    goes_on :
        s.thread ≡ testing
        → s.source.poisoned ≡ false
        → s.source.internal.running ≡ true
        → ThreadStep s (record s { thread = asleep })
    ends :
        s.thread ≡ testing
        → s.source.poisoned ≡ false
        → s.source.internal.running ≡ false
        → ThreadStep s (record s { thread = finished })
    panics :
        s.thread ≡ testing → s.source.poisoned ≡ true → ThreadStep s (record s { thread = crashed })
    updates :
        (now later : ℕ)
        → s.thread ≡ asleep
        → ThreadStep s
            (record { source = update now later s.source; thread = woken now later s.source })

module _ {S U : Type 0} ⦃net : NetworkEndian⦄ ⦃crate : UuidCrate U⦄ ⦃calls : SendCalls S⦄
    ⦃options : OptionCalls S⦄ where
  pub data UserStep (s : System S U) : System S U → Type 0 where
    calling : (c : Call U) → UserStep s (record s { source = (perform c s.source).1 })
    optioning : (c : OptionCall) → UserStep s (record s { source = (perform_option c s.source).1 })

  pub data Step (s : System S U) : System S U → Type 0 where
    by_user : {t : System S U} → UserStep s t → Step s t
    by_thread : {t : System S U} → ThreadStep s t → Step s t

  pub data Reach (s : System S U) : System S U → Type 0 where
    here : Reach s s
    next : {t u : System S U} → Reach s t → Step t u → Reach s u

  -- The same, with the number of steps that the thread has made.
  pub data Run (s : System S U) : ℕ → System S U → Type 0 where
    at_once : Run s 0 s
    after_user : {n : ℕ} {t u : System S U} → Run s n t → UserStep t u → Run s n u
    after_thread : {n : ℕ} {t u : System S U} → Run s n t → ThreadStep t u → Run s (suc n) u
