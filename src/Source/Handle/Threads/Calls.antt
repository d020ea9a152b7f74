-- ===== src/Source/Handle/Threads/Calls.antt =====
-- The calls of the user of a source (src/source.rs): each keeps the universes in order and the source
-- stopped.
use sacn_rust.Source.Creation as Settings
use sacn_rust.Source.Creation.{OptionCalls}
use sacn_rust.Common.{
  if◌then◌else◌, ℕ, ◌≡◌, ◌∙◌, refl, sym, ap, subst, Bool, true, false, List, [], ◌∷◌, Outcome, ok,
  err, panic, arith, Bool-cases, inl, inr,
}
use sacn_rust.Common.State.{◌>>=◌, Stateful, and_then_keeps}
use sacn_rust.Error.{text, source_corrupt, SacnError}
use sacn_rust.External.{UuidCrate, NetworkEndian}
use sacn_rust.Packet.Constants.{default_terminate_start_code, e131_terminate_stream_packet_count}
use sacn_rust.Receive.Listening.{IsOrdered}
use sacn_rust.Source.{
  SendCalls, SacnSourceInternal, deregister_universe, register_universe, register_universes,
}
use sacn_rust.Source as Internal
use sacn_rust.Source.Sending as Sending
use sacn_rust.Source.Sending.{
  perform_periodic_update, send_terminations, terminate_stream, terminate_each, terminate,
}
use sacn_rust.Source.Keeping.{
  registered, send-Keeps, send_sync_packet-Keeps, send_terminations-Keeps,
}
use sacn_rust.Source.Universes.{register_universe-IsOrdered, deregister_universe-IsOrdered}
use sacn_rust.Source.Handle as Handle
use sacn_rust.Source.Handle.{SacnSource, after_call, unlock_internal_mut, always}
use sacn_rust.Source.Handle.Threads.{
  Call, registering, registering_all, naming, identifying, previewing, advertising, sending,
  synchronising, terminating, stopping, dropping, perform,
}

-- A call keeps the order of the universes, and does not start a source that has been stopped.
abbrev pub IsSound : {S U : Type 0} → SacnSourceInternal S U → SacnSourceInternal S U → Type 0
IsSound before after =
    (IsOrdered before.universes → IsOrdered after.universes)
    × (before.running ≡ false → after.running ≡ false)

module _ {S U : Type 0} where
  pub kept-IsSound : (i j : SacnSourceInternal S U) → registered j ≡ registered i → IsSound i j
  kept-IsSound i j e = (
    λ h. subst IsOrdered (sym (ap (λ (r : List ℕ × Bool). r.0) e)) h,
    λ h. ap (λ (r : List ℕ × Bool). r.1) e ∙ h,
  )

  pub IsSound-trans : (i j k : SacnSourceInternal S U) → IsSound i j → IsSound j k → IsSound i k
  IsSound-trans i j k (f, g) (f', g') = (λ h. f' (f h), λ h. g' (g h))

  bind-IsSound :
      {A B : Type 0} (m : Stateful (SacnSourceInternal S U) (SacnError U) A)
      (f : A → Stateful (SacnSourceInternal S U) (SacnError U) B) (i : SacnSourceInternal S U)
      → IsSound i ((m i).1)
      → ((a : A) → IsSound ((m i).1) ((f a ((m i).1)).1))
      → IsSound i (((m >>= f) i).1)
  bind-IsSound m f i h k =
      and_then_keeps (IsSound i) (m i) f h
        (λ a. IsSound-trans i ((m i).1) ((f a ((m i).1)).1) h (k a))

  register_universe-IsSound :
      (u : ℕ) (i : SacnSourceInternal S U) → IsSound i ((register_universe u i).1)
  unfolding register_universe
  register_universe-IsSound u i = (register_universe-IsOrdered u i, λ h. ground arith)

  register_universes-IsSound :
      (us : List ℕ) (i : SacnSourceInternal S U) → IsSound i ((register_universes us i).1)
  unfolding register_universes
  register_universes-IsSound [] i = (λ h. h, λ h. h)
  register_universes-IsSound (u ∷ us) i =
      bind-IsSound (register_universe u) (λ _. register_universes us) i
        (register_universe-IsSound u i)
        (λ _. register_universes-IsSound us ((register_universe u i).1))

  deregister_universe-IsSound :
      (u : ℕ) (i : SacnSourceInternal S U) → IsSound i ((deregister_universe u i).1)
  unfolding deregister_universe
  deregister_universe-IsSound u i = (deregister_universe-IsOrdered u i, λ h. ground arith)

  set_name-IsSound :
      (name : List ℕ) (i : SacnSourceInternal S U) → IsSound i ((Internal.set_name name i).1)
  unfolding Internal.set_name
  set_name-IsSound name i = kept-IsSound i ((Internal.set_name name i).1) (ground arith)

  after_call-internal :
      {A : Type 0} (r : Outcome (SacnError U) A × SacnSourceInternal S U) (s : SacnSource S U)
      → ((after_call r s).1).internal ≡ r.1
  after_call-internal (ok a, i) s = refl
  after_call-internal (err e, i) s = refl
  after_call-internal (panic, i) s = refl

  pub unlock-IsSound :
      {A : Type 0} (m : Stateful (SacnSourceInternal S U) (SacnError U) A) (s : SacnSource S U)
      → IsSound s.internal ((m s.internal).1)
      → IsSound s.internal ((unlock_internal_mut m s).1).internal
  unlock-IsSound {A} m s h =
      elim (s.poisoned)
        as (λ b.
          IsSound s.internal
            ((if◌then◌else◌ {A = Outcome (SacnError U) A × SacnSource S U} b
                (err (source_corrupt (text "Mutex poisoned")), s) (after_call (m s.internal) s)).1
              ).internal) [
                | true ↦ (λ h. h, λ h. h)
                | false ↦ subst (IsSound s.internal) (sym (after_call-internal (m s.internal) s)) h
              ]

module _ {S U : Type 0} ⦃net : NetworkEndian⦄ ⦃crate : UuidCrate U⦄ ⦃calls : SendCalls S⦄ where
  terminate_stream-IsSound :
      (universe start_code : ℕ) (i : SacnSourceInternal S U)
      → IsSound i ((terminate_stream universe start_code i).1)
  unfolding terminate_stream
  terminate_stream-IsSound universe start_code i =
      let sent = send_terminations e131_terminate_stream_packet_count universe start_code in
      bind-IsSound sent (λ _. deregister_universe universe) i
        (kept-IsSound i ((sent i).1)
          (send_terminations-Keeps e131_terminate_stream_packet_count universe start_code i))
        (λ _. deregister_universe-IsSound universe ((sent i).1))

  terminate_each-IsSound :
      (us : List ℕ) (start_code : ℕ) (i : SacnSourceInternal S U)
      → IsSound i ((terminate_each us start_code i).1)
  unfolding terminate_each
  terminate_each-IsSound [] start_code i = (λ h. h, λ h. h)
  terminate_each-IsSound (u ∷ us) start_code i =
      bind-IsSound (terminate_stream u start_code) (λ _. terminate_each us start_code) i
        (terminate_stream-IsSound u start_code i)
        (λ _. terminate_each-IsSound us start_code ((terminate_stream u start_code i).1))

  terminate-IsSound :
      (start_code : ℕ) (i : SacnSourceInternal S U) → IsSound i ((terminate start_code i).1)
  unfolding terminate
  terminate-IsSound start_code i =
      IsSound-trans i (record i { running = false }) ((terminate start_code i).1)
        (λ h. h, λ h. refl)
        (terminate_each-IsSound i.universes start_code (record i { running = false }))

  pub perform-IsSound :
      (c : Call U) (s : SacnSource S U) → IsSound s.internal ((perform c s).1).internal
  unfolding perform Handle.register_universe Handle.register_universes Handle.set_name
      Handle.set_cid Handle.set_preview_mode Handle.set_is_sending_discovery Handle.send
      Handle.send_sync_packet Handle.terminate_stream Handle.drop_stop Handle.drop_terminate
      Settings.set_cid Settings.set_preview_mode Settings.set_is_sending_discovery
  perform-IsSound (registering u) s =
      unlock-IsSound (register_universe u) s (register_universe-IsSound u s.internal)
  perform-IsSound (registering_all us) s =
      unlock-IsSound (register_universes us) s (register_universes-IsSound us s.internal)
  perform-IsSound (naming name) s =
      unlock-IsSound (Internal.set_name name) s (set_name-IsSound name s.internal)
  perform-IsSound (identifying cid) s =
      unlock-IsSound (always (Settings.set_cid cid)) s (λ h. h, λ h. h)
  perform-IsSound (previewing mode) s =
      unlock-IsSound (always (Settings.set_preview_mode mode)) s (λ h. h, λ h. h)
  perform-IsSound (advertising val) s =
      kept-IsSound s.internal ((perform (advertising val) s).1).internal (ground arith)
  perform-IsSound (sending us values priority dst_ip sync_addr) s =
      let m = Sending.send us values priority dst_ip sync_addr in
      unlock-IsSound m s (
        kept-IsSound s.internal ((m s.internal).1)
          (send-Keeps us values priority dst_ip sync_addr s.internal))
  perform-IsSound (synchronising u dst_ip) s =
      let m = Sending.send_sync_packet u dst_ip in
      unlock-IsSound m s
        (kept-IsSound s.internal ((m s.internal).1) (send_sync_packet-Keeps u dst_ip s.internal))
  perform-IsSound (terminating u start_code) s =
      unlock-IsSound (terminate_stream u start_code) s
        (terminate_stream-IsSound u start_code s.internal)
  perform-IsSound stopping s =
      unlock-IsSound (always (λ (i : SacnSourceInternal S U). record i { running = false })) s
        (λ h. h, λ h. refl)
  perform-IsSound dropping s = elim (Bool-cases s.has_thread) [
    | inl e ↦ rw e (
        unlock-IsSound (terminate default_terminate_start_code) (record s { has_thread = false })
          (terminate-IsSound default_terminate_start_code s.internal))
    | inr e ↦ rw e (λ h. h, λ h. h)
  ]
