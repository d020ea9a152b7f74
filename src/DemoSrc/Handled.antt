-- ===== src/DemoSrc/Handled.antt =====
-- Every line of input of the demo source (examples/demo_src/src/main.rs) comes to an end: it returns or
-- panics.
use sacn_rust.Source.Handle.Threads.Calls.{perform-IsSound}
use sacn_rust.Source.Handle.Threads.{perform, synchronising, registering, previewing, terminating}
use sacn_rust.Source.Handle.{
  send_sync_packet, register_universe, set_preview_mode, terminate_stream,
}
use sacn_rust.Packet.Universe.{SocketAddr}
use sacn_rust.DemoSrc.Dispatch.{
  preview_of, sync_option, unicast_sync_option, register_option, preview_option, terminate_option,
  sleep_option,
}
use sacn_rust.Common.{ok, Bool, true, Option, some, none, ℕ, List}
use sacn_rust.Error.{Message}
use sacn_rust.External.{UuidCrate, NetworkEndian}
use sacn_rust.Source.{SendCalls}
use sacn_rust.DemoSrc.Input.{Ipv6Text, Word}
use sacn_rust.DemoSrc.Program.{on_source, pure, ClockCalls}
use sacn_rust.DemoSrc.Commands.{
  need, handle_full_data_option, handle_all_data_option, handle_data_option, handle_unicast_option,
}
use sacn_rust.DemoSrc.Ending.{
  on_source-AlwaysReturns, sleep-AlwaysReturns, Advances, AlwaysReturns, bind-AlwaysReturns,
  pure-AlwaysReturns, if-AlwaysReturns,
}
use sacn_rust.DemoSrc.Total.{send-AlwaysReturns}

module _ {W : Type 0} (S U : Type 0) ⦃net : NetworkEndian⦄ ⦃crate : UuidCrate U⦄
    ⦃calls : SendCalls S⦄ ⦃clock : ClockCalls W⦄ (advances : Advances W) where
  pub need-AlwaysReturns :
      (n : ℕ) (message : Message) (words : List Word)
      → AlwaysReturns S U advances (need n message words)
  need-AlwaysReturns n message words =
      search (if-AlwaysReturns S U advances, pure-AlwaysReturns S U advances)

  pub handle_full_data_option-AlwaysReturns :
      (words : List Word) → AlwaysReturns S U advances (handle_full_data_option words)
  unfolding handle_full_data_option
  handle_full_data_option-AlwaysReturns words =
      search
        (
          bind-AlwaysReturns S U advances,
          pure-AlwaysReturns S U advances,
          need-AlwaysReturns,
          send-AlwaysReturns S U advances,
        )
        depth 16

  pub handle_all_data_option-AlwaysReturns :
      (words : List Word) → AlwaysReturns S U advances (handle_all_data_option words)
  unfolding handle_all_data_option
  handle_all_data_option-AlwaysReturns words =
      search
        (
          bind-AlwaysReturns S U advances,
          pure-AlwaysReturns S U advances,
          need-AlwaysReturns,
          send-AlwaysReturns S U advances,
        )
        depth 16

  pub handle_data_option-AlwaysReturns :
      (words : List Word) → AlwaysReturns S U advances (handle_data_option words)
  unfolding handle_data_option
  handle_data_option-AlwaysReturns words =
      search
        (
          bind-AlwaysReturns S U advances,
          pure-AlwaysReturns S U advances,
          need-AlwaysReturns,
          send-AlwaysReturns S U advances,
        )
        depth 16

  pub handle_unicast_option-AlwaysReturns :
      (words : List Word) → AlwaysReturns S U advances (handle_unicast_option words)
  unfolding handle_unicast_option
  handle_unicast_option-AlwaysReturns words =
      search
        (
          bind-AlwaysReturns S U advances,
          pure-AlwaysReturns S U advances,
          need-AlwaysReturns,
          send-AlwaysReturns S U advances,
        )
        depth 16

  -- Calls of the source that are not `send`.
  pub sync-AlwaysReturns :
      (universe : ℕ) (dst_ip : Option SocketAddr)
      → AlwaysReturns S U advances (on_source (send_sync_packet universe dst_ip))
  unfolding perform
  sync-AlwaysReturns universe dst_ip =
      on_source-AlwaysReturns S U advances (send_sync_packet universe dst_ip)
        (perform-IsSound (synchronising universe dst_ip))

  pub register-AlwaysReturns :
      (universe : ℕ) → AlwaysReturns S U advances (on_source (register_universe universe))
  unfolding perform
  register-AlwaysReturns universe =
      on_source-AlwaysReturns S U advances (register_universe universe)
        (perform-IsSound (registering universe))

  pub preview-AlwaysReturns :
      (mode : Bool) → AlwaysReturns S U advances (on_source (set_preview_mode mode))
  unfolding perform
  preview-AlwaysReturns mode =
      on_source-AlwaysReturns S U advances (set_preview_mode mode)
        (perform-IsSound (previewing mode))

  pub terminate-AlwaysReturns :
      (universe start_code : ℕ)
      → AlwaysReturns S U advances (on_source (terminate_stream universe start_code))
  unfolding perform
  terminate-AlwaysReturns universe start_code =
      on_source-AlwaysReturns S U advances (terminate_stream universe start_code)
        (perform-IsSound (terminating universe start_code))

  pub set_preview-AlwaysReturns : (v : Option Bool) → AlwaysReturns S U advances (preview_of v)
  set_preview-AlwaysReturns (some v) =
      bind-AlwaysReturns S U advances (on_source (set_preview_mode v)) (λ _. pure (ok true))
        (preview-AlwaysReturns v) (λ _. pure-AlwaysReturns S U advances (ok true))
  set_preview-AlwaysReturns none = pure-AlwaysReturns S U advances _

  pub preview_option-AlwaysReturns :
      (words : List Word) → AlwaysReturns S U advances (preview_option words)
  preview_option-AlwaysReturns words =
      search (
        bind-AlwaysReturns S U advances,
        pure-AlwaysReturns S U advances,
        set_preview-AlwaysReturns,
      )

  pub sync_option-AlwaysReturns :
      (words : List Word) → AlwaysReturns S U advances (sync_option words)
  sync_option-AlwaysReturns words =
      search (bind-AlwaysReturns S U advances, pure-AlwaysReturns S U advances, sync-AlwaysReturns)

  pub register_option-AlwaysReturns :
      (words : List Word) → AlwaysReturns S U advances (register_option words)
  register_option-AlwaysReturns words =
      search
        (bind-AlwaysReturns S U advances, pure-AlwaysReturns S U advances, register-AlwaysReturns)

  pub terminate_option-AlwaysReturns :
      (words : List Word) → AlwaysReturns S U advances (terminate_option words)
  terminate_option-AlwaysReturns words =
      search
        (
          bind-AlwaysReturns S U advances,
          pure-AlwaysReturns S U advances,
          if-AlwaysReturns S U advances,
          terminate-AlwaysReturns,
        )
        depth 10

  pub sleep_option-AlwaysReturns :
      (words : List Word) → AlwaysReturns S U advances (sleep_option words)
  sleep_option-AlwaysReturns words =
      search
        (
          bind-AlwaysReturns S U advances,
          pure-AlwaysReturns S U advances,
          need-AlwaysReturns,
          sleep-AlwaysReturns S U advances,
        )
        depth 10

  pub unicast_sync_option-AlwaysReturns :
      ⦃text_v6 : Ipv6Text⦄ (words : List Word)
      → AlwaysReturns S U advances (unicast_sync_option words)
  unicast_sync_option-AlwaysReturns words =
      search
        (
          bind-AlwaysReturns S U advances,
          pure-AlwaysReturns S U advances,
          need-AlwaysReturns,
          sync-AlwaysReturns,
        )
        depth 10
