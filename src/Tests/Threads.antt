-- ===== src/Tests/Threads.antt =====
-- A source and its update thread, stopped while the thread is asleep.
use sacn_rust.Common.{◌≤◌, ◌⊎◌, ok, ◌≡◌, refl, true, false, none, [], ◌∷◌}
use sacn_rust.Receive.Listening.{IsOrdered, IsAbove}
use sacn_rust.Source.Creation.{OptionCalls}
use sacn_rust.Source.Handle.{SacnSource, drop_stop}
use sacn_rust.Source.Handle.Threads.{
  System, asleep, testing, Reach, here, next, by_user, calling, optioning, registering, sending,
  perform, perform_option, setting_ttl, update, woken, updates, Run, at_once, after_user,
  after_thread,
}
use sacn_rust.Source.Handle.Threads.Safety.{Reach-IsOrdered}
use sacn_rust.Source.Handle.Threads.Ending.{CanStep, IsJoined, stopped-ends}
use sacn_rust.Session.{Link, link}
use sacn_rust.Tests.Instances.{big_endian, uuid_crate, Uuid}
use sacn_rust.Tests.Links.{sender}

abbrev pub handle : SacnSource Link Uuid
handle = record { internal = sender; poisoned = false; has_thread = true }

-- A socket whose options all read as 1 and take any value.
instance abbrev link_options : OptionCalls Link
link_options = record {
  set_multicast_ttl_v4 = λ value s. (ok tt, s);
  multicast_ttl_v4 = λ s. (ok 1, s);
  set_ttl_v4 = λ value s. (ok tt, s);
  ttl_v4 = λ s. (ok 1, s);
  set_multicast_loop_v4 = λ val s. (ok tt, s);
  multicast_loop_v4 = λ s. (ok true, s);
}

abbrev started : System Link Uuid
started = record { source = handle; thread = testing }

-- Universe 5 is registered, the thread falls asleep, the user sends, and the thread wakes up.
abbrev registered_five : System Link Uuid
registered_five = record started { source = (perform (registering 5) handle).1 }

registered_five-Reach : Reach started registered_five
registered_five-Reach = next here (by_user (calling (registering 5)))

pub sender-IsOrdered : IsOrdered sender.universes
unfolding IsOrdered IsAbove
sender-IsOrdered = (tt, tt)

Reach-IsOrdered_example : IsOrdered registered_five.source.internal.universes
Reach-IsOrdered_example = Reach-IsOrdered registered_five-Reach sender-IsOrdered

-- The user stops the source while the thread is asleep, and still sends and sets the TTL.
abbrev sleeping : System Link Uuid
sleeping = record { source = handle; thread = asleep }

abbrev stopped : System Link Uuid
stopped = record sleeping { source = (drop_stop handle).1 }

abbrev still_sending : System Link Uuid
still_sending = record stopped {
  source = (perform (sending (1 ∷ []) (0 ∷ 9 ∷ []) none none none) stopped.source).1;
}

abbrev limited : System Link Uuid
limited = record still_sending { source = (perform_option (setting_ttl 4) still_sending.source).1 }

abbrev woken_up : System Link Uuid
woken_up = record { source = update 0 0 limited.source; thread = woken 0 0 limited.source }

woken_up-Run : Run stopped 1 woken_up
woken_up-Run =
    after_thread
      (after_user (after_user at_once (calling (sending (1 ∷ []) (0 ∷ 9 ∷ []) none none none)))
        (optioning (setting_ttl 4)))
      (updates 0 0 refl)

stopped-ends_example :
    (woken_up.source.internal.running ≡ false) × (1 ≤ 2) × (CanStep woken_up ⊎ IsJoined woken_up)
stopped-ends_example = stopped-ends sleeping refl woken_up-Run
