-- ===== src/Source/Handle/Threads/Ending.antt =====
-- The update thread of a source (src/source.rs) ends after the source has been stopped, so that the
-- `join` of `drop` returns.
use sacn_rust.Common.{
  suc, ℕ, ◌+◌, ◌≤◌, ◌≡◌, ◌⊎◌, refl, sym, subst, inl, inr, some, false, Bool-cases, arith, ok, err,
  panic,
}
use sacn_rust.Error.{Result}
use sacn_rust.External.{UuidCrate, NetworkEndian}
use sacn_rust.Source.{SendCalls}
use sacn_rust.Source.Creation.{OptionCalls}
use sacn_rust.Source.Sending.{perform_periodic_update}
use sacn_rust.Source.Handle.{SacnSource, drop_stop, unlock_internal_mut}
use sacn_rust.Source.Handle.Threads.{
  UpdateThread, testing, asleep, finished, crashed, join, after_update, woken, update, System,
  ThreadStep, goes_on, ends, panics, updates, UserStep, calling, optioning, Run, at_once,
  after_user, after_thread,
}
use sacn_rust.Source.Handle.Threads.Safety.{ThreadStep-IsSound, UserStep-IsSound}

-- The steps that a thread has left when it is to stop.
unfoldable left : UpdateThread → ℕ
left testing = 1
left asleep = 2
left finished = 0
left crashed = 0

left-le : (p : UpdateThread) → left p ≤ 2
unfolding left
left-le testing = omega arith
left-le asleep = omega arith
left-le finished = omega arith
left-le crashed = omega arith

left-after_update : {U : Type 0} (r : Result U (Unit {0})) → left (after_update r) ≤ 1
unfolding left after_update
left-after_update (ok _) = omega arith
left-after_update (err e) = omega arith
left-after_update panic = omega arith

UpdateThread-cases :
    (p : UpdateThread) → (p ≡ testing) ⊎ (p ≡ asleep) ⊎ (p ≡ finished) ⊎ (p ≡ crashed)
UpdateThread-cases testing = inl refl
UpdateThread-cases asleep = inr (inl refl)
UpdateThread-cases finished = inr (inr (inl refl))
UpdateThread-cases crashed = inr (inr (inr refl))

module _ {S U : Type 0} ⦃net : NetworkEndian⦄ ⦃crate : UuidCrate U⦄ ⦃calls : SendCalls S⦄ where
  left-woken : (now later : ℕ) (s : SacnSource S U) → left (woken now later s) ≤ 1
  unfolding woken
  left-woken now later s =
      left-after_update ((unlock_internal_mut (perform_periodic_update now later) s).0)

  -- Every step of a thread that is to stop uses one up.
  ThreadStep-left :
      {s t : System S U}
      → ThreadStep s t
      → s.source.internal.running ≡ false
      → suc (left t.thread) ≤ left s.thread
  unfolding left
  ThreadStep-left (goes_on e p r) h = cc
  ThreadStep-left (ends e p r) h = rw e (omega arith)
  ThreadStep-left (panics e p) h = rw e (omega arith)
  ThreadStep-left {s} (updates now later e) h =
      let l = left-woken now later s.source in rw e (omega arith)

  -- A thread that cannot be joined yet can make a step.
  abbrev pub CanStep : System S U → Type 0
  CanStep s = (t : System S U) × ThreadStep s t

  abbrev pub IsJoined : System S U → Type 0
  IsJoined s = (r : Result U (Unit {0})) × (join s.thread ≡ some r)

  steps-or-joins : (s : System S U) → CanStep s ⊎ IsJoined s
  unfolding join
  steps-or-joins s = elim (UpdateThread-cases s.thread) [
    | inl e ↦ elim (Bool-cases s.source.poisoned) [
      | inl p ↦ inl (record s { thread = crashed }, panics e p)
      | inr p ↦ elim (Bool-cases s.source.internal.running) [
        | inl r ↦ inl (record s { thread = asleep }, goes_on e p r)
        | inr r ↦ inl (record s { thread = finished }, ends e p r)
      ]
    ]
    | inr (inl e) ↦
        inl (record { source = update 0 0 s.source; thread = woken 0 0 s.source }, updates 0 0 e)
    | inr (inr (inl e)) ↦ inr (ok tt, rw e refl)
    | inr (inr (inr e)) ↦ inr (panic, rw e refl)
  ]

module _ {S U : Type 0} ⦃net : NetworkEndian⦄ ⦃crate : UuidCrate U⦄ ⦃calls : SendCalls S⦄
    ⦃options : OptionCalls S⦄ where
  UserStep-thread : {s t : System S U} → UserStep s t → t.thread ≡ s.thread
  UserStep-thread (calling c) = refl
  UserStep-thread (optioning c) = refl

  Run-left :
      {s t : System S U} {n : ℕ}
      → Run s n t
      → s.source.internal.running ≡ false
      → (t.source.internal.running ≡ false) × (n + left t.thread ≤ left s.thread)
  Run-left at_once h = (h, omega arith)
  Run-left {s} {n = n} (after_user r st) h =
      let (stopped, fits) = Run-left r h in
      (
        (UserStep-IsSound st).1 stopped,
        subst (λ p. n + left p ≤ left s.thread) (sym (UserStep-thread st)) fits,
      )
  Run-left (after_thread r st) h =
      let (stopped, fits) = Run-left r h in
      let used = ThreadStep-left st stopped in ((ThreadStep-IsSound st).1 stopped, omega arith)

  abbrev pub stop : System S U → System S U
  stop s = record s { source = (drop_stop s.source).1 }

  stop-running :
      (s : System S U) → s.source.poisoned ≡ false → (stop s).source.internal.running ≡ false
  unfolding drop_stop
  stop-running s e = rw e refl

  -- After the first lock of `drop` on a source whose mutex is not poisoned, however the steps of
  -- the update thread are interleaved with calls of the source: the source stays stopped, the
  -- thread makes at most two steps, and at each time it can make one more or `join` returns.
  pub stopped-ends :
      (s : System S U) {t : System S U} {n : ℕ}
      → s.source.poisoned ≡ false
      → Run (stop s) n t
      → (t.source.internal.running ≡ false) × (n ≤ 2) × (CanStep t ⊎ IsJoined t)
  stopped-ends s {t} e r =
      let (stopped, fits) = Run-left r (stop-running s e) in
      let small = left-le s.thread in (stopped, omega arith, steps-or-joins t)
