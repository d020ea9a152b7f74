-- ===== src/Receive/Recv/Termination.antt =====
-- The loop of `recv` (src/receive.rs) ends when its timeout has passed.
use native.Mathlib.Nat.{mul-le-mul_left}
use sacn_rust.Common.{
  ℕ, zero, suc, ◌+◌, ◌*◌, ◌≤◌, ◌<◌, ◌≡◌, ◌∙◌, ◌⊎◌, inl, inr, refl, sym, ap, Bool, true, false,
  Option, none, some, List, Outcome, ok, err, panic, arith, leb,
}
use sacn_rust.Common.State.{fail, ◌>>◌, and_then-eq-ok, refuse_if}
use sacn_rust.Error.{SacnError, io, would_block}
use sacn_rust.External.{UuidCrate, NetworkEndian}
use sacn_rust.Receive.Merge.{DmxData}
use sacn_rust.Receive.Network.{SocketCalls, ReadCalls, set_timeout}
use sacn_rust.Receive.Receiver.{SacnReceiver, on_network}
use sacn_rust.Receive.Recv.{
  instant, run_checks, remaining, read_packet, turn, recv_loop, recv, continue_with, actual_timeout,
}
use sacn_rust.Receive.Recv.Calls.{Paced, reads_of}
use sacn_rust.Receive.Recv.Handling.{
  run_checks-Keeps, set_timeout-Keeps, read_packet-reads, remaining-Keeps,
}

continue_with-cases :
    {S E A : Type 0} (again : S → Option (Outcome E A × S)) (r : Outcome E (Option A) × S)
    → ((out : Outcome E A × S) × (continue_with again r ≡ some out))
      ⊎ ((r.0 ≡ ok none) × (continue_with again r ≡ again (r.1)))
continue_with-cases again (ok none, s) = inr (refl, refl)
continue_with-cases again (ok (some a), s) = inl ((ok a, s), refl)
continue_with-cases again (err e, s) = inl ((err e, s), refl)
continue_with-cases again (panic, s) = inl ((panic, s), refl)

refuse_if-ok :
    {R E : Type 0} (b : Bool) (e : E) (s : R) {a : Unit {0}}
    → (refuse_if b e s).0 ≡ ok a
    → b ≡ false
refuse_if-ok true e s h = cc
refuse_if-ok false e s h = refl

module _ {S U : Type 0} ⦃crate : UuidCrate U⦄ ⦃net : NetworkEndian⦄ ⦃sockets : SocketCalls S⦄
    ⦃calls : ReadCalls S⦄ (pace : Paced S) where
  -- If time is left, the reads so far are fewer than fit before the deadline.
  remaining-lt :
      (deadline : ℕ) (self : SacnReceiver S U) {rem : Option ℕ}
      → (remaining (some deadline) self).0 ≡ ok rem
      → reads_of pace self ≤ pace.rate * deadline
  unfolding remaining
  remaining-lt deadline self h =
      let now = (calls.instant self.receiver.socket).0 in
      let s1 = (instant self).1 in
      let (_, timely, e) = and_then-eq-ok (refuse_if (leb deadline now) (io would_block) s1) _ h in
      let before : leb deadline now ≡ false =
        refuse_if-ok (leb deadline now) (io would_block) s1 timely in
      let early : now < deadline = ground arith in
      let pacing : reads_of pace self ≤ pace.rate * (now + 1) = pace.paced self.receiver.socket in
      grind arith

  turn-reads :
      (deadline : ℕ) (self : SacnReceiver S U)
      → (turn (some deadline) self).0 ≡ ok none
      → (reads_of pace self ≤ pace.rate * deadline)
        × (reads_of pace ((turn (some deadline) self).1) ≡ suc (reads_of pace self))
  unfolding turn
  turn-reads deadline self h =
      let (_, h1, e1) = and_then-eq-ok (run_checks self) _ h in
      let s1 = (run_checks self).1 in
      let rest =
        λ (rem : Option ℕ). on_network (set_timeout (some (actual_timeout rem))) >> read_packet in
      let (rem, h2, e2) =
        and_then-eq-ok (remaining (some deadline) s1) rest (sym (ap (λ r. r.0) e1) ∙ h) in
      let s2 = (remaining (some deadline) s1).1 in
      let timeout = on_network {U = U} (set_timeout (some (actual_timeout rem))) in
      let (_, h3, e3) =
        and_then-eq-ok (timeout s2) (λ _. read_packet) (sym (ap (λ r. r.0) (e1 ∙ e2)) ∙ h) in
      let s3 = (timeout s2).1 in
      let kept1 : reads_of pace s1 ≡ reads_of pace self = run_checks-Keeps pace self in
      let kept2 : reads_of pace s2 ≡ reads_of pace s1 = remaining-Keeps pace (some deadline) s1 in
      let kept3 : reads_of pace s3 ≡ reads_of pace s2 =
        set_timeout-Keeps pace (some (actual_timeout rem)) s2 in
      let one : reads_of pace ((read_packet s3).1) ≡ suc (reads_of pace s3) =
        read_packet-reads pace s3 in
      let all : reads_of pace ((turn (some deadline) self).1) ≡ reads_of pace ((read_packet s3).1) =
        ap (λ r. reads_of pace (r.1)) (e1 ∙ e2 ∙ e3) in
      let few = remaining-lt deadline s1 h2 in (omega arith, omega arith)

  -- With enough fuel for every read that fits before the deadline, the loop returns.
  recv_loop-returns :
      (fuel deadline : ℕ) (self : SacnReceiver S U)
      → reads_of pace self ≤ pace.rate * deadline + 1
      → pace.rate * deadline + 1 < fuel + reads_of pace self
      → (out : Outcome (SacnError U) (List (DmxData U)) × SacnReceiver S U) × (recv_loop fuel
            (some deadline)
            self
          ≡ some out)
  unfolding recv_loop
  recv_loop-returns zero deadline self h k = absurd (omega arith)
  recv_loop-returns (suc fuel) deadline self h k =
      elim (continue_with-cases (recv_loop fuel (some deadline)) (turn (some deadline) self)) [
        | inl done ↦ done
        | inr (again, e) ↦
            let (few, more) = turn-reads deadline self again in
            let (out, returned) =
              recv_loop-returns fuel deadline ((turn (some deadline) self).1) (omega arith)
                (omega arith) in
            (out, e ∙ returned)
      ]

  -- `recv` with a timeout that fits into an `Instant` returns: if the socket does at most `rate`
  -- reads in each unit of time (`Paced`), the loop is over after at most `rate * (now + timeout) +
  -- 2` turns, whatever is read.
  pub recv-returns :
      (fuel t : ℕ) (self : SacnReceiver S U)
      → (calls.instant self.receiver.socket).0 + t ≤ calls.instant_max
      → pace.rate * ((calls.instant self.receiver.socket).0 + t) + 2 ≤ fuel
      → (out : Outcome (SacnError U) (List (DmxData U)) × SacnReceiver S U) × (recv fuel
            (some t)
            self
          ≡ some out)
  unfolding recv
  recv-returns fuel zero self h k = ((run_checks >> fail (io would_block)) self, refl)
  recv-returns fuel (suc t) self h k =
      let now = (calls.instant self.receiver.socket).0 in
      let pacing : reads_of pace self ≤ pace.rate * (now + 1) = pace.paced self.receiver.socket in
      let longer : pace.rate * (now + 1) ≤ pace.rate * (now + suc t) =
        mul-le-mul_left pace.rate (omega arith) in
      let same : reads_of pace ((instant self).1) ≡ reads_of pace self =
        pace.instant-reads self.receiver.socket in
      let fits : leb (now + suc t) calls.instant_max ≡ true = ground arith in
      let (out, returned) =
        recv_loop-returns fuel (now + suc t) ((instant self).1) (omega arith) (omega arith) in
      (out, ap (λ (d : Option ℕ). recv_loop fuel d ((instant self).1)) (rw fits refl) ∙ returned)
