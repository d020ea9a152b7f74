-- ===== src/Tests/Receiving.antt =====
-- A receiver that knows two sources, and what it does with packets.
use sacn_rust.Receive.Sequence.Steps.{expired, live_seq, check, put, Accepts}
use sacn_rust.Common.HashMap.Keys.{get-head, keep, HasDistinctKeys}
use sacn_rust.Common.HashMap.{get, retain}
use sacn_rust.Common.{
  ◌-◌, ◌%◌, ℕ, ◌+◌, ◌≤◌, ◌<◌, ◌≡◌, ◌≢◌, ◌↔◌, refl, sym, ap, subst, inl, true, false, none, some,
  List, [], ◌∷◌, ok, err, ℕ_discrete, arith, length,
}
use sacn_rust.Receive.Sequence.Limit.{check_seq_number-limit}
use sacn_rust.Receive.Sequence.Timeouts.{
  Announcement, check_timeouts-Announcement, check_timeouts-first_alive,
}
use sacn_rust.Receive.Sequence.Lookup.{
  IsTable, last_seq, live, in_universe, check_timeouts-last_seq,
}
use sacn_rust.Receive.Sequence.Window.{IsStale, is_discarded-IsStale}
use sacn_rust.Receive.Sequence.{
  Universes, expire, Sequences, check_seq_number, wrapping_sub, as_i8, is_discarded, check_timeouts,
  first_timed_out, TimedStampedSeqNo,
}
use sacn_rust.Receive.Sequence.Check.{
  check_seq_number-Accepts, check_seq_number-IsStale, check_seq_number-full,
}
use sacn_rust.Error.{out_of_sequence, sources_exceeded_error}
use sacn_rust.Packet.Constants.{e131_network_data_loss_timeout}
use sacn_rust.Tests.Instances.{big_endian, uuid_crate, open_socket, Uuid, uuid_of}
use sacn_rust.Tests.Packets.{cid}

-- Universe 1 of `cid` at 4, a second ago; universe 2 of another source, three seconds ago.
abbrev other : Uuid
other = uuid_of 9 (omega arith)

abbrev pub sequences : Sequences Uuid
sequences =
    (cid, (1, record { sequence_number = 4; last_recv = 9000 }) ∷ [])
    ∷ (other, (2, record { sequence_number = 8; last_recv = 7000 }) ∷ [])
    ∷ []

first_byte : List ℕ → ℕ
first_byte [] = 0
first_byte (b ∷ bytes) = b

nine_seven : ◌≡◌ {A = ℕ} 9 7 → ⊥
nine_seven e = omega arith

distinct : other ≢ cid
unfolding first_byte
distinct e = let f : ◌≡◌ {A = ℕ} 9 7 = ap (λ (u : Uuid). first_byte (u.0)) e in nine_seven f

pub sequences-IsTable : IsTable sequences
unfolding IsTable HasDistinctKeys get
sequences-IsTable = (ground (arith, distinct), (refl, tt), (refl, (refl, tt), tt))

is_discarded-IsStale_example : (is_discarded (as_i8 (wrapping_sub 250 4)) ≡ true) ↔ IsStale 4 250
is_discarded-IsStale_example = is_discarded-IsStale 4 250 (omega arith) (omega arith)

-- The number of `other` is three seconds old.
abbrev eight : TimedStampedSeqNo
eight = record { sequence_number = 8; last_recv = 7000 }

check_timeouts-last_seq_example :
    ((check_timeouts 10000 2500 false sequences).0 ≡ ok tt)
    × IsTable ((check_timeouts 10000 2500 false sequences).1)
    × ((last_seq ((check_timeouts 10000 2500 false sequences).1) other 2 ≡ some eight)
        ↔ ((last_seq sequences other 2 ≡ some eight) × (10000 - eight.last_recv < 2500)))
check_timeouts-last_seq_example =
    check_timeouts-last_seq 10000 2500 sequences other 2 eight sequences-IsTable

stale_by : (k : ℕ) → k < 20 → (5 + k) % 256 ≡ 4 → ⊥
stale_by k h e = omega arith

pub known : get uuid_crate.equal cid (expired 10000 sequences) ≢ none
unfolding check_timeouts expire retain
known e =
    let k =
      get-head {V = Universes} uuid_crate.equal cid
        ((1, record { sequence_number = 4; last_recv = 9000 }) ∷ []) [] in
    cc

found : last_seq sequences cid 1 ≡ some (record { sequence_number = 4; last_recv = 9000 })
unfolding in_universe get ℕ_discrete
found = ap (in_universe 1) (
    get-head {V = Universes} uuid_crate.equal cid
      ((1, record { sequence_number = 4; last_recv = 9000 }) ∷ [])
      ((other, (2, record { sequence_number = 8; last_recv = 7000 }) ∷ []) ∷ []))

pub seen : live_seq 10000 sequences cid 1 ≡ some (record { sequence_number = 4; last_recv = 9000 })
unfolding keep
seen = ap (live 10000 e131_network_data_loss_timeout) found

pub fresh : Accepts 5 (live_seq 10000 sequences cid 1)
unfolding Accepts
fresh = subst (Accepts 5) (sym seen) (omega arith, λ (k, small, e). stale_by k small e)

check_seq_number-Accepts_example :
    ((check 10000 (some 2) cid 5 1 sequences).0 ≡ ok tt)
    × IsTable ((check 10000 (some 2) cid 5 1 sequences).1)
    × ((c : Uuid) (u : ℕ)
        → last_seq ((check 10000 (some 2) cid 5 1 sequences).1) c u
          ≡ put cid 1
              (record { sequence_number = 5; last_recv = 10000 })
              (live_seq 10000 sequences)
              c
              u)
check_seq_number-Accepts_example =
    check_seq_number-Accepts 10000 (some 2) cid 5 1 sequences sequences-IsTable (omega arith)
      (inl known) fresh

check_seq_number-IsStale_example :
    ((check 10000 (some 2) cid 4 1 sequences).0
      ≡ err (out_of_sequence 4 4 (as_i8 (wrapping_sub 4 4))))
    × ((c : Uuid) (u : ℕ)
        → last_seq ((check 10000 (some 2) cid 4 1 sequences).1) c u ≡ live_seq 10000 sequences c u)
check_seq_number-IsStale_example =
    check_seq_number-IsStale 10000 (some 2) cid 4 1 sequences
      (record { sequence_number = 4; last_recv = 9000 }) sequences-IsTable (omega arith) seen
      (omega arith) (0, omega arith, refl)

unknown : get uuid_crate.equal other (expired 10000 sequences) ≡ none
unfolding check_timeouts expire retain get
unknown = ground (arith, distinct)

one_left : 1 ≤ length (expired 10000 sequences)
unfolding check_timeouts expire retain
one_left = omega arith

check_seq_number-full_example :
    check 10000 (some 1) other 1 2 sequences
    ≡ (err (sources_exceeded_error (length (expired 10000 sequences))), expired 10000 sequences)
check_seq_number-full_example = check_seq_number-full 10000 1 other 1 2 sequences unknown one_left

check_seq_number-limit_example :
    length ((check_seq_number 10000 (some 2) other 1 2 true sequences).1) ≤ 2
check_seq_number-limit_example =
    check_seq_number-limit 10000 2 other 1 2 true sequences (omega arith)

-- Two seconds later, the first source has timed out.
check_timeouts-Announcement_example : Announcement 12000 2500 sequences
check_timeouts-Announcement_example =
    check_timeouts-Announcement 12000 2500 sequences sequences-IsTable

alive :
    first_timed_out 10000 2500 ((1, record { sequence_number = 4; last_recv = 9000 }) ∷ []) ≡ none
unfolding first_timed_out
alive = refl

-- The other source has timed out, and is not reported.
check_timeouts-first_alive_example : check_timeouts 10000 2500 true sequences ≡ (ok tt, sequences)
check_timeouts-first_alive_example =
    check_timeouts-first_alive 10000 2500 cid
      ((1, record { sequence_number = 4; last_recv = 9000 }) ∷ [])
      ((other, (2, record { sequence_number = 8; last_recv = 7000 }) ∷ []) ∷ []) alive
