-- ===== src/Receive/Sequence.antt =====
-- `SequenceNumbering` and the functions that check and expire sequence numbers.
--
-- An `Instant` is a number of milliseconds. A call reads the clock once: its `now` argument.

pub mod Check
pub mod Limit
pub mod Finding
pub mod Lookup
pub mod Removal
pub mod Steps
pub mod Timeouts
pub mod Window
use sacn_rust.Common.{
  ℕ, ◌+◌, ◌-◌, ◌%◌, Bool, true, false, not, ◌&&◌, Option, none, some, List, [], ◌∷◌, ok, err, panic,
  if◌then◌else◌, ltb, leb, length, ℕ_discrete,
}
use sacn_rust.Common.Int.{ℤ, pos, negsuc, lt_int}
use sacn_rust.Common.HashMap.{get, insert, remove, retain}
use sacn_rust.Error.{
  SacnError, universe_timeout, sources_exceeded_error, out_of_sequence, source_not_found,
  universe_not_found, Result,
}
use sacn_rust.Common.State.{Stateful, ◌>>◌}
use sacn_rust.External.{UuidCrate}
use sacn_rust.Packet.Constants.{
  e131_network_data_loss_timeout, e131_seq_diff_discard_lower_bound,
  e131_seq_diff_discard_upper_bound,
}

pub record TimedStampedSeqNo : Type 0 where
  pub sequence_number : ℕ
  pub last_recv : ℕ

abbrev pub Universes : Type 0
Universes = List (ℕ × TimedStampedSeqNo)

abbrev pub Sequences : Type 0 → Type 0
Sequences U = List (U × Universes)

pub record SequenceNumbering (U : Type 0) : Type 0 where
  pub data_sequences : Sequences U
  pub sync_sequences : Sequences U

-- `seq_num.last_recv.elapsed() >= timeout`
abbrev pub is_timed_out : ℕ → ℕ → TimedStampedSeqNo → Bool
is_timed_out now timeout s = leb timeout (now - s.last_recv)

-- The inner loop of `check_timeouts`: the first universe that timed out.
unfoldable pub first_timed_out : ℕ → ℕ → Universes → Option ℕ
first_timed_out now timeout [] = none
first_timed_out now timeout ((uni, s) ∷ rest) =
    if is_timed_out now timeout s then some uni else first_timed_out now timeout rest

-- `u8::wrapping_sub`, and the cast to `i8`.
abbrev pub wrapping_sub : ℕ → ℕ → ℕ
wrapping_sub a b = (a + 256 - b) % 256

abbrev pub as_i8 : ℕ → ℤ
as_i8 w = if ltb w 128 then pos w else negsuc (255 - w)

abbrev pub is_empty : {A : Type 0} → List A → Bool
is_empty [] = true
is_empty (x ∷ xs) = false

-- The number that the packet's number is compared with.
unfoldable pub expected_seq : ℕ → ℕ → ℕ → Universes → TimedStampedSeqNo
expected_seq now sequence_number universe universes = elim (get ℕ_discrete universe universes) [
  | some s ↦ s
  | none ↦ record { sequence_number = wrapping_sub sequence_number 1; last_recv = now }
]

-- The rejected differences: above the lower bound, up to the upper bound.
abbrev pub is_discarded : ℤ → Bool
is_discarded d =
    not (lt_int e131_seq_diff_discard_upper_bound d) && lt_int e131_seq_diff_discard_lower_bound d

module _ {U : Type 0} where
  unfoldable pub new : SequenceNumbering U
  new = record { data_sequences = []; sync_sequences = [] }

  unfoldable pub clear : SequenceNumbering U → SequenceNumbering U
  clear self = record self { data_sequences = []; sync_sequences = [] }

  -- The outer loop of `check_timeouts` with `announce_timeout`: it carries the source and the
  -- universe found so far, and stops at the first source after which there is none.
  unfoldable pub find_timed_out : ℕ → ℕ → Sequences U → Option (U × ℕ) → Option (U × ℕ)
  find_timed_out now timeout [] found = found
  find_timed_out now timeout ((src, universes) ∷ rest) found =
      elim (first_timed_out now timeout universes) [
        | some uni ↦ find_timed_out now timeout rest (some (src, uni))
        | none ↦ elim found [ none ↦ none | some f ↦ find_timed_out now timeout rest (some f) ]
      ]

  -- The universes of each source that are still alive.
  unfoldable pub expire : ℕ → ℕ → Sequences U → Sequences U
  expire now timeout [] = []
  expire now timeout ((src, universes) ∷ rest) =
      (src, retain (λ s. not (is_timed_out now timeout s)) universes) ∷ expire now timeout rest

module _ {U : Type 0} ⦃crate : UuidCrate U⦄ where
  -- Removes a universe, and the source with it if that was its last one.
  unfoldable pub remove_universe : Sequences U → U → ℕ → Universes → Sequences U
  remove_universe sequences src uni universes =
      let left = remove ℕ_discrete uni universes in
      if is_empty left
      then remove crate.equal src sequences
      else insert crate.equal src left sequences

  unfoldable pub check_timeouts : ℕ → ℕ → Bool → Sequences U → Result U (Unit {0}) × Sequences U
  unfolding find_timed_out first_timed_out expire remove_universe
  check_timeouts now timeout true sequences = elim (find_timed_out now timeout sequences none) [
    | none ↦ (ok tt, sequences)
    | some (src, uni) ↦ elim (get crate.equal src sequences) [
      | none ↦ (ok tt, sequences)
      | some universes ↦
          (err (universe_timeout src uni), remove_universe sequences src uni universes)
    ]
  ]
  check_timeouts now timeout false sequences =
      (ok tt, retain (λ universes. not (is_empty universes)) (expire now timeout sequences))

  -- `source_limit.is_none() || src_sequences.len() < source_limit.unwrap()`
  abbrev pub has_room : Option ℕ → Sequences U → Bool
  has_room none sequences = true
  has_room (some limit) sequences = ltb (length sequences) limit

  -- The insertion of a source that is not known.
  unfoldable pub add_source : Option ℕ → U → Sequences U → Result U (Unit {0}) × Sequences U
  add_source source_limit cid sequences = elim (get crate.equal cid sequences) [
    | some _ ↦ (ok tt, sequences)
    | none ↦
        if has_room source_limit sequences
        then (ok tt, insert crate.equal cid [] sequences)
        else (err (sources_exceeded_error (length sequences)), sequences)
  ]

  -- The comparison and the update. The two panics of the source are those of a source that is
  -- missing right after it was added.
  unfoldable pub accept_seq : ℕ → U → ℕ → ℕ → Sequences U → Result U (Unit {0}) × Sequences U
  unfolding expected_seq
  accept_seq now cid sequence_number universe sequences = elim (get crate.equal cid sequences) [
    | none ↦ (panic, sequences)
    | some universes ↦
        let expected = (expected_seq now sequence_number universe universes).sequence_number in
        let seq_diff = as_i8 (wrapping_sub sequence_number expected) in
        if is_discarded seq_diff
        then (err (out_of_sequence sequence_number expected seq_diff), sequences)
        else (
          ok tt,
          insert crate.equal cid
              (insert ℕ_discrete universe
                (record { sequence_number = sequence_number; last_recv = now }) universes)
              sequences,
        )
  ]

  -- `now` is the clock at the check of the timeouts and at the stamping of the packet.
  unfoldable pub check_seq_number :
      ℕ → Option ℕ → U → ℕ → ℕ → Bool → Stateful (Sequences U) (SacnError U) (Unit {0})
  unfolding check_timeouts add_source accept_seq
  check_seq_number now source_limit cid sequence_number universe announce_timeout = do
    check_timeouts now e131_network_data_loss_timeout announce_timeout
    add_source source_limit cid
    accept_seq now cid sequence_number universe

  unfoldable pub remove_source_universe_seq :
      U → ℕ → Stateful (Sequences U) (SacnError U) (Unit {0})
  unfolding remove_universe
  remove_source_universe_seq src_cid universe sequences = elim (get crate.equal src_cid sequences) [
    | none ↦ (err (source_not_found src_cid), sequences)
    | some universes ↦ elim (get ℕ_discrete universe universes) [
      | none ↦ (err (universe_not_found universe), sequences)
      | some _ ↦ (ok tt, remove_universe sequences src_cid universe universes)
    ]
  ]

  -- A method on one of the two fields.
  abbrev pub on_data :
      {A : Type 0}
      → Stateful (Sequences U) (SacnError U) A
      → Stateful (SequenceNumbering U) (SacnError U) A
  on_data m self = let r = m self.data_sequences in (r.0, record self { data_sequences = r.1 })

  abbrev pub on_sync :
      {A : Type 0}
      → Stateful (Sequences U) (SacnError U) A
      → Stateful (SequenceNumbering U) (SacnError U) A
  on_sync m self = let r = m self.sync_sequences in (r.0, record self { sync_sequences = r.1 })

  unfoldable pub check_all_timeouts :
      ℕ → Bool → Stateful (SequenceNumbering U) (SacnError U) (Unit {0})
  check_all_timeouts now announce_timeout = do
    on_data (check_timeouts now e131_network_data_loss_timeout announce_timeout)
    on_sync (check_timeouts now e131_network_data_loss_timeout announce_timeout)

  unfoldable pub check_data_seq_number :
      ℕ → Option ℕ → U → ℕ → ℕ → Bool → Stateful (SequenceNumbering U) (SacnError U) (Unit {0})
  check_data_seq_number now source_limit cid sequence_number universe announce_timeout =
      on_data (check_seq_number now source_limit cid sequence_number universe announce_timeout)

  unfoldable pub check_sync_seq_number :
      ℕ → Option ℕ → U → ℕ → ℕ → Bool → Stateful (SequenceNumbering U) (SacnError U) (Unit {0})
  check_sync_seq_number now source_limit cid sequence_number sync_uni announce_timeout =
      on_sync (check_seq_number now source_limit cid sequence_number sync_uni announce_timeout)

  unfoldable pub remove_seq_numbers :
      U → ℕ → Stateful (SequenceNumbering U) (SacnError U) (Unit {0})
  remove_seq_numbers src_cid universe = do
    on_data (remove_source_universe_seq src_cid universe)
    on_sync (remove_source_universe_seq src_cid universe)
