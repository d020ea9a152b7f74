-- ===== src/Receive/Sequence/Window.antt =====
-- The window of sequence numbers that `check_seq_number` discards.
use sacn_rust.Common.{Bool-cases, inl, inr, false, ℕ, ◌+◌, ◌-◌, ◌%◌, ◌<◌, ◌≡◌, ◌↔◌, true, arith}
use sacn_rust.External.{IsByte}
use sacn_rust.Receive.Sequence.{wrapping_sub, as_i8, is_discarded}

-- A number is stale when it is the last one received or one of the nineteen before it, around 256.
abbrev pub IsStale : ℕ → ℕ → Type 0
IsStale last n = (k : ℕ) × (k < 20) × ((n + k) % 256 ≡ last)

discarded_lem : (d : ℕ) → IsByte d → (is_discarded (as_i8 d) ≡ true) ↔ ((256 - d) % 256 < 20)
discarded_lem d h = ground arith

distance_lem :
    (last n : ℕ)
    → IsByte last
    → IsByte n
    → (256 - wrapping_sub n last) % 256 ≡ (last + 256 - n) % 256
distance_lem last n hl hn = omega arith

-- For bytes, the test of `check_seq_number` on the wrapped signed difference discards a number
-- exactly when it is the last number received or one of the nineteen before it, around 256.
pub is_discarded-IsStale :
    (last n : ℕ)
    → IsByte last
    → IsByte n
    → (is_discarded (as_i8 (wrapping_sub n last)) ≡ true) ↔ IsStale last n
is_discarded-IsStale last n hl hn =
    let step = discarded_lem (wrapping_sub n last) (omega arith) in
    let d = distance_lem last n hl hn in
    (
      λ h. ((last + 256 - n) % 256, rw (← d) (step.0 h), omega arith),
      λ (k, small, e). step.1 (omega arith),
    )

-- The first packet of a universe is compared with the number before its own.
pub is_discarded_first :
    (n : ℕ) → IsByte n → is_discarded (as_i8 (wrapping_sub n (wrapping_sub n 1))) ≡ false
is_discarded_first n h = let e : wrapping_sub n (wrapping_sub n 1) ≡ 1 = omega arith in rw e

pub is_discarded_fresh :
    (last n : ℕ)
    → IsByte last
    → IsByte n
    → ¬ IsStale last n
    → is_discarded (as_i8 (wrapping_sub n last)) ≡ false
is_discarded_fresh last n hl hn fresh =
    elim (Bool-cases (is_discarded (as_i8 (wrapping_sub n last)))) [
      | inl e ↦ elim (fresh ((is_discarded-IsStale last n hl hn).0 e)) [ ]
      | inr e ↦ e
    ]
