-- ===== src/Common/Bits.antt =====
-- Masks on bytes and 16-bit words as arithmetic, each checked over its whole range.
use Prim.Native.Nat.{◌≤◌, ℕ, zero, suc, ◌+◌, ◌*◌, ◌/◌, ◌%◌, ◌<◌, bit_and, bit_or}
use mathlib.Core.Path.{◌≡◌, refl}
use mathlib.Core.Bool.{Bool, true, false}
use native.Mathlib.Omega.{arith}
use sacn_rust.Common.Tests.{◌==◌, ==_iff}

-- The test of `count` numbers from `from` on.
holds_from : ℕ → ℕ → (ℕ → Bool) → Bool
holds_from from zero test = true
holds_from from (suc count) test =
    let later = holds_from (from + 1) count test in
    elim (test from) [ true ↦ later | false ↦ false ]

holds_from_lem :
    (from count k : ℕ) (test : ℕ → Bool)
    → holds_from from count test ≡ true
    → from ≤ k
    → k < from + count
    → test k ≡ true
unfolding holds_from
holds_from_lem from zero k test h lo hi = absurd (omega arith)
holds_from_lem from (suc count) k test h lo hi =
    ground (arith, holds_from_lem (from + 1) count k test)

-- A 16-bit word is checked by its two bytes.
same_words : ℕ → (ℕ → ℕ) → (ℕ → ℕ) → Bool
unfolding holds_from
same_words highs f g =
    holds_from 0 highs (λ hi. holds_from 0 256 (λ lo. f (hi * 256 + lo) == g (hi * 256 + lo)))

same_words_lem :
    (highs : ℕ) (f g : ℕ → ℕ) (hi lo : ℕ)
    → same_words highs f g ≡ true
    → hi < highs
    → lo < 256
    → f (hi * 256 + lo) ≡ g (hi * 256 + lo)
unfolding same_words
same_words_lem highs f g hi lo h small_hi small_lo =
    let row : holds_from 0 256 (λ lo. f (hi * 256 + lo) == g (hi * 256 + lo)) ≡ true =
      holds_from_lem 0 highs hi
        (λ hi. holds_from 0 256 (λ lo. f (hi * 256 + lo) == g (hi * 256 + lo))) h (omega arith)
        (omega arith) in
    (==_iff _ _).0 (
      holds_from_lem 0 256 lo (λ lo. f (hi * 256 + lo) == g (hi * 256 + lo)) row (omega arith)
        (omega arith))

flags_table : holds_from 0 256 (λ b. bit_and b 0xf0 == b / 16 * 16) ≡ true
unfolding holds_from
flags_table = refl

pub flags_mask : (b : ℕ) → b < 256 → bit_and b 0xf0 ≡ b / 16 * 16
flags_mask b h = (==_iff _ _).0 (
    holds_from_lem 0 256 b (λ b. bit_and b 0xf0 == b / 16 * 16) flags_table (omega arith)
      (omega arith))

-- The length field of a PDU, the lower twelve bits of the word with the bytes `hi` and `lo`.
pub length_mask :
    (hi lo : ℕ) → hi < 256 → lo < 256 → bit_and (hi * 256 + lo) 0x0fff ≡ (hi * 256 + lo) % 4096
unfolding same_words holds_from
length_mask hi lo = same_words_lem 256 (λ w. bit_and w 0x0fff) (λ w. w % 4096) hi lo refl

flags_or_bytes :
    (hi lo : ℕ)
    → hi < 16
    → lo < 256
    → bit_or 0x7000 (bit_and (hi * 256 + lo) 0x0fff) ≡ 0x7000 + (hi * 256 + lo)
unfolding same_words holds_from
flags_or_bytes hi lo =
    same_words_lem 16 (λ w. bit_or 0x7000 (bit_and w 0x0fff)) (λ w. 0x7000 + w) hi lo refl

-- The flags of a PDU joined with a length that twelve bits hold.
pub flags_or_length : (w : ℕ) → w < 4096 → bit_or 0x7000 (bit_and w 0x0fff) ≡ 0x7000 + w
flags_or_length w h =
    let e : w / 256 * 256 + w % 256 ≡ w = omega arith in
    rw e at (flags_or_bytes (w / 256) (w % 256) (omega arith) (omega arith))

-- The lower byte of a word.
pub byte_mask : (w : ℕ) → w < 65536 → bit_and w 0xff ≡ w % 256
unfolding same_words holds_from
byte_mask w h =
    let e : w / 256 * 256 + w % 256 ≡ w = omega arith in
    rw e at (
      same_words_lem 256 (λ v. bit_and v 0xff) (λ v. v % 256) (w / 256) (w % 256) refl (omega arith)
        (omega arith))
