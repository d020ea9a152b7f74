-- ===== src/Receive/Ordering.antt =====
-- How `DMXData` (src/receive.rs) is compared: `Ord`, `PartialOrd` and `PartialEq`.
pub mod IsOrder
use sacn_rust.Common.{
  ℕ, ◌==◌, ◌&&◌, ltb, Bool, true, false, Option, some, List, [], ◌∷◌, if◌then◌else◌,
}
use sacn_rust.Receive.Merge.{DmxData}

-- `std::cmp::Ordering`.
pub data Ordering : Type 0 where
  less equal greater : Ordering

-- `Ordering::then`.
abbrev pub then_cmp : Ordering → Ordering → Ordering
then_cmp less other = less
then_cmp equal other = other
then_cmp greater other = greater

-- `Ordering::reverse`.
abbrev pub reverse : Ordering → Ordering
reverse less = greater
reverse equal = equal
reverse greater = less

-- `cmp` of an unsigned integer, and of a `Vec` of them.
unfoldable pub cmp_number : ℕ → ℕ → Ordering
cmp_number a b = if ltb a b then less else (if a == b then equal else greater)

unfoldable pub cmp_values : List ℕ → List ℕ → Ordering
unfolding cmp_number
cmp_values [] [] = equal
cmp_values [] (y ∷ ys) = less
cmp_values (x ∷ xs) [] = greater
cmp_values (x ∷ xs) (y ∷ ys) = then_cmp (cmp_number x y) (cmp_values xs ys)

unfoldable pub eq_values : List ℕ → List ℕ → Bool
eq_values [] [] = true
eq_values [] (y ∷ ys) = false
eq_values (x ∷ xs) [] = false
eq_values (x ∷ xs) (y ∷ ys) = (x == y) && eq_values xs ys

module _ {U : Type 0} where
  unfoldable pub cmp : DmxData U → DmxData U → Ordering
  unfolding cmp_number cmp_values
  cmp self other =
      then_cmp
        (then_cmp (cmp_number self.universe other.universe)
          (cmp_number self.sync_uni other.sync_uni))
        (cmp_values self.values other.values)

  unfoldable pub partial_cmp : DmxData U → DmxData U → Option Ordering
  unfolding cmp
  partial_cmp self other = some (cmp self other)

  unfoldable pub eq : DmxData U → DmxData U → Bool
  unfolding eq_values
  eq self other =
      (self.universe == other.universe)
      && (self.sync_uni == other.sync_uni)
      && eq_values self.values other.values
