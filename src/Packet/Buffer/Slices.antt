-- ===== src/Packet/Buffer/Slices.antt =====
-- Reads at known offsets of a buffer that is a chain of fields.
use Prim.Native.Nat.add
use sacn_rust.Common.{
  ◌<◌, panic, ℕ, zero, suc, ◌+◌, ◌≤◌, ◌≡◌, refl, ap, ap₂, ◌∙◌, List, [], ◌∷◌, ◌++◌, arith, ok,
  length, take, drop, length-append, drop-append, take-append, bind_ok,
}
use sacn_rust.Packet.Buffer.{split_at, slice, slice_from, index}

module _ {E : Type 0} where
  pub split_at_lem :
      (n : ℕ) (xs : List ℕ) → n ≤ length xs → split_at {E = E} n xs ≡ ok (take n xs, drop n xs)
  unfolding split_at
  split_at_lem zero xs h = refl
  split_at_lem (suc n) [] h = absurd (omega arith)
  split_at_lem (suc n) (x ∷ xs) h = bind_ok _ (split_at_lem n xs (omega arith)) refl

  -- Behind a first part of length `a`, a slice is a slice of what follows it.
  pub slice_skip :
      (A X : List ℕ) (a n : ℕ) → length A ≡ a → slice {E = E} (A ++ X) a (a + n) ≡ slice X 0 n
  unfolding slice
  slice_skip [] X zero n h = rw add.zero refl
  slice_skip [] X (suc a) n h = absurd (omega arith)
  slice_skip (x ∷ A) X zero n h = absurd (omega arith)
  slice_skip (x ∷ A) X (suc a) n h = rw add.suc (slice_skip A X a n (omega arith))

  pub split_at-append :
      (n : ℕ) (X R : List ℕ) → length X ≡ n → split_at {E = E} n (X ++ R) ≡ ok (X, R)
  split_at-append n X R h =
      split_at_lem n (X ++ R) (omega (arith, length-append X R))
      ∙ ap₂ (λ t d. ok (t, d)) (take-append n X R h) (drop-append n X R h)

  pub slice_all : (X R : List ℕ) (n : ℕ) → length X ≡ n → slice {E = E} (X ++ R) 0 n ≡ ok X
  unfolding slice
  slice_all X R n h = bind_ok _ (split_at-append n X R h) refl

  -- The slice between a first part of length `a` and what follows the part `X`.
  pub slice_middle :
      (A X R : List ℕ) (a b : ℕ)
      → length A ≡ a
      → a + length X ≡ b
      → slice {E = E} (A ++ (X ++ R)) a b ≡ ok X
  slice_middle A X R a b h k =
      rw (← k) (slice_skip A (X ++ R) a (length X) h ∙ slice_all X R (length X) refl)

  pub slice_from-append :
      (X R : List ℕ) (n : ℕ) → length X ≡ n → slice_from {E = E} (X ++ R) n ≡ ok R
  unfolding slice_from
  slice_from-append X R n h = bind_ok _ (split_at-append n X R h) refl

  pub index_middle :
      (A : List ℕ) (x : ℕ) (R : List ℕ) (a : ℕ)
      → length A ≡ a
      → index {E = E} (A ++ (x ∷ R)) a ≡ ok x
  unfolding index
  index_middle [] x R zero h = refl
  index_middle [] x R (suc a) h = absurd (omega arith)
  index_middle (y ∷ A) x R zero h = absurd (omega arith)
  index_middle (y ∷ A) x R (suc a) h = index_middle A x R a (omega arith)

  -- Reads behind a first part of length `a`, at any offset.
  pub slice_shift :
      (A X : List ℕ) (a j k i b : ℕ)
      → length A ≡ a
      → a + j ≡ i
      → a + k ≡ b
      → slice {E = E} (A ++ X) i b ≡ slice X j k
  unfolding slice
  slice_shift [] X zero j k i b h p q = ap₂ (λ i b. slice X i b) (omega arith) (omega arith)
  slice_shift [] X (suc a) j k i b h p q = absurd (omega arith)
  slice_shift (x ∷ A) X zero j k i b h p q = absurd (omega arith)
  slice_shift (x ∷ A) X (suc a) j k zero b h p q = absurd (omega arith)
  slice_shift (x ∷ A) X (suc a) j k (suc i) zero h p q = absurd (omega arith)
  slice_shift (x ∷ A) X (suc a) j k (suc i) (suc b) h p q =
      slice_shift A X a j k i b (omega arith) (omega arith) (omega arith)

  pub index_shift :
      (A X : List ℕ) (a j i : ℕ) → length A ≡ a → a + j ≡ i → index {E = E} (A ++ X) i ≡ index X j
  unfolding index
  index_shift [] X zero j i h p = ap (index X) (omega arith)
  index_shift [] X (suc a) j i h p = absurd (omega arith)
  index_shift (x ∷ A) X zero j i h p = absurd (omega arith)
  index_shift (x ∷ A) X (suc a) j zero h p = absurd (omega arith)
  index_shift (x ∷ A) X (suc a) j (suc i) h p = index_shift A X a j i (omega arith) (omega arith)

  -- A slice that ends before it starts is a panic.
  pub slice_reversed : (xs : List ℕ) (a b : ℕ) → b < a → slice {E = E} xs a b ≡ panic
  unfolding slice
  slice_reversed xs zero b h = absurd (omega arith)
  slice_reversed xs (suc a) zero h = refl
  slice_reversed [] (suc a) (suc b) h = refl
  slice_reversed (x ∷ xs) (suc a) (suc b) h = slice_reversed xs a b (omega arith)
