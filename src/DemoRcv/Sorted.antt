-- ===== src/DemoRcv/Sorted.antt =====
-- The demo receiver (examples/demo_rcv/src/main.rs) prints data in order.
use mathlib.Core.List.{Permᴰ}
use mathlib.Core.List.Permᴰ
use sacn_rust.Common.{subst, ◌≡◌, refl, sym, List, [], ◌∷◌, All, inl, inr, ◌⊎◌}
use sacn_rust.Receive.Merge.{DmxData}
use sacn_rust.Receive.Ordering.{Ordering, less, equal, greater, cmp}
use sacn_rust.Receive.Ordering.IsOrder.{cmp-IsOrder}
use sacn_rust.DemoRcv.Printing.{insert_data, sort_data}

-- `self <= other`.
abbrev IsAtMost : Ordering → Type 0
IsAtMost less = Unit {0}
IsAtMost equal = Unit {0}
IsAtMost greater = ⊥

IsAtMost-trans :
    (o p q : Ordering)
    → (o ≡ less → p ≡ less → q ≡ less)
    → (o ≡ equal → q ≡ p)
    → (p ≡ equal → q ≡ o)
    → IsAtMost o
    → IsAtMost p
    → IsAtMost q
IsAtMost-trans less less q h l r x y = subst IsAtMost (sym (h refl refl)) tt
IsAtMost-trans less equal q h l r x y = subst IsAtMost (sym (r refl)) tt
IsAtMost-trans less greater q h l r x y = absurd y
IsAtMost-trans equal p q h l r x y = subst IsAtMost (sym (l refl)) y
IsAtMost-trans greater p q h l r x y = absurd x

Ordering-cases : (o : Ordering) → (o ≡ less) ⊎ (o ≡ equal) ⊎ (o ≡ greater)
Ordering-cases less = inl refl
Ordering-cases equal = inr (inl refl)
Ordering-cases greater = inr (inr refl)

-- No data after a larger one.
unfoldable pub IsSorted : {U : Type 0} → List (DmxData U) → Type 0
IsSorted [] = Unit
IsSorted (d ∷ ds) = All (λ x. IsAtMost (cmp d x)) ds × IsSorted ds

module _ {U : Type 0} where
  insert_data-All :
      (P : DmxData U → Type 0) (d : DmxData U) (xs : List (DmxData U))
      → P d
      → All P xs
      → All P (insert_data d xs)
  unfolding insert_data
  insert_data-All P d [] h k = (h, tt)
  insert_data-All P d (x ∷ xs) h (k, ks) = elim (Ordering-cases (cmp d x)) [
    | inl e ↦ rw (All, insert_data, e) (h, (k, ks))
    | inr (inl e) ↦ rw (All, insert_data, e) (h, (k, ks))
    | inr (inr e) ↦ rw (All, insert_data, e) (k, insert_data-All P d xs h ks)
  ]

  -- What is at most `x` is at most all that `x` is at most.
  All-IsAtMost :
      (d x : DmxData U) (xs : List (DmxData U))
      → IsAtMost (cmp d x)
      → All (λ y. IsAtMost (cmp x y)) xs
      → All (λ y. IsAtMost (cmp d y)) xs
  All-IsAtMost d x [] h k = tt
  All-IsAtMost d x (y ∷ ys) h (k, ks) = (
    IsAtMost-trans (cmp d x) (cmp x y) (cmp d y) (cmp-IsOrder.transitive d x y)
        (cmp-IsOrder.alike_left d x y) (cmp-IsOrder.alike_right d x y) h k,
    All-IsAtMost d x ys h ks,
  )

  insert_data-IsSorted :
      (d : DmxData U) (xs : List (DmxData U)) → IsSorted xs → IsSorted (insert_data d xs)
  unfolding insert_data IsSorted
  insert_data-IsSorted d [] h = (tt, tt)
  insert_data-IsSorted d (x ∷ xs) (k, s) = elim (Ordering-cases (cmp d x)) [
    | inl e ↦
        let h : IsAtMost (cmp d x) = rw e tt in
        rw (IsSorted, insert_data, e) ((h, All-IsAtMost d x xs h k), (k, s))
    | inr (inl e) ↦
        let h : IsAtMost (cmp d x) = rw e tt in
        rw (IsSorted, insert_data, e) ((h, All-IsAtMost d x xs h k), (k, s))
    | inr (inr e) ↦
        let h : IsAtMost (cmp x d) = rw (cmp-IsOrder.flips d x, e) tt in
        rw (IsSorted, insert_data, e)
          (insert_data-All (λ y. IsAtMost (cmp x y)) d xs h k, insert_data-IsSorted d xs s)
  ]

  insert_data-Perm : (d : DmxData U) (xs : List (DmxData U)) → Permᴰ (d ∷ xs) (insert_data d xs)
  unfolding insert_data
  insert_data-Perm d [] = Permᴰ.refl (d ∷ [])
  insert_data-Perm d (x ∷ xs) = elim (Ordering-cases (cmp d x)) [
    | inl e ↦ rw (insert_data, e) (Permᴰ.refl (d ∷ x ∷ xs))
    | inr (inl e) ↦ rw (insert_data, e) (Permᴰ.refl (d ∷ x ∷ xs))
    | inr (inr e) ↦
        rw (insert_data, e)
          (Permᴰ.trans (Permᴰ.swap refl refl) (Permᴰ.cons refl (insert_data-Perm d xs)))
  ]

  pub sort_data-IsSorted :
      (ds : List (DmxData U)) → IsSorted (sort_data ds) × Permᴰ ds (sort_data ds)
  unfolding sort_data IsSorted
  sort_data-IsSorted [] = (tt, Permᴰ.refl [])
  sort_data-IsSorted (d ∷ ds) =
      let (sorted, same) = sort_data-IsSorted ds in
      (
        insert_data-IsSorted d (sort_data ds) sorted,
        Permᴰ.trans (Permᴰ.cons refl same) (insert_data-Perm d (sort_data ds)),
      )
