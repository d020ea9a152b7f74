-- ===== src/Packet/Buffer.antt =====
-- Byte buffers: Rust's slices, indexing and writes, with the panics of the language.
pub mod Slices
pub mod Writes
use sacn_rust.Common.{
  ℕ, zero, suc, ◌+◌, ◌≤◌, ◌≡◌, refl, ap, ap₂, ◌∙◌, List, [], ◌∷◌, ◌++◌, arith, Outcome, ok, panic,
  ◌>>=◌, length, take, drop, replicate, length-append, drop-append, take-append, bind_ok,
}

module _ {E : Type 0} where
  -- The first `n` bytes, and what follows them.
  unfoldable pub split_at : ℕ → List ℕ → Outcome E (List ℕ × List ℕ)
  split_at zero xs = ok ([], xs)
  split_at (suc n) [] = panic
  split_at (suc n) (x ∷ xs) = do (front, back) ← split_at n xs; ok (x ∷ front, back)

  -- `&buf[a .. b]`
  unfoldable pub slice : List ℕ → ℕ → ℕ → Outcome E (List ℕ)
  unfolding split_at
  slice xs zero b = do (front, _) ← split_at b xs; ok front
  slice xs (suc a) zero = panic
  slice [] (suc a) (suc b) = panic
  slice (x ∷ xs) (suc a) (suc b) = slice xs a b

  -- `&buf[a ..]`
  unfoldable pub slice_from : List ℕ → ℕ → Outcome E (List ℕ)
  unfolding split_at
  slice_from xs a = do (_, back) ← split_at a xs; ok back

  -- `buf[i]`
  unfoldable pub index : List ℕ → ℕ → Outcome E ℕ
  index [] i = panic
  index (x ∷ xs) zero = ok x
  index (x ∷ xs) (suc i) = index xs i

  -- A write through `&mut buf[a .. b]`: `f` maps the old bytes of the slice to the new ones.
  unfoldable pub write_slice : List ℕ → ℕ → ℕ → (List ℕ → Outcome E (List ℕ)) → Outcome E (List ℕ)
  unfolding split_at
  write_slice xs zero b f = do (front, back) ← split_at b xs; new ← f front; ok (new ++ back)
  write_slice xs (suc a) zero f = panic
  write_slice [] (suc a) (suc b) f = panic
  write_slice (x ∷ xs) (suc a) (suc b) f = do new ← write_slice xs a b f; ok (x ∷ new)

  -- A write through `&mut buf[a ..]`.
  unfoldable pub write_from : List ℕ → ℕ → (List ℕ → Outcome E (List ℕ)) → Outcome E (List ℕ)
  unfolding split_at
  write_from xs a f = do (front, back) ← split_at a xs; new ← f back; ok (front ++ new)

  -- `buf[i] = v`
  unfoldable pub write_index : List ℕ → ℕ → ℕ → Outcome E (List ℕ)
  unfolding write_slice
  write_index buf i v = write_slice buf i (suc i) (λ _. ok (v ∷ []))

  -- `copy_from_slice`, which panics unless the two slices are equally long.
  unfoldable pub copy_from_slice : List ℕ → List ℕ → Outcome E (List ℕ)
  copy_from_slice [] [] = ok []
  copy_from_slice [] (y ∷ ys) = panic
  copy_from_slice (x ∷ xs) [] = panic
  copy_from_slice (x ∷ xs) (y ∷ ys) = do rest ← copy_from_slice xs ys; ok (y ∷ rest)

-- `zeros(buf, n)`
unfoldable pub zeros : List ℕ → ℕ → List ℕ
zeros [] n = []
zeros (x ∷ xs) zero = x ∷ xs
zeros (x ∷ xs) (suc n) = 0 ∷ zeros xs n
