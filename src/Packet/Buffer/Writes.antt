-- ===== src/Packet/Buffer/Writes.antt =====
-- Writes behind the part of a buffer that stands already: each leaves that part and extends it.
use sacn_rust.Common.{
  ℕ, zero, suc, ◌+◌, ◌≤◌, ◌≡◌, refl, ap, ◌∙◌, List, [], ◌∷◌, ◌++◌, arith, Outcome, ok, length, take,
  drop, replicate, length-take, length-drop, drop-drop, bind_ok,
}
use sacn_rust.Packet.Buffer.Slices.{split_at_lem, split_at-append}
use sacn_rust.Packet.Buffer.{write_slice, write_from, write_index, copy_from_slice, zeros}

pub zeros_lem : (xs : List ℕ) (n : ℕ) → length xs ≡ n → zeros xs n ≡ replicate n 0
unfolding zeros
zeros_lem [] zero h = refl
zeros_lem [] (suc n) h = absurd (omega arith)
zeros_lem (x ∷ xs) zero h = absurd (omega arith)
zeros_lem (x ∷ xs) (suc n) h = ap (◌∷◌ 0) (zeros_lem xs n (omega arith))

module _ {E : Type 0} where
  -- A write of `n` bytes right behind the part `P` that stands already.
  pub write_step :
      (P S w : List ℕ) (a b n : ℕ) (f : List ℕ → Outcome E (List ℕ))
      → length P ≡ a
      → a + n ≡ b
      → n ≤ length S
      → f (take n S) ≡ ok w
      → write_slice (P ++ S) a b f ≡ ok ((P ++ w) ++ drop n S)
  unfolding write_slice
  write_step [] S w zero b n f h p q e =
      let p' : b ≡ n = omega arith in rw p' (bind_ok _ (split_at_lem n S q) (bind_ok _ e refl))
  write_step [] S w (suc a) b n f h p q e = absurd (omega arith)
  write_step (x ∷ P) S w zero b n f h p q e = absurd (omega arith)
  write_step (x ∷ P) S w (suc a) zero n f h p q e = absurd (omega arith)
  write_step (x ∷ P) S w (suc a) (suc b) n f h p q e =
      bind_ok _ (write_step P S w a b n f (omega arith) (omega arith) q e) refl

  pub write_from_step :
      (P S w : List ℕ) (a : ℕ) (f : List ℕ → Outcome E (List ℕ))
      → length P ≡ a
      → f S ≡ ok w
      → write_from (P ++ S) a f ≡ ok (P ++ w)
  unfolding write_from
  write_from_step P S w a f h e = bind_ok _ (split_at-append a P S h) (bind_ok _ e refl)

  pub copy_from_slice_lem :
      (xs ys : List ℕ) → length xs ≡ length ys → copy_from_slice {E = E} xs ys ≡ ok ys
  unfolding copy_from_slice
  copy_from_slice_lem [] [] h = refl
  copy_from_slice_lem [] (y ∷ ys) h = absurd (omega arith)
  copy_from_slice_lem (x ∷ xs) [] h = absurd (omega arith)
  copy_from_slice_lem (x ∷ xs) (y ∷ ys) h = bind_ok _ (copy_from_slice_lem xs ys (omega arith)) refl

  -- The same with the buffer as written up to `a` and as it was from `a` on.
  pub write_at :
      (P buf w : List ℕ) (a b n : ℕ) (f : List ℕ → Outcome E (List ℕ))
      → length P ≡ a
      → a + n ≡ b
      → b ≤ length buf
      → ((old : List ℕ) → length old ≡ n → f old ≡ ok w)
      → write_slice (P ++ drop a buf) a b f ≡ ok ((P ++ w) ++ drop b buf)
  write_at P buf w a b n f p q r e =
      write_step P (drop a buf) w a b n f p q (omega (arith, length-drop a buf))
        (e (take n (drop a buf)) (omega (arith, length-take n (drop a buf), length-drop a buf)))
      ∙ ap (λ rest. ok ((P ++ w) ++ rest)) (drop-drop a n buf ∙ ap (λ k. drop k buf) q)

  pub write_index_at :
      (P buf : List ℕ) (a b v : ℕ)
      → length P ≡ a
      → suc a ≡ b
      → b ≤ length buf
      → write_index {E = E} (P ++ drop a buf) a v ≡ ok ((P ++ v ∷ []) ++ drop b buf)
  unfolding write_index
  write_index_at P buf a b v p q r =
      rw (← q) (write_at P buf (v ∷ []) a (suc a) 1 _ p (omega arith) (omega arith) (λ old l. refl))

  pub zeros_at :
      (P buf : List ℕ) (a b n : ℕ)
      → length P ≡ a
      → a + n ≡ b
      → b ≤ length buf
      → write_slice {E = E} (P ++ drop a buf) a b (λ old. ok (zeros old n))
        ≡ ok ((P ++ replicate n 0) ++ drop b buf)
  zeros_at P buf a b n p q r =
      write_at P buf (replicate n 0) a b n _ p q r (λ old l. ap ok (zeros_lem old n l))

  pub copy_at :
      (P buf w : List ℕ) (a b : ℕ)
      → length P ≡ a
      → a + length w ≡ b
      → b ≤ length buf
      → write_slice {E = E} (P ++ drop a buf) a b (λ old. copy_from_slice old w)
        ≡ ok ((P ++ w) ++ drop b buf)
  copy_at P buf w a b p q r =
      write_at P buf w a b (length w) _ p q r (λ old l. copy_from_slice_lem old w l)
