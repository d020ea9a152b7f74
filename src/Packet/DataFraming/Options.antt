-- ===== src/Packet/DataFraming/Options.antt =====
-- The options field of a data packet: three bits, written one by one and read by masks.
use sacn_rust.Common.{
  ℕ, suc, ◌+◌, ◌≤◌, ◌≡◌, refl, ap, ◌∙◌, Bool, true, false, not, ◌==◌, List, [], ◌∷◌, ◌++◌, arith,
  length, append_assoc, drop, ok, bind_ok, if◌then◌else◌, bit_and, bit_or,
}
use sacn_rust.Packet.Buffer.{index, write_index}
use sacn_rust.Packet.Buffer.Slices.{index_middle}
use sacn_rust.Packet.Buffer.Writes.{write_index_at, write_step}
use sacn_rust.Packet.DataFraming.{set_option, write_options}

abbrev pub options_byte : Bool → Bool → Bool → ℕ
options_byte p t f = (if p then 128 else 0) + ((if t then 64 else 0) + (if f then 32 else 0))

options_byte_lem :
    (p t f : Bool)
    → (let v₁ : ℕ = if p then 128 else 0 in
        let v₂ : ℕ = if t then bit_or v₁ 64 else v₁ in if f then bit_or v₂ 32 else v₂)
      ≡ options_byte p t f
options_byte_lem true true true = refl
options_byte_lem true true false = refl
options_byte_lem true false true = refl
options_byte_lem true false false = refl
options_byte_lem false true true = refl
options_byte_lem false true false = refl
options_byte_lem false false true = refl
options_byte_lem false false false = refl

module _ {E : Type 0} where
  write_index_again :
      (P S : List ℕ) (a v w : ℕ)
      → length P ≡ a
      → write_index {E = E} ((P ++ v ∷ []) ++ S) a w ≡ ok ((P ++ w ∷ []) ++ S)
  unfolding write_index
  write_index_again P S a v w p =
      rw append_assoc
        (write_step P (v ∷ S) (w ∷ []) a (suc a) 1 _ p (omega arith) (omega arith) refl)

  index_again :
      (P S : List ℕ) (a v : ℕ) → length P ≡ a → index {E = E} ((P ++ v ∷ []) ++ S) a ≡ ok v
  index_again P S a v p = rw append_assoc (index_middle P v S a p)

  set_option_at :
      (t : Bool) (P S : List ℕ) (a v mask : ℕ)
      → length P ≡ a
      → set_option {E = E} t ((P ++ v ∷ []) ++ S) a mask
        ≡ ok ((P ++ (if t then bit_or v mask else v) ∷ []) ++ S)
  unfolding set_option
  set_option_at true P S a v mask p =
      bind_ok _ (index_again P S a v p) (write_index_again P S a v (bit_or v mask) p)
  set_option_at false P S a v mask p = refl

  set_preview_at :
      (t : Bool) (P S : List ℕ) (a v w : ℕ)
      → length P ≡ a
      → (if t then write_index {E = E} ((P ++ v ∷ []) ++ S) a w else ok ((P ++ v ∷ []) ++ S))
        ≡ ok ((P ++ (if t then w else v) ∷ []) ++ S)
  set_preview_at true P S a v w p = write_index_again P S a v w p
  set_preview_at false P S a v w p = refl

  -- The options field ends up as one byte with the three bits.
  pub write_options_at :
      (p t f : Bool) (P buf : List ℕ) (a b : ℕ)
      → length P ≡ a
      → suc a ≡ b
      → b ≤ length buf
      → write_options {E = E} p t f (P ++ drop a buf) a
        ≡ ok ((P ++ options_byte p t f ∷ []) ++ drop b buf)
  unfolding write_options
  write_options_at p t f P buf a b h q r =
      let S = drop b buf in
      let v₁ : ℕ = if p then 128 else 0 in
      let v₂ : ℕ = if t then bit_or v₁ 64 else v₁ in
      bind_ok _ (write_index_at P buf a b 0 h q r) (
        bind_ok _ (set_preview_at p P S a 0 128 h) (
          bind_ok _ (set_option_at t P S a v₁ 64 h) (
            set_option_at f P S a v₂ 32 h
            ∙ ap (λ v. ok ((P ++ v ∷ []) ++ S)) (options_byte_lem p t f))))

-- The masks read the three options back.
pub options_bits :
    (p t f : Bool)
    → (not (bit_and (options_byte p t f) 128 == 0) ≡ p)
      × (not (bit_and (options_byte p t f) 64 == 0) ≡ t)
      × (not (bit_and (options_byte p t f) 32 == 0) ≡ f)
options_bits true true true = (refl, refl, refl)
options_bits true true false = (refl, refl, refl)
options_bits true false true = (refl, refl, refl)
options_bits true false false = (refl, refl, refl)
options_bits false true true = (refl, refl, refl)
options_bits false true false = (refl, refl, refl)
options_bits false false true = (refl, refl, refl)
options_bits false false false = (refl, refl, refl)
