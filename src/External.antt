-- ===== src/External.antt =====
-- The two crates that the packet code calls, as parameters: byteorder's `NetworkEndian` and `uuid`.
-- Their laws are what the crates document, at the lengths that the library passes.
use sacn_rust.Common.{ℕ, ◌+◌, ◌*◌, ◌/◌, ◌%◌, ◌<◌, ◌≡◌, List, [], ◌∷◌, Option, some, All, length}

abbrev pub IsByte : ℕ → Type 0
IsByte b = b < 256

abbrev pub IsU16 : ℕ → Type 0
IsU16 n = n < 65536

abbrev pub IsU32 : ℕ → Type 0
IsU32 n = n < 4294967296

-- Writers take the slice that they fill and return it filled.
pub record NetworkEndian : Type 0 where
  pub read_u16 : List ℕ → ℕ
  pub read_uint : List ℕ → ℕ → ℕ
  pub write_u16 : List ℕ → ℕ → List ℕ
  pub write_u32 : List ℕ → ℕ → List ℕ
  pub write_u16_into : List ℕ → List ℕ → List ℕ
  pub read_u16_lem : (a b : ℕ) → IsByte a → IsByte b → read_u16 (a ∷ b ∷ []) ≡ a * 256 + b
  pub read_uint_one : (a : ℕ) (rest : List ℕ) → IsByte a → read_uint (a ∷ rest) 1 ≡ a
  pub read_uint_four :
      (a b c d : ℕ) (rest : List ℕ)
      → All IsByte (a ∷ b ∷ c ∷ d ∷ [])
      → read_uint (a ∷ b ∷ c ∷ d ∷ rest) 4 ≡ a * 16777216 + b * 65536 + c * 256 + d
  pub write_u16_lem :
      (old : List ℕ) (n : ℕ) → length old ≡ 2 → IsU16 n → write_u16 old n ≡ n / 256 ∷ n % 256 ∷ []
  pub write_u32_lem :
      (old : List ℕ) (n : ℕ)
      → length old ≡ 4
      → IsU32 n
      → write_u32 old n ≡ n / 16777216 ∷ n / 65536 % 256 ∷ n / 256 % 256 ∷ n % 256 ∷ []
  -- `write_u16_into(src, dst)`, given here `src` first.
  pub write_u16_into-nil : write_u16_into [] [] ≡ []
  pub write_u16_into-cons :
      (n : ℕ) (src : List ℕ) (a b : ℕ) (dst : List ℕ)
      → IsU16 n
      → write_u16_into (n ∷ src) (a ∷ b ∷ dst) ≡ n / 256 ∷ n % 256 ∷ write_u16_into src dst

-- A UUID is sixteen bytes; `from_slice` takes exactly such a slice.
pub record UuidCrate (U : Type 0) : Type 0 where
  pub from_slice : List ℕ → Option U
  pub as_bytes : U → List ℕ
  pub equal : Discrete U
  pub length-as_bytes : (u : U) → length (as_bytes u) ≡ 16
  pub as_bytes-IsByte : (u : U) → All IsByte (as_bytes u)
  pub from_slice-as_bytes : (u : U) → from_slice (as_bytes u) ≡ some u
  pub as_bytes-from_slice :
      (bytes : List ℕ)
      → length bytes ≡ 16
      → All IsByte bytes
      → (u : U) × (from_slice bytes ≡ some u) × (as_bytes u ≡ bytes)
