-- ===== src/Tests/Instances.antt =====
-- Concrete instances of the interfaces: big-endian numbers, UUIDs as lists of sixteen bytes, and a
-- socket whose calls all succeed.
use mathlib.Core.HLevel.{hedberg, Σ_prop_path, ×_prop}
use mathlib.Core.List.{List-discrete}
use native.Mathlib.Bridge.{le_prop}
use sacn_rust.Common.{
  ℕ, zero, suc, ◌+◌, ◌*◌, ◌/◌, ◌%◌, ◌≡◌, refl, ap, List, [], ◌∷◌, Option, some, none, All, length,
  arith, ok, ℕ_discrete, dec_lt, replicate, length-replicate,
}
use sacn_rust.External.{IsByte, NetworkEndian, UuidCrate}
use sacn_rust.Receive.Network.{SocketCalls}

abbrev pub read_u16 : List ℕ → ℕ
read_u16 (a ∷ b ∷ rest) = a * 256 + b
read_u16 _ = 0

unfoldable pub read_uint : ℕ → List ℕ → ℕ → ℕ
read_uint acc [] n = acc
read_uint acc (x ∷ xs) zero = acc
read_uint acc (x ∷ xs) (suc n) = read_uint (acc * 256 + x) xs n

abbrev pub write_u16_into : List ℕ → List ℕ → List ℕ
write_u16_into [] dst = []
write_u16_into (n ∷ src) (a ∷ b ∷ dst) = n / 256 ∷ n % 256 ∷ write_u16_into src dst
write_u16_into (n ∷ src) _ = []

read_uint_one : (a : ℕ) (rest : List ℕ) → IsByte a → read_uint 0 (a ∷ rest) 1 ≡ a
unfolding read_uint
read_uint_one a [] h = omega arith
read_uint_one a (x ∷ rest) h = omega arith

read_uint_four :
    (a b c d : ℕ) (rest : List ℕ)
    → All IsByte (a ∷ b ∷ c ∷ d ∷ [])
    → read_uint 0 (a ∷ b ∷ c ∷ d ∷ rest) 4 ≡ a * 16777216 + b * 65536 + c * 256 + d
unfolding read_uint
read_uint_four a b c d [] h = omega arith
read_uint_four a b c d (x ∷ rest) h = omega arith

instance pub big_endian : NetworkEndian
big_endian = record {
  read_u16 = read_u16;
  read_uint = read_uint 0;
  write_u16 = λ old n. n / 256 ∷ n % 256 ∷ [];
  write_u32 = λ old n. n / 16777216 ∷ n / 65536 % 256 ∷ n / 256 % 256 ∷ n % 256 ∷ [];
  write_u16_into = write_u16_into;
  read_u16_lem = λ a b ha hb. refl;
  read_uint_one = read_uint_one;
  read_uint_four = read_uint_four;
  write_u16_lem = λ old n h k. refl;
  write_u32_lem = λ old n h k. refl;
  write_u16_into-nil = refl;
  write_u16_into-cons = λ n src a b dst h. refl;
}

-- A UUID.
abbrev pub IsUuid : List ℕ → Type 0
IsUuid bytes = (length bytes ≡ 16) × All IsByte bytes

abbrev pub Uuid : Type 0
Uuid = (bytes : List ℕ) × IsUuid bytes

All-IsByte-prop : (bytes : List ℕ) → IsProp (All IsByte bytes)
All-IsByte-prop [] = λ x y. refl
All-IsByte-prop (b ∷ bytes) = ×_prop le_prop (All-IsByte-prop bytes)

IsUuid-prop : (bytes : List ℕ) → IsProp (IsUuid bytes)
IsUuid-prop bytes = ×_prop (hedberg ℕ_discrete (length bytes) 16) (All-IsByte-prop bytes)

all_bytes : (bytes : List ℕ) → Dec (All IsByte bytes)
all_bytes [] = yes tt
all_bytes (b ∷ bytes) = elim (dec_lt b 256) [
  | yes h ↦ elim (all_bytes bytes) [ yes k ↦ yes (h, k) | no k ↦ no λ x. k (x.1) ]
  | no h ↦ no λ x. h (x.0)
]

is_uuid : (bytes : List ℕ) → Dec (IsUuid bytes)
is_uuid bytes = elim (ℕ_discrete (length bytes) 16) [
  | yes h ↦ elim (all_bytes bytes) [ yes k ↦ yes (h, k) | no k ↦ no λ x. k (x.1) ]
  | no h ↦ no λ x. h (x.0)
]

abbrev from_dec : (bytes : List ℕ) → Dec (IsUuid bytes) → Option Uuid
from_dec bytes (yes h) = some (bytes, h)
from_dec bytes (no h) = none

from_dec-yes :
    (bytes : List ℕ) (d : Dec (IsUuid bytes)) (h : IsUuid bytes)
    → from_dec bytes d ≡ some (bytes, h)
from_dec-yes bytes (yes k) h = ap some (Σ_prop_path IsUuid-prop refl)
from_dec-yes bytes (no n) h = elim (n h) [ ]

Uuid_discrete : Discrete Uuid
Uuid_discrete u v = elim (List-discrete ℕ_discrete (u.0) (v.0)) [
  | yes e ↦ yes (Σ_prop_path IsUuid-prop e)
  | no n ↦ no λ e. n (ap (λ w. w.0) e)
]

instance pub uuid_crate : UuidCrate Uuid
uuid_crate = record {
  from_slice = λ bytes. from_dec bytes (is_uuid bytes);
  as_bytes = λ u. u.0;
  equal = Uuid_discrete;
  length-as_bytes = λ u. u.1.0;
  as_bytes-IsByte = λ u. u.1.1;
  from_slice-as_bytes = λ u. from_dec-yes (u.0) (is_uuid (u.0)) (u.1);
  as_bytes-from_slice =
      λ bytes l h. ((bytes, (l, h)), from_dec-yes bytes (is_uuid bytes) (l, h), refl);
}

pub All-replicate : (n b : ℕ) → IsByte b → All IsByte (replicate n b)
All-replicate zero b h = tt
All-replicate (suc n) b h = (h, All-replicate n b h)

-- The UUID of sixteen equal bytes.
abbrev pub uuid_of : (b : ℕ) → IsByte b → Uuid
uuid_of b h = (replicate 16 b, (length-replicate 16 b, All-replicate 16 b h))

instance abbrev pub open_socket : SocketCalls (Unit {0})
open_socket = record {
  join_multicast_v4 = λ group interface_v4 s. (ok tt, s);
  join_multicast_v6 = λ group s. (ok tt, s);
  leave_multicast_v4 = λ group interface_v4 s. (ok tt, s);
  leave_multicast_v6 = λ group s. (ok tt, s);
}
