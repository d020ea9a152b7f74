-- ===== src/Packet/Name/Field.antt =====
-- The name field in plain bytes: what is written, and which names are read back.
use sacn_rust.Common.{
  ℕ, zero, suc, ◌+◌, ◌-◌, ◌≤◌, ◌<◌, ◌≡◌, ◌≢◌, refl, ap, ◌∙◌, true, false, List, [], ◌∷◌, ◌++◌,
  arith, tests, ok, err, bind_ok, ◌==◌, length, take, drop, replicate, All, length-append,
  length-take, length-replicate, append_assoc, append-nil, ne→==, ==_refl,
}
use sacn_rust.Error.{SacnError, sacn_parse_pack_error, source_name_not_null_terminated}
use sacn_rust.Packet.Buffer.{index, write_slice, copy_from_slice}
use sacn_rust.Packet.Buffer.Slices.{slice_all}
use sacn_rust.Packet.Buffer.Writes.{zeros_at, write_step, copy_from_slice_lem}
use sacn_rust.Packet.Name.{is_utf8, source_name_length, parse_source_name_str, write_source_name}

-- The field that holds a name: the name and the zeros behind it, 64 bytes together.
pub name_field : List ℕ → List ℕ
name_field name = name ++ replicate (64 - length name) 0

-- No byte of the name is zero.
abbrev pub NoZero : List ℕ → Type 0
NoZero name = All (λ b. b ≢ 0) name

zero_pad : ℕ → List ℕ
zero_pad m = replicate m 0

length-zero_pad : (m : ℕ) → length (zero_pad m) ≡ m
unfolding zero_pad
length-zero_pad m = length-replicate m zero

pub length-name_field : (name : List ℕ) → length name ≤ 64 → length (name_field name) ≡ 64
unfolding name_field zero_pad
length-name_field name h =
    omega
      (arith, length-append name (zero_pad (64 - length name)), length-zero_pad (64 - length name))

drop-zero_pad :
    (n m : ℕ) (rest : List ℕ) → n ≤ m → drop n (zero_pad m ++ rest) ≡ zero_pad (m - n) ++ rest
unfolding zero_pad
drop-zero_pad zero m rest h = ap (λ k. replicate k 0 ++ rest) (omega arith)
drop-zero_pad (suc n) zero rest h = absurd (omega arith)
drop-zero_pad (suc n) (suc m) rest h =
    drop-zero_pad n m rest (omega arith) ∙ ap (λ k. replicate k 0 ++ rest) (omega arith)

module _ {E : Type 0} where
  -- A name copied over the start of `m` zeros.
  copy_over_zeros :
      (P R name : List ℕ) (a m : ℕ)
      → length P ≡ a
      → length name ≤ m
      → write_slice {E = E}
          ((P ++ zero_pad m) ++ R)
          a
          (a + length name)
          (λ old. copy_from_slice old name)
        ≡ ok ((P ++ (name ++ zero_pad (m - length name))) ++ R)
  copy_over_zeros P R name a m p h =
      let S : List ℕ = zero_pad m ++ R in
      let room : length S ≡ m + length R =
        omega (arith, length-append (zero_pad m) R, length-zero_pad m) in
      rw (append_assoc P (zero_pad m) R) (
        write_step P S name a (a + length name) (length name) _ p refl (omega arith) (
          copy_from_slice_lem (take (length name) S) name
            (omega (arith, length-take (length name) S)))
        ∙ ap ok (rw (drop-zero_pad (length name) m R h) (simp append_assoc)))

  -- The field is written whole, behind `P` and up to `b`.
  pub write_source_name_at :
      (P buf name : List ℕ) (a b : ℕ)
      → length P ≡ a
      → a + 64 ≡ b
      → b ≤ length buf
      → length name ≤ 64
      → write_source_name {E = E} (P ++ drop a buf) a b name
        ≡ ok ((P ++ name_field name) ++ drop b buf)
  unfolding write_source_name name_field
  write_source_name_at P buf name a b p q r h =
      bind_ok _ (zeros_at P buf a b 64 p q r)
        (unfold zero_pad in copy_over_zeros P (drop b buf) name a 64 p h)

source_name_length-append :
    (name : List ℕ) (m : ℕ)
    → NoZero name
    → source_name_length (name ++ replicate (suc m) 0) ≡ length name
unfolding source_name_length
source_name_length-append [] m z = refl
source_name_length-append (b ∷ name) m z = rw (ne→== b 0 z.0, source_name_length-append name m z.1)

source_name_length-NoZero : (name : List ℕ) → NoZero name → source_name_length name ≡ length name
unfolding source_name_length
source_name_length-NoZero [] z = refl
source_name_length-NoZero (b ∷ name) z = rw (ne→== b 0 z.0, source_name_length-NoZero name z.1)

module _ {U : Type 0} where
  last_byte :
      (b : ℕ) (name : List ℕ)
      → NoZero (b ∷ name)
      → (v : ℕ) × (index {E = SacnError U} (b ∷ name) (length name) ≡ ok v) × (v ≢ 0)
  unfolding index
  last_byte b [] z = (b, refl, z.0)
  last_byte b (c ∷ name) z = last_byte c name z.1

  padded_name :
      (name : List ℕ) (m : ℕ)
      → NoZero name
      → is_utf8 name ≡ true
      → parse_source_name_str {U = U} (name ++ replicate (suc m) 0) ≡ ok name
  unfolding parse_source_name_str
  padded_name name m z u =
      let n = length name in
      let pad : List ℕ = replicate (suc m) 0 in
      let short : (n == length (name ++ pad)) ≡ false = omega (tests, length-append name pad) in
      rw (source_name_length-append name m z, short, slice_all {E = SacnError U} name pad n refl, u)

  -- A name below 64 bytes, with no zero in it, is read back.
  pub parse_source_name_str-name_field :
      (name : List ℕ)
      → length name < 64
      → NoZero name
      → is_utf8 name ≡ true
      → parse_source_name_str {U = U} (name_field name) ≡ ok name
  unfolding name_field
  parse_source_name_str-name_field name h z u =
      let e : 64 - length name ≡ suc (63 - length name) = omega arith in
      rw e (padded_name name (63 - length name) z u)

  unterminated_name :
      (b : ℕ) (name : List ℕ)
      → NoZero (b ∷ name)
      → parse_source_name_str {U = U} (b ∷ name)
        ≡ err (sacn_parse_pack_error source_name_not_null_terminated)
  unfolding parse_source_name_str
  unterminated_name b name z =
      let (v, e, nonzero) = last_byte b name z in
      let last : suc (length name) - 1 ≡ length name = omega arith in
      rw (
        source_name_length-NoZero (b ∷ name) z,
        ==_refl (suc (length name)),
        last,
        e,
        ne→== v 0 nonzero,
      )

  -- `parse_source_name_str` refuses a name field that is filled by a name of 64 bytes, none of them
  -- zero, with `SourceNameNotNullTerminated`.
  pub parse_source_name_str_full :
      (name : List ℕ)
      → length name ≡ 64
      → NoZero name
      → parse_source_name_str {U = U} (name_field name)
        ≡ err (sacn_parse_pack_error source_name_not_null_terminated)
  unfolding name_field
  parse_source_name_str_full [] h z = absurd (omega arith)
  parse_source_name_str_full (b ∷ name) h z =
      let e : 64 - suc (length name) ≡ 0 = omega arith in
      rw (e, append-nil) (unterminated_name b name z)
