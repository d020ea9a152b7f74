-- ===== src/Packet/Name.antt =====
-- Source names: 64 bytes of UTF-8, padded with zeros. A `str` is the list of its bytes.
pub mod Field
use sacn_rust.Common.{
  ℕ, zero, suc, ◌+◌, ◌-◌, not, Bool, true, false, ◌&&◌, List, [], ◌∷◌, Option, none, some, Outcome,
  ok, err, ◌>>=◌, ◌>>◌, refuse_if, if◌then◌else◌, ltb, leb, ◌==◌, length,
}
use sacn_rust.Error.{SacnError, sacn_parse_pack_error, source_name_not_null_terminated, str, Result}
use sacn_rust.Packet.Constants.{e131_source_name_field_length}
use sacn_rust.Packet.Buffer.{slice, index, write_slice, copy_from_slice, zeros}
use sacn_rust.Packet.Universe.{contains}

-- The ranges of the bytes that must follow the first byte of a character (Unicode, table 3-7).
abbrev tail_range : ℕ × ℕ
tail_range = (0x80, 0xbf)

followers : ℕ → Option (List (ℕ × ℕ))
followers b =
    if ltb b 0x80
    then some []
    else if contains 0xc2 0xdf b
    then some (tail_range ∷ [])
    else if b == 0xe0
    then some ((0xa0, 0xbf) ∷ tail_range ∷ [])
    else if b == 0xed
    then some ((0x80, 0x9f) ∷ tail_range ∷ [])
    else if contains 0xe1 0xef b
    then some (tail_range ∷ tail_range ∷ [])
    else if b == 0xf0
    then some ((0x90, 0xbf) ∷ tail_range ∷ tail_range ∷ [])
    else if contains 0xf1 0xf3 b
    then some (tail_range ∷ tail_range ∷ tail_range ∷ [])
    else if b == 0xf4
    then some ((0x80, 0x8f) ∷ tail_range ∷ tail_range ∷ [])
    else none

utf8_after : List (ℕ × ℕ) → List ℕ → Bool
unfolding followers
utf8_after [] [] = true
utf8_after (range ∷ ranges) [] = false
utf8_after [] (b ∷ rest) = elim (followers b) [
  | none ↦ false
  | some ranges ↦ utf8_after ranges rest
]
utf8_after ((lo, hi) ∷ ranges) (b ∷ rest) = contains lo hi b && utf8_after ranges rest

-- The test of `str::from_utf8`.
unfoldable pub is_utf8 : List ℕ → Bool
unfolding utf8_after
is_utf8 bytes = utf8_after [] bytes

-- The `for` loop of `parse_source_name_str`: the index of the first zero, or the length.
unfoldable pub source_name_length : List ℕ → ℕ
source_name_length [] = 0
source_name_length (b ∷ rest) = if b == 0 then 0 else suc (source_name_length rest)

module _ {U : Type 0} where
  unfoldable pub from_utf8 : List ℕ → Result U (List ℕ)
  from_utf8 bytes = if is_utf8 bytes then ok bytes else err str

  unfoldable pub parse_source_name_str : List ℕ → Result U (List ℕ)
  unfolding slice index from_utf8 source_name_length
  parse_source_name_str buf = do
    let n = source_name_length buf
    (if n == length buf
        then (do
          last ← index buf (length buf - 1)
          refuse_if (not (last == 0)) (sacn_parse_pack_error source_name_not_null_terminated))
        else ok tt)
    name ← slice buf 0 n
    from_utf8 name

module _ {E : Type 0} where
  -- The field `buf[a .. b]` is zeroed, and the name is copied to its start.
  unfoldable pub write_source_name : List ℕ → ℕ → ℕ → List ℕ → Outcome E (List ℕ)
  write_source_name buf a b name = do
    buf₁ ← write_slice buf a b (λ old. ok (zeros old e131_source_name_field_length))
    write_slice buf₁ a (a + length name) (λ old. copy_from_slice old name)
