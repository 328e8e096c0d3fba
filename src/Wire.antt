-- ===== src/Wire.antt =====
-- crates/oxide-spice-protocol/src/wire.rs: the checked cursor over one bounded object, and the two
-- range checks. A method that reads takes the reader as its last argument and returns it moved on.
pub mod Cursor
pub mod Bounds
pub mod Inverse
mod Runs
use oxide_spice.Common.{
  ℕ, zero, suc, ◌+◌, ◌-◌, ◌^◌, ◌≡◌, refl, Bool, Option, none, some, List, [], ◌∷◌, String, ltb,
  if◌then◌else◌, length, get_range,
}
use oxide_spice.Errors.{
  DecodeErrorKind, truncated, invalid_offset, overflow, resource_limit, DecodeError, decode_error,
  Result, ok, err, ok_or,
}
use oxide_spice.Bytes.{Bytes, ℤ, from_le, signed, checked_add, checked_mul}

pub record Reader : Type 0 where
  pub input : Bytes
  pub offset : ℕ

-- What reads from a `&mut Reader` and may fail.
abbrev pub Parser {ℓ} : Type ℓ → Type ℓ
Parser A = Reader → Result DecodeError (A × Reader)

abbrev pub and_then {ℓ κ} :
    {A : Type ℓ} {B : Type κ}
    → (A → Parser B)
    → Result DecodeError (A × Reader)
    → Result DecodeError (B × Reader)
and_then f (ok (a, r)) = f a r
and_then f (err e) = err e

infixl 5 ◌>>=◌ ◌>>◌
abbrev pub ◌>>=◌ {ℓ κ} : {A : Type ℓ} {B : Type κ} → Parser A → (A → Parser B) → Parser B
◌>>=◌ m f r = and_then f (m r)

abbrev pub ◌>>◌ {κ} : {B : Type κ} → Parser (Unit {0}) → Parser B → Parser B
m >> k = m >>= λ _. k

abbrev pub pure {ℓ} : {A : Type ℓ} → A → Parser A
pure a r = ok (a, r)

abbrev with_reader {ℓ} :
    {A : Type ℓ} → Result DecodeError A → Reader → Result DecodeError (A × Reader)
with_reader (ok a) r = ok (a, r)
with_reader (err e) r = err e

-- `e?` on a result that does not touch the reader.
abbrev pub lift {ℓ} : {A : Type ℓ} → Result DecodeError A → Parser A
lift m r = with_reader m r

-- `return Err(e)` unless the test holds.
abbrev pub require : Bool → DecodeError → Parser (Unit {0})
require b e r = if b then ok (tt, r) else err e

-- The value that a body built on a fresh reader returns.
abbrev pub result_of {ℓ} : {A : Type ℓ} → Result DecodeError (A × Reader) → Result DecodeError A
result_of (ok (a, r)) = ok a
result_of (err e) = err e

abbrev pub new : Bytes → Reader
new input = record { input = input; offset = 0 }

abbrev pub parse {ℓ} : {A : Type ℓ} → Parser A → Bytes → Result DecodeError A
parse m input = result_of (m (new input))

abbrev pub offset : Parser ℕ
offset r = ok (r.offset, r)

-- `input.len() - offset`; `-` stops at 0, where the source would underflow.
abbrev pub remaining : Parser ℕ
remaining r = ok (length r.input - r.offset, r)

unfoldable pub take : ℕ → String → Parser Bytes
take n context r = elim (checked_add r.offset n) [
  | none ↦ err (decode_error overflow r.offset context)
  | some end ↦ elim (get_range r.offset n r.input) [
    | none ↦ err (decode_error truncated r.offset context)
    | some value ↦ ok (value, record r { offset = end })
  ]
]

-- `take` returns exactly the bytes asked for, so the conversion to an array cannot fail.
unfoldable pub u8 : String → Parser ℕ
unfolding take
u8 context = do bytes ← take 1 context; pure (from_le bytes)

unfoldable pub u16 : String → Parser ℕ
unfolding take
u16 context = do bytes ← take 2 context; pure (from_le bytes)

unfoldable pub i16 : String → Parser ℤ
unfolding take
i16 context = do bytes ← take 2 context; pure (signed 16 (from_le bytes))

unfoldable pub u32 : String → Parser ℕ
unfolding take
u32 context = do bytes ← take 4 context; pure (from_le bytes)

unfoldable pub i32 : String → Parser ℤ
unfolding take
i32 context = do bytes ← take 4 context; pure (signed 32 (from_le bytes))

unfoldable pub u64 : String → Parser ℕ
unfolding take
u64 context = do bytes ← take 8 context; pure (from_le bytes)

-- A `Range<usize>`: from `start` up to `end`, without `end`.
pub record Range : Type 0 where
  pub start : ℕ
  pub end : ℕ

-- `&body[range]`, for a range that lies in the body; out of range the source would panic.
unfoldable pub slice : Bytes → Range → Bytes
slice body r = elim (get_range r.start (r.end - r.start) body) [ none ↦ [] | some bytes ↦ bytes ]

-- A u32 always fits a 64-bit usize, so the conversion of the offset cannot fail.
unfoldable pub resolve_range : Bytes → ℕ → ℕ → String → Result DecodeError Range
resolve_range body start n context = elim (checked_add start n) [
  | none ↦ err (decode_error overflow start context)
  | some end ↦
      if ltb (length body) end
      then err (decode_error invalid_offset start context)
      else ok (record { start = start; end = end })
]

unfoldable pub checked_array_bytes : ℕ → ℕ → ℕ → ℕ → String → Result DecodeError ℕ
checked_array_bytes count element_size maximum_count at context =
    if ltb maximum_count count
    then err (decode_error resource_limit at context)
    else ok_or (checked_mul count element_size) (decode_error overflow at context)
