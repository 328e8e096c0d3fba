-- ===== src/Bytes.antt =====
-- Bytes, the little-endian forms of the fixed-width integers (`to_le_bytes`, `from_le_bytes`) and
-- the checked arithmetic of a 64-bit `usize`, as the source uses them.
use oxide_spice.Common.{
  ℕ, Bool, zero, suc, ◌+◌, ◌-◌, ◌*◌, ◌/◌, ◌%◌, ◌^◌, ◌<◌, ◌≡◌, refl, ap, arith, Option, none, some,
  List, [], ◌∷◌, ltb, if◌then◌else◌, length, All,
}

abbrev pub Bytes : Type 0
Bytes = List ℕ

abbrev pub IsByte : ℕ → Type 0
IsByte b = b < 256

abbrev pub IsU16 : ℕ → Type 0
IsU16 v = v < 2 ^ 16

abbrev pub IsU32 : ℕ → Type 0
IsU32 v = v < 2 ^ 32

abbrev pub IsU64 : ℕ → Type 0
IsU64 v = v < 2 ^ 64

abbrev pub to_le : ℕ → ℕ → Bytes
to_le zero v = []
to_le (suc n) v = v % 256 ∷ to_le n (v / 256)

abbrev pub from_le : Bytes → ℕ
from_le [] = 0
from_le (b ∷ bs) = b + 256 * from_le bs

-- Signed integers: `negsuc n` is -(n + 1).
pub data ℤ : Type 0 where
  pos : ℕ → ℤ
  negsuc : ℕ → ℤ

-- The integer that a pattern of `bits` bits stands for in two's complement.
abbrev pub signed : ℕ → ℕ → ℤ
signed bits v = if ltb v (2 ^ (bits - 1)) then pos v else negsuc (2 ^ bits - v - 1)

infixl 20 ◌+ℤ◌
abbrev pub ◌+ℤ◌ : ℤ → ℤ → ℤ
pos m +ℤ pos n = pos (m + n)
pos m +ℤ negsuc n = if ltb n m then pos (m - (n + 1)) else negsuc (n - m)
negsuc m +ℤ pos n = if ltb m n then pos (n - (m + 1)) else negsuc (m - n)
negsuc m +ℤ negsuc n = negsuc (m + n + 1)

-- The `bits`-bit pattern of a signed integer in its range.
abbrev pub pattern_of : ℕ → ℤ → ℕ
pattern_of bits (pos n) = n
pattern_of bits (negsuc n) = 2 ^ bits - (n + 1)

abbrev pub is_i32 : ℤ → Bool
is_i32 (pos n) = ltb n (2 ^ 31)
is_i32 (negsuc n) = ltb n (2 ^ 31)

-- `checked_add` on an i32.
abbrev pub checked_add_i32 : ℤ → ℤ → Option ℤ
checked_add_i32 a b = if is_i32 (a +ℤ b) then some (a +ℤ b) else none

-- One past `usize::MAX`.
abbrev pub usize_mod : ℕ
usize_mod = 2 ^ 64

abbrev pub checked_add : ℕ → ℕ → Option ℕ
checked_add a b = if ltb (a + b) usize_mod then some (a + b) else none

abbrev pub checked_mul : ℕ → ℕ → Option ℕ
checked_mul a b = if ltb (a * b) usize_mod then some (a * b) else none

-- `u32::try_from` on a usize.
abbrev pub try_u32 : ℕ → Option ℕ
try_u32 n = if ltb n (2 ^ 32) then some n else none

pub length-to_le : (n v : ℕ) → length (to_le n v) ≡ n
length-to_le zero v = refl
length-to_le (suc n) v = ap suc (length-to_le n (v / 256))

pub to_le-IsByte : (n v : ℕ) → All IsByte (to_le n v)
to_le-IsByte zero v = tt
to_le-IsByte (suc n) v = (omega arith, to_le-IsByte n (v / 256))

pub from_le-to_le_16 : (v : ℕ) → IsU16 v → from_le (to_le 2 v) ≡ v
from_le-to_le_16 v h = omega arith

pub from_le-to_le_32 : (v : ℕ) → IsU32 v → from_le (to_le 4 v) ≡ v
from_le-to_le_32 v h = omega arith

pub from_le-to_le_64 : (v : ℕ) → IsU64 v → from_le (to_le 8 v) ≡ v
from_le-to_le_64 v h = omega arith

pub from_le-lt_32 :
    (a b c d : ℕ) → IsByte a → IsByte b → IsByte c → IsByte d → IsU32 (from_le (a ∷ b ∷ c ∷ d ∷ []))
from_le-lt_32 a b c d ha hb hc hd = omega arith

low_byte : (b v : ℕ) → IsByte b → (b + 256 * v) % 256 ≡ b
low_byte b v h = omega arith

high_bytes : (b v : ℕ) → IsByte b → (b + 256 * v) / 256 ≡ v
high_bytes b v h = omega arith

-- Bytes read as an integer and written back at the same width.
pub to_le-from_le : (bs : Bytes) → All IsByte bs → to_le (length bs) (from_le bs) ≡ bs
to_le-from_le [] h = refl
to_le-from_le (b ∷ bs) (hb, hbs) =
    ground (arith, to_le-from_le bs hbs, low_byte b (from_le bs) hb, high_bytes b (from_le bs) hb)
