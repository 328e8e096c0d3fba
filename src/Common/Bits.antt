-- ===== src/Common/Bits.antt =====
-- One bit of a number, and what the native `bit_and` and `bit_or` do to it.
use Prim.Native.Nat.{
  ℕ, zero, suc, ◌+◌, ◌-◌, ◌*◌, ◌/◌, ◌%◌, ◌^◌, ◌≤◌, ◌<◌, min, max, digits, bit_and, bit_or,
  bit_and-bitwise, bit_or-bitwise,
}
use mathlib.Core.Path.{◌≡◌, refl, sym, ap, ◌∙◌}
use native.Mathlib.Nat.{
  pow-suc, div-add-mod, div-div-eq-div-mul, mul_assoc, mul_comm, mul-one, div-one,
}
use native.Mathlib.Omega.{arith}
use oxide_spice.Common.Tests.{◌==◌, if◌then◌else◌}

-- `digits` gives the same result for every count that is large enough.
digits_count :
    (rest : ℕ → ℕ) (op : ℕ → ℕ → ℕ) (k l x y : ℕ)
    → x ≤ k
    → x ≤ l
    → digits rest op k x y ≡ digits rest op l x y
digits_count rest op zero zero x y hk hl = refl
digits_count rest op zero (suc l) zero y hk hl = refl
digits_count rest op (suc k) zero zero y hk hl = refl
digits_count rest op (suc k) (suc l) zero y hk hl = refl
digits_count rest op zero l (suc x) y hk hl = absurd (omega arith)
digits_count rest op (suc k) zero (suc x) y hk hl = absurd (omega arith)
digits_count rest op (suc k) (suc l) (suc x) y hk hl =
    omega (arith, digits_count rest op k l (suc x / 2) (y / 2) (omega arith) (omega arith))

zero-bit_and : (y : ℕ) → bit_and 0 y ≡ 0
zero-bit_and y = bit_and-bitwise 0 y

zero-bit_or : (y : ℕ) → bit_or 0 y ≡ y
zero-bit_or y = bit_or-bitwise 0 y

and_low : (x y : ℕ) → bit_and x y ≡ bit_and (x / 2) (y / 2) * 2 + min (x % 2) (y % 2)
and_low zero y = omega (arith, zero-bit_and y, zero-bit_and (y / 2))
and_low (suc x) y = omega (
  arith,
  bit_and-bitwise (suc x) y,
  bit_and-bitwise (suc x / 2) (y / 2),
  digits_count (λ b. 0) min x (suc x / 2) (suc x / 2) (y / 2) (omega arith) (omega arith),
)

or_low : (x y : ℕ) → bit_or x y ≡ bit_or (x / 2) (y / 2) * 2 + max (x % 2) (y % 2)
or_low zero y = omega (arith, zero-bit_or y, zero-bit_or (y / 2))
or_low (suc x) y = omega (
  arith,
  bit_or-bitwise (suc x) y,
  bit_or-bitwise (suc x / 2) (y / 2),
  digits_count (λ b. b) max x (suc x / 2) (suc x / 2) (y / 2) (omega arith) (omega arith),
)

-- Bit `k` of `a`, as 0 or 1.
unfoldable pub bit : ℕ → ℕ → ℕ
bit zero a = a % 2
bit (suc k) a = bit k (a / 2)

pub bit-le_one : (k a : ℕ) → bit k a ≤ 1
unfolding bit
bit-le_one zero a = omega arith
bit-le_one (suc k) a = bit-le_one k (a / 2)

pub bit-zero : (k : ℕ) → bit k 0 ≡ 0
unfolding bit
bit-zero zero = refl
bit-zero (suc k) = bit-zero k

and_zero_upto : (n x : ℕ) → x ≤ n → bit_and x 0 ≡ 0
and_zero_upto n zero h = refl
and_zero_upto zero (suc x) h = absurd (omega arith)
and_zero_upto (suc n) (suc x) h =
    omega (arith, and_low (suc x) 0, and_zero_upto n (suc x / 2) (omega arith))

or_zero_upto : (n x : ℕ) → x ≤ n → bit_or x 0 ≡ x
or_zero_upto n zero h = refl
or_zero_upto zero (suc x) h = absurd (omega arith)
or_zero_upto (suc n) (suc x) h =
    omega (arith, or_low (suc x) 0, or_zero_upto n (suc x / 2) (omega arith))

pub pow_pos : (k : ℕ) → 0 < 2 ^ k
pow_pos zero = omega arith
pow_pos (suc k) = omega (arith, pow-suc 2 k, pow_pos k)

-- The remainder by `2 m` in terms of the last bit and the remainder of the half.
low_split : (m a : ℕ) → 0 < m → a % (m * 2) ≡ a / 2 % m * 2 + a % 2
low_split m a h =
    omega (arith, div-add-mod a (m * 2), div-add-mod (a / 2) m, ap (λ (t : ℕ). m * t) same_quotient)
  where
    same_quotient : a / 2 / m ≡ a / (m * 2)
    same_quotient = div-div-eq-div-mul a 2 m ∙ ap (λ (t : ℕ). a / t) (mul_comm 2 m)

double : (k : ℕ) → 2 ^ suc k ≡ 2 ^ k * 2
double k = pow-suc 2 k

halved : (k : ℕ) → 2 ^ suc k / 2 ≡ 2 ^ k
halved k = omega (arith, double k)

and_pow_half : (k a : ℕ) → bit_and (a / 2) (2 ^ suc k / 2) ≡ bit_and (a / 2) (2 ^ k)
and_pow_half k a = ap (bit_and (a / 2)) (halved k)

or_pow_half : (k a : ℕ) → bit_or (a / 2) (2 ^ suc k / 2) ≡ bit_or (a / 2) (2 ^ k)
or_pow_half k a = ap (bit_or (a / 2)) (halved k)

or_half : (x y : ℕ) → bit_or x y / 2 ≡ bit_or (x / 2) (y / 2)
or_half x y = omega (arith, or_low x y)

-- `a & (1 << k)` is nonzero exactly when bit `k` is set.
pub bit_and-pow : (k a : ℕ) → bit_and a (2 ^ k) ≡ bit k a * 2 ^ k
unfolding bit
bit_and-pow zero a = omega (arith, and_low a 1, and_zero_upto (a / 2) (a / 2))
bit_and-pow (suc k) a = omega (
  arith,
  and_low a (2 ^ suc k),
  and_pow_half k a,
  double k,
  bit_and-pow k (a / 2),
  ap (λ (t : ℕ). bit k (a / 2) * t) (double k),
)

-- `a | (1 << k)` sets bit `k` and leaves the others.
pub bit-bit_or-pow : (j k a : ℕ) → bit j (bit_or a (2 ^ k)) ≡ (if k == j then 1 else bit j a)
unfolding bit
bit-bit_or-pow zero zero a = omega (arith, or_low a 1)
bit-bit_or-pow (suc j) zero a =
    ap (bit j) (or_half a 1 ∙ or_zero_upto (a / 2) (a / 2) (omega arith)) ∙ ground arith
bit-bit_or-pow zero (suc k) a = ground (arith, or_low a (2 ^ suc k), double k)
bit-bit_or-pow (suc j) (suc k) a =
    ap (bit j) (or_half a (2 ^ suc k) ∙ or_pow_half k a) ∙ bit-bit_or-pow j k (a / 2) ∙ ground arith

pub bit_or-lt : (n a b : ℕ) → a < 2 ^ n → b < 2 ^ n → bit_or a b < 2 ^ n
bit_or-lt zero zero zero ha hb = omega arith
bit_or-lt zero (suc a) b ha hb = absurd (omega arith)
bit_or-lt zero a (suc b) ha hb = absurd (omega arith)
bit_or-lt (suc n) a b ha hb = omega (
  arith,
  or_low a b,
  double n,
  bit_or-lt n (a / 2) (b / 2) (omega (arith, double n)) (omega (arith, double n)),
)

-- `a & (2 ^ n - 1)` keeps the low bits.
pub bit_and-ones : (n a : ℕ) → bit_and a (2 ^ n - 1) ≡ a % 2 ^ n
bit_and-ones zero a = omega (arith, and_zero_upto a a)
bit_and-ones (suc n) a = omega (
  arith,
  and_low a (2 ^ suc n - 1),
  ap (bit_and (a / 2)) half_ones,
  double n,
  pow_pos n,
  bit_and-ones n (a / 2),
  low_split (2 ^ n) a (pow_pos n),
  ap (λ (t : ℕ). a % t) (double n),
)
  where
    half_ones : (2 ^ suc n - 1) / 2 ≡ 2 ^ n - 1
    half_ones = omega (arith, double n, pow_pos n)

-- A mask whose low `k` bits are clear looks at the bits from `k` on.
pub bit_and-shifted : (k m a : ℕ) → bit_and a (m * 2 ^ k) ≡ bit_and (a / 2 ^ k) m * 2 ^ k
bit_and-shifted zero m a = rw (mul-one m, div-one a) (sym (mul-one (bit_and a m)))
bit_and-shifted (suc k) m a = omega (
  arith,
  and_low a (m * 2 ^ suc k),
  ap (bit_and (a / 2)) half_mask,
  ap (λ (t : ℕ). m * t) (double k),
  bit_and-shifted k m (a / 2),
  ap (λ (t : ℕ). bit_and t m * 2 ^ suc k) quotients,
  ap (λ (t : ℕ). bit_and (a / 2 / 2 ^ k) m * t) (double k),
)
  where
    half_mask : m * 2 ^ suc k / 2 ≡ m * 2 ^ k
    half_mask = omega (arith, ap (λ (t : ℕ). m * t) (double k))

    quotients : a / 2 / 2 ^ k ≡ a / 2 ^ suc k
    quotients = div-div-eq-div-mul a 2 (2 ^ k) ∙ ap (λ (t : ℕ). a / t) (omega (arith, double k))

zero_right : (k a : ℕ) → a ≤ k → bit_or a 0 ≡ a
zero_right k zero h = zero-bit_or 0
zero_right zero (suc a) h = absurd (omega arith)
zero_right (suc k) (suc a) h =
    omega (arith, or_low (suc a) 0, zero_right k (suc a / 2) (omega arith))

pub bit_or-zero : (a : ℕ) → bit_or a 0 ≡ a
bit_or-zero a = zero_right a a (omega arith)

or_zero_half : (a : ℕ) → bit_or (a / 2) (1 / 2) ≡ a / 2
or_zero_half a = zero_right (a / 2) (a / 2) (omega arith)

-- Setting a bit adds its weight unless it was set.
pub bit_or-pow_sum : (k a : ℕ) → bit_or a (2 ^ k) + bit k a * 2 ^ k ≡ a + 2 ^ k
unfolding bit
bit_or-pow_sum zero a = omega (arith, or_low a 1, or_zero_half a)
bit_or-pow_sum (suc k) a = omega (
  arith,
  or_low a (2 ^ suc k),
  or_pow_half k a,
  double k,
  bit_or-pow_sum k (a / 2),
  mul_assoc (bit k (a / 2)) (2 ^ k) 2,
  ap (λ (t : ℕ). bit k (a / 2) * t) (double k),
)
