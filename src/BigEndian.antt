-- ===== src/BigEndian.antt =====
-- The readers of crates/oxide-spice-codecs/src/lz.rs and glz.rs: a reader is the bytes that it has not
-- read, and a method returns what is left.
pub mod Inverse
use oxide_spice.Common.{ℕ, ◌+◌, ◌*◌, Bool, Option, none, some, [], ◌∷◌, if◌then◌else◌}
use oxide_spice.Errors.{Result, ok, err}
use oxide_spice.Bytes.{Bytes}

-- What reads from the bytes that are left and may fail with an `E`.
abbrev pub Decoder {ℓ} : Type 0 → Type ℓ → Type ℓ
Decoder E A = Bytes → Result E (A × Bytes)

module _ {ℓ κ} {E : Type 0} {A : Type ℓ} {B : Type κ} where
  abbrev pub and_then : (A → Decoder E B) → Result E (A × Bytes) → Result E (B × Bytes)
  and_then f (ok (a, input)) = f a input
  and_then f (err e) = err e

infixl 5 ◌>>=◌ ◌>>◌
abbrev pub ◌>>=◌ {ℓ κ} :
    {E : Type 0} {A : Type ℓ} {B : Type κ} → Decoder E A → (A → Decoder E B) → Decoder E B
◌>>=◌ m f input = and_then f (m input)

abbrev pub ◌>>◌ {κ} : {E : Type 0} {B : Type κ} → Decoder E (Unit {0}) → Decoder E B → Decoder E B
m >> k = m >>= λ _. k

abbrev pub pure {ℓ} : {E : Type 0} {A : Type ℓ} → A → Decoder E A
pure a input = ok (a, input)

-- `return Err(e)` unless the test holds.
abbrev pub require : {E : Type 0} → Bool → E → Decoder E (Unit {0})
require b e input = if b then ok (tt, input) else err e

-- `ok_or_else(e)?`
abbrev pub or_fail {ℓ} : {E : Type 0} {A : Type ℓ} → Option A → E → Decoder E A
or_fail none e input = err e
or_fail (some a) e input = ok (a, input)

-- `e?` on a result that does not read.
abbrev pub lift {ℓ} : {E : Type 0} {A : Type ℓ} → Result E A → Decoder E A
lift (ok a) input = ok (a, input)
lift (err e) input = err e

-- `from_be_bytes`, on top of the bytes that came before.
abbrev pub from_be : ℕ → Bytes → ℕ
from_be high [] = high
from_be high (b ∷ bs) = from_be (high * 256 + b) bs
