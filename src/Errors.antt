-- ===== src/Errors.antt =====
-- crates/oxide-spice-protocol/src/error.rs, and the result type that its `Result<_, DecodeError>`
-- stands for. A context is the static text of the source.
use oxide_spice.Common.{ℕ, String, ◌≡◌, refl, Bool, true, false, Option, none, some}

pub data DecodeErrorKind : Type 0 where
  truncated invalid_value overflow resource_limit invalid_offset unsupported : DecodeErrorKind

pub record DecodeError : Type 0 where
  pub kind : DecodeErrorKind
  pub offset : ℕ
  pub context : String

-- `DecodeError::new`.
abbrev pub decode_error : DecodeErrorKind → ℕ → String → DecodeError
decode_error k o c = record { kind = k; offset = o; context = c }

pub data Result {ℓ κ} (E : Type ℓ) (A : Type κ) : Type (ℓ ⊔ κ) where
  ok : A → Result E A
  err : E → Result E A

infixl 5 ◌>>=◌ ◌>>◌
abbrev pub ◌>>=◌ {ℓ κ μ} :
    {E : Type ℓ} {A : Type κ} {B : Type μ} → Result E A → (A → Result E B) → Result E B
ok a >>= f = f a
err e >>= f = err e

abbrev pub ◌>>◌ {ℓ κ} : {E : Type ℓ} {B : Type κ} → Result E (Unit {0}) → Result E B → Result E B
m >> k = m >>= λ _. k

-- `ok_or`, and an early return of an error.
abbrev pub ok_or {ℓ κ} : {E : Type ℓ} {A : Type κ} → Option A → E → Result E A
ok_or none e = err e
ok_or (some a) e = ok a

abbrev pub ensure {ℓ} : {E : Type ℓ} → Bool → E → Result E (Unit {0})
ensure true e = ok tt
ensure false e = err e

-- `map_err`, which is also what `?` does between two error types.
abbrev pub map_err {ℓ κ μ} :
    {E : Type ℓ} {F : Type κ} {A : Type μ} → (E → F) → Result E A → Result F A
map_err f (ok a) = ok a
map_err f (err e) = err (f e)

pub ok-injective {ℓ κ} :
    {E : Type ℓ} {A : Type κ} {a b : A} → ◌≡◌ {A = Result E A} (ok a) (ok b) → a ≡ b
ok-injective e = cc

pub err-injective {ℓ κ} :
    {E : Type ℓ} {A : Type κ} {a b : E} → ◌≡◌ {A = Result E A} (err a) (err b) → a ≡ b
err-injective e = cc

-- Inversion of a successful bind.
pub >>=-eq-ok {ℓ κ μ} :
    {E : Type ℓ} {A : Type κ} {B : Type μ} (first : Result E A) (next : A → Result E B) {last : B}
    → (first >>= next) ≡ ok last
    → (found : A) × (first ≡ ok found) × (next found ≡ ok last)
>>=-eq-ok (err failed) next h = cc
>>=-eq-ok (ok found) next h = (found, refl, h)

pub ensure-eq-ok {ℓ κ} :
    {E : Type ℓ} {B : Type κ} (t : Bool) (e : E) (k : Result E B) {b : B}
    → (ensure t e >> k) ≡ ok b
    → (t ≡ true) × (k ≡ ok b)
ensure-eq-ok true e k h = (refl, h)
ensure-eq-ok false e k h = absurd (cc)

pub ok_or-eq-ok {ℓ κ μ} :
    {E : Type ℓ} {A : Type κ} {B : Type μ} (o : Option A) (e : E) (f : A → Result E B) {b : B}
    → (ok_or o e >>= f) ≡ ok b
    → (a : A) × (o ≡ some a) × (f a ≡ ok b)
ok_or-eq-ok none e f h = absurd (cc)
ok_or-eq-ok (some a) e f h = (a, refl, h)

pub >>-eq-ok {ℓ κ} :
    {E : Type ℓ} {B : Type κ} (m : Result E (Unit {0})) (k : Result E B) {b : B}
    → (m >> k) ≡ ok b
    → (m ≡ ok tt) × (k ≡ ok b)
>>-eq-ok (ok tt) k h = (refl, h)
>>-eq-ok (err e) k h = absurd (cc)

-- The same inversions, handing the parts to the rest of a proof.
module _ {ℓ κ μ ν} {E : Type ℓ} {A : Type κ} {B : Type μ} {P : Type ν} where
  pub bind_ok :
      (m : Result E A) (f : A → Result E B) {b : B}
      → (m >>= f) ≡ ok b
      → ((a : A) → m ≡ ok a → f a ≡ ok b → P)
      → P
  bind_ok (ok a) f h k = k a refl h
  bind_ok (err e) f h k = absurd (cc)

  pub ok_or_ok :
      (o : Option A) (e : E) (f : A → Result E B) {b : B}
      → (ok_or o e >>= f) ≡ ok b
      → ((a : A) → o ≡ some a → f a ≡ ok b → P)
      → P
  ok_or_ok none e f h k = absurd (cc)
  ok_or_ok (some a) e f h k = k a refl h

module _ {ℓ μ ν} {E : Type ℓ} {B : Type μ} {P : Type ν} where
  pub ensure_ok :
      (t : Bool) (e : E) (n : Result E B) {b : B}
      → (ensure t e >> n) ≡ ok b
      → (t ≡ true → n ≡ ok b → P)
      → P
  ensure_ok true e n h k = k refl h
  ensure_ok false e n h k = absurd (cc)

  pub seq_ok :
      (m : Result E (Unit {0})) (n : Result E B) {b : B}
      → (m >> n) ≡ ok b
      → (m ≡ ok tt → n ≡ ok b → P)
      → P
  seq_ok (ok tt) n h k = k refl h
  seq_ok (err e) n h k = absurd (cc)
