-- ===== src/BigEndian/Inverse.antt =====
-- Inversions of successful reads, which hand the parts to the rest of a proof.
use oxide_spice.Common.{◌≡◌, refl, Bool, true, false, Option, none, some}
use oxide_spice.Errors.{Result, ok, err}
use oxide_spice.Bytes.{Bytes}
use oxide_spice.BigEndian.{Decoder, and_then, or_fail, require, lift, ◌>>=◌, ◌>>◌}

module _ {ℓ κ μ} {E : Type 0} {A : Type ℓ} {B : Type κ} {P : Type μ} where
  and_then_ok :
      (k : A → Decoder E B) (o : Result E (A × Bytes)) {b : B} {rest : Bytes}
      → and_then k o ≡ ok (b, rest)
      → ((a : A) (input' : Bytes) → o ≡ ok (a, input') → k a input' ≡ ok (b, rest) → P)
      → P
  and_then_ok k (ok (a, input')) h go = go a input' refl h
  and_then_ok k (err x) h go = absurd (cc)

  pub step_ok :
      (m : Decoder E A) (k : A → Decoder E B) (input : Bytes) {b : B} {rest : Bytes}
      → (m >>= k) input ≡ ok (b, rest)
      → ((a : A) (input' : Bytes) → m input ≡ ok (a, input') → k a input' ≡ ok (b, rest) → P)
      → P
  step_ok m k input h go = and_then_ok k (m input) h go

  pub lift_ok :
      (o : Result E A) (k : A → Decoder E B) (input : Bytes) {b : B} {rest : Bytes}
      → (lift o >>= k) input ≡ ok (b, rest)
      → ((a : A) → o ≡ ok a → k a input ≡ ok (b, rest) → P)
      → P
  lift_ok (ok a) k input h go = go a refl h
  lift_ok (err e) k input h go = absurd (cc)

  pub or_fail_ok :
      (o : Option A) (e : E) (k : A → Decoder E B) (input : Bytes) {b : B} {rest : Bytes}
      → (or_fail o e >>= k) input ≡ ok (b, rest)
      → ((a : A) → o ≡ some a → k a input ≡ ok (b, rest) → P)
      → P
  or_fail_ok none e k input h go = absurd (cc)
  or_fail_ok (some a) e k input h go = go a refl h

module _ {κ μ} {E : Type 0} {B : Type κ} {P : Type μ} where
  pub require_ok :
      (t : Bool) (e : E) (k : Decoder E B) (input : Bytes) {b : B} {rest : Bytes}
      → (require t e >> k) input ≡ ok (b, rest)
      → (t ≡ true → k input ≡ ok (b, rest) → P)
      → P
  require_ok true e k input h go = go refl h
  require_ok false e k input h go = absurd (cc)
