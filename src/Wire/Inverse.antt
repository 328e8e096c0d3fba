-- ===== src/Wire/Inverse.antt =====
-- What a successful read says of the bytes.
use oxide_spice.Common.{
  ℕ, ◌^◌, ◌<◌, ◌≡◌, refl, sym, ap, ◌∙◌, subst, arith, none, some, [], ◌∷◌, ◌++◌, String, length,
  drop, take_exact, take_exact_split, get_range, get_range-drop, All, Bool, true, false,
  Option-cases, inl, inr,
}
use native.Mathlib.Nat.{pow-suc}
use oxide_spice.Errors.{DecodeError, Result, ok, err}
use oxide_spice.Bytes.{Bytes, from_le, to_le, to_le-from_le, IsByte}
use oxide_spice.Wire.{
  Reader, Parser, take, u8, u16, u32, u64, pure, lift, require, new, parse, result_of, and_then,
  ◌>>=◌, ◌>>◌,
}
use oxide_spice.Wire.Cursor.{Sees, advance, advance-Sees, take-Sees}

and_then-eq-ok {ℓ κ} :
    {A : Type ℓ} {B : Type κ} (f : A → Parser B) (o : Result DecodeError (A × Reader))
    {r'' : Reader} {b : B}
    → and_then f o ≡ ok (b, r'')
    → (a : A) × (r' : Reader) × (o ≡ ok (a, r')) × (f a r' ≡ ok (b, r''))
and_then-eq-ok f (ok (a, r')) h = (a, r', refl, h)
and_then-eq-ok f (err e) h = cc

pub bind-eq-ok {ℓ κ} :
    {A : Type ℓ} {B : Type κ} (m : Parser A) (f : A → Parser B) (r : Reader) {r'' : Reader} {b : B}
    → (m >>= f) r ≡ ok (b, r'')
    → (a : A) × (r' : Reader) × (m r ≡ ok (a, r')) × (f a r' ≡ ok (b, r''))
bind-eq-ok m f r h = and_then-eq-ok f (m r) h

-- What is left after a successful `take`, and how the unread bytes split.
pub record Took (r : Reader) (bs : Bytes) (n : ℕ) (xs : Bytes) (r' : Reader) : Type 0 where
  pub rest : Bytes
  pub split : bs ≡ xs ++ rest
  pub size : length xs ≡ n
  pub moved : r' ≡ advance n r
  pub sees : Sees r' rest

take_found :
    (r : Reader) (bs : Bytes) (n : ℕ) (context : String) {ys : Bytes}
    → Sees r bs
    → take_exact n bs ≡ some ys
    → take n context r ≡ ok (ys, advance n r)
take_found r bs n context {ys} s e =
    let (size, split) = take_exact_split n bs ys e in
    subst (λ k. take k context r ≡ ok (ys, advance k r)) size
      (take-Sees r ys (drop n bs) context (subst (Sees r) split s))

take_missing :
    (r : Reader) (bs : Bytes) (n : ℕ) (context : String) {xs : Bytes} {r' : Reader}
    → Sees r bs
    → take_exact n bs ≡ none
    → ¬ (take n context r ≡ ok (xs, r'))
unfolding take
take_missing r bs n context s e h =
    let cut : get_range r.offset n r.input ≡ none =
      get_range-drop r.offset n r.input (omega (arith, s.within))
      ∙ ap (take_exact n) s.unread
      ∙ e in
    ground arith

-- The result of a read names the bytes and the reader.
ok_pair :
    {xs ys : Bytes} {r s : Reader}
    → ◌≡◌ {A = Result DecodeError (Bytes × Reader)} (ok (xs, r)) (ok (ys, s))
    → (xs ≡ ys) × (r ≡ s)
ok_pair e = (cc, cc)

pub take_inv :
    (r : Reader) (bs : Bytes) (n : ℕ) (context : String) {xs : Bytes} {r' : Reader}
    → Sees r bs
    → take n context r ≡ ok (xs, r')
    → Took r bs n xs r'
take_inv r bs n context {xs} {r'} s h = elim (Option-cases (take_exact n bs)) [
  | inl missing ↦ absurd (take_missing r bs n context s missing h)
  | inr (ys, found) ↦
      let (size, split) = take_exact_split n bs ys found in
      let (same, moved) = ok_pair (sym h ∙ take_found r bs n context s found) in
      record {
        rest = drop n bs;
        split = rw same split;
        size = rw same size;
        moved = moved;
        sees = rw moved (
            subst (λ k. Sees (advance k r) (drop n bs)) size
              (advance-Sees r ys (drop n bs) (subst (Sees r) split s)));
      }
]

-- The unread bytes begin with the little-endian form of a value of `n` bytes.
pub record Read (r : Reader) (bs : Bytes) (n : ℕ) (v : ℕ) (r' : Reader) : Type 0 where
  pub rest : Bytes
  pub split : bs ≡ to_le n v ++ rest
  pub bytes : All IsByte rest
  pub range : v < 256 ^ n
  pub moved : r' ≡ advance n r
  pub sees : Sees r' rest

pub bytes-append : (xs ys : Bytes) → All IsByte (xs ++ ys) → All IsByte xs × All IsByte ys
bytes-append [] ys h = (tt, h)
bytes-append (x ∷ xs) ys h = let (front, back) = bytes-append xs ys h.1 in ((h.0, front), back)

pub from_le-lt : (bs : Bytes) → All IsByte bs → from_le bs < 256 ^ length bs
from_le-lt [] h = omega arith
from_le-lt (b ∷ bs) h = omega (arith, h.0, from_le-lt bs h.1, pow-suc 256 (length bs))

Took-Read :
    (r : Reader) (bs : Bytes) (n : ℕ) (xs : Bytes) (r' : Reader)
    → All IsByte bs
    → Took r bs n xs r'
    → Read r bs n (from_le xs) r'
Took-Read r bs n xs r' h t =
    let (front, back) = bytes-append xs t.rest (subst (All IsByte) t.split h) in
    record {
      rest = t.rest;
      split = t.split ∙ ap (λ q. q ++ t.rest) (sym (rw t.size at (to_le-from_le xs front)));
      bytes = back;
      range = rw t.size at (from_le-lt xs front);
      moved = t.moved;
      sees = t.sees;
    }

ok_number :
    {v w : ℕ} {r s : Reader}
    → ◌≡◌ {A = Result DecodeError (ℕ × Reader)} (ok (v, r)) (ok (w, s))
    → (v ≡ w) × (r ≡ s)
ok_number e = (cc, cc)

-- A read of `n` bytes as a number.
number : ℕ → String → Parser ℕ
number n context = do bytes ← take n context; pure (from_le bytes)

number_inv :
    (n : ℕ) (r : Reader) (bs : Bytes) (context : String) {v : ℕ} {r' : Reader}
    → All IsByte bs
    → Sees r bs
    → number n context r ≡ ok (v, r')
    → Read r bs n v r'
unfolding number
number_inv n r bs context {v} {r'} bytes s h =
    let (xs, r1, first, last) = bind-eq-ok (take n context) (λ q. pure (from_le q)) r h in
    let (same, stay) = ok_number last in
    subst (λ q. Read r bs n q r') same
      (subst (Read r bs n (from_le xs)) stay
        (Took-Read r bs n xs r1 bytes (take_inv r bs n context s first)))

module _ (r : Reader) (bs : Bytes) (context : String) {v : ℕ} {r' : Reader} (bytes : All IsByte bs)
    (s : Sees r bs) where
  pub u8_inv : u8 context r ≡ ok (v, r') → Read r bs 1 v r'
  unfolding u8 number
  u8_inv h = number_inv 1 r bs context bytes s h

  pub u16_inv : u16 context r ≡ ok (v, r') → Read r bs 2 v r'
  unfolding u16 number
  u16_inv h = number_inv 2 r bs context bytes s h

  pub u32_inv : u32 context r ≡ ok (v, r') → Read r bs 4 v r'
  unfolding u32 number
  u32_inv h = number_inv 4 r bs context bytes s h

  pub u64_inv : u64 context r ≡ ok (v, r') → Read r bs 8 v r'
  unfolding u64 number
  u64_inv h = number_inv 8 r bs context bytes s h

-- The inversions, handing the parts to the rest of a proof.
module _ {ℓ κ ν} {A : Type ℓ} {B : Type κ} {P : Type ν} where
  and_then_ok :
      (f : A → Parser B) (o : Result DecodeError (A × Reader)) {r'' : Reader} {b : B}
      → and_then f o ≡ ok (b, r'')
      → ((a : A) (r' : Reader) → o ≡ ok (a, r') → f a r' ≡ ok (b, r'') → P)
      → P
  and_then_ok f (ok (a, r')) h k = k a r' refl h
  and_then_ok f (err e) h k = absurd (cc)

  pub then_ok :
      (m : Parser A) (f : A → Parser B) (r : Reader) {r'' : Reader} {b : B}
      → (m >>= f) r ≡ ok (b, r'')
      → ((a : A) (r' : Reader) → m r ≡ ok (a, r') → f a r' ≡ ok (b, r'') → P)
      → P
  then_ok m f r h k = and_then_ok f (m r) h k

  pub lift_ok :
      (o : Result DecodeError A) (f : A → Parser B) (r : Reader) {r'' : Reader} {b : B}
      → (lift o >>= f) r ≡ ok (b, r'')
      → ((a : A) → o ≡ ok a → f a r ≡ ok (b, r'') → P)
      → P
  lift_ok (ok a) f r h k = k a refl h
  lift_ok (err e) f r h k = absurd (cc)

module _ {κ ν} {B : Type κ} {P : Type ν} where
  pub require_ok :
      (t : Bool) (e : DecodeError) (n : Parser B) (r : Reader) {r'' : Reader} {b : B}
      → (require t e >> n) r ≡ ok (b, r'')
      → (t ≡ true → n r ≡ ok (b, r'') → P)
      → P
  require_ok true e n r h k = k refl h
  require_ok false e n r h k = absurd (cc)

  pub parse_ok :
      (m : Parser B) (input : Bytes) {b : B}
      → parse m input ≡ ok b
      → ((r : Reader) → m (new input) ≡ ok (b, r) → P)
      → P
  parse_ok m input h k = split (m (new input)) h k
    where
      split :
          (o : Result DecodeError (B × Reader)) {b : B}
          → result_of o ≡ ok b
          → ((r : Reader) → o ≡ ok (b, r) → P)
          → P
      split (ok (a, r)) h k = k r (cc)
      split (err e) h k = absurd (cc)
