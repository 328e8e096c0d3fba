-- ===== src/Capability/Bounds.antt =====
-- The size of the bitmap.
use oxide_spice.Common.{
  ℕ, zero, suc, ◌+◌, ◌/◌, ◌%◌, ◌^◌, ◌≤◌, ◌<◌, ◌≡◌, refl, subst, arith, List, [], ◌∷◌, length, All,
  Bool-cases, inl, inr, leb,
}
use oxide_spice.Common.Bits.{bit_or-lt}
use native.Mathlib.Nat.{pow-le-pow_right}
use oxide_spice.Errors.{ok, ok-injective, >>=-eq-ok}
use oxide_spice.Bytes.{IsU32}
use oxide_spice.Capability.Membership.{length-resize}
use oxide_spice.Capability.{
  CapabilitySet, empty, resize, or_word, grown, insert, insert_all, from_bits, max_capability_words,
}

pub record IsBounded (s : CapabilitySet) : Type 0 where
  pub count : length s.words ≤ max_capability_words
  pub width : All IsU32 s.words

resize-IsU32 : (n : ℕ) (xs : List ℕ) → All IsU32 xs → All IsU32 (resize n xs)
unfolding resize
resize-IsU32 zero xs h = tt
resize-IsU32 (suc n) [] h = (omega arith, resize-IsU32 n [] tt)
resize-IsU32 (suc n) (x ∷ xs) h = (h.0, resize-IsU32 n xs h.1)

length-or_word : (i mask : ℕ) (xs : List ℕ) → length (or_word i mask xs) ≡ length xs
unfolding or_word
length-or_word i mask [] = refl
length-or_word zero mask (x ∷ xs) = refl
length-or_word (suc i) mask (x ∷ xs) = omega (arith, length-or_word i mask xs)

or_word-IsU32 :
    (i mask : ℕ) (xs : List ℕ) → IsU32 mask → All IsU32 xs → All IsU32 (or_word i mask xs)
unfolding or_word
or_word-IsU32 i mask [] m h = tt
or_word-IsU32 zero mask (x ∷ xs) m h = (bit_or-lt 32 x mask h.0 m, h.1)
or_word-IsU32 (suc i) mask (x ∷ xs) m h = (h.0, or_word-IsU32 i mask xs m h.1)

grown-IsBounded :
    (i : ℕ) (xs : List ℕ)
    → i < max_capability_words
    → length xs ≤ max_capability_words
    → All IsU32 xs
    → (length (grown i xs) ≤ max_capability_words) × All IsU32 (grown i xs)
unfolding grown
grown-IsBounded i xs hi h w = elim (Bool-cases (leb (length xs) i)) [
  | inl short ↦ rw short (omega (arith, length-resize (i + 1) xs), resize-IsU32 (i + 1) xs w)
  | inr long ↦ rw long (h, w)
]

pow-IsU32 : (k : ℕ) → k < 32 → IsU32 (2 ^ k)
pow-IsU32 k h =
    let top : 2 ^ k ≤ 2 ^ 31 = pow-le-pow_right (omega arith) {i = k} {j = 31} (omega arith) in
    omega arith

-- Whatever the index, a set that `insert` returns stays within 16 words of 32 bits.
pub insert-IsBounded :
    (b : ℕ) (s : CapabilitySet) {s' : CapabilitySet}
    → IsBounded s
    → insert b s ≡ ok s'
    → IsBounded s'
unfolding insert
insert-IsBounded b s v e = elim (Bool-cases (leb 512 b)) [
  | inl wide ↦ ground arith
  | inr fits ↦
      let (count, width) = grown-IsBounded (b / 32) s.words (ground arith) v.count v.width in
      subst IsBounded (ok-injective (rw fits at e)) (record {
        count =
            omega (arith, count, length-or_word (b / 32) (2 ^ (b % 32)) (grown (b / 32) s.words));
        width = or_word-IsU32 (b / 32) (2 ^ (b % 32)) _ (pow-IsU32 (b % 32) (omega arith)) width;
      })
]

insert_all-IsBounded :
    (bits : List ℕ) (s : CapabilitySet) {s' : CapabilitySet}
    → IsBounded s
    → insert_all bits s ≡ ok s'
    → IsBounded s'
unfolding insert_all
insert_all-IsBounded [] s v e = subst IsBounded (ok-injective e) v
insert_all-IsBounded (b ∷ bits) s v e =
    let (t, first, rest) = >>=-eq-ok (insert b s) (insert_all bits) e in
    insert_all-IsBounded bits t (insert-IsBounded b s v first) rest

-- A set that `from_bits` returns has at most 16 words, each of 32 bits.
pub from_bits-IsBounded : (bits : List ℕ) {s : CapabilitySet} → from_bits bits ≡ ok s → IsBounded s
unfolding from_bits empty
from_bits-IsBounded bits e =
    insert_all-IsBounded bits empty (record { count = omega arith; width = tt }) e
