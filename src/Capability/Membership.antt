-- ===== src/Capability/Membership.antt =====
-- The bitmap as a set of bit indices.
use oxide_spice.Common.{
  ℕ, zero, suc, ◌+◌, ◌/◌, ◌%◌, ◌^◌, ◌≤◌, ◌<◌, ◌≡◌, refl, sym, ap, ◌∙◌, ◌⊎◌, arith, Bool, false, not,
  ◌||◌, List, [], ◌∷◌, leb, ◌==◌, if◌then◌else◌, bit_and, bit_or, length, get_elem?, Bool-cases,
  inl, inr, All,
}
use oxide_spice.Common.Bits.{bit, bit-zero, bit-le_one, bit_and-pow, bit-bit_or-pow, pow_pos}
use oxide_spice.Errors.{resource_limit, decode_error, ok, err}
use oxide_spice.Capability.{
  CapabilitySet, empty, resize, or_word, grown, insert, insert_all, from_bits, test_word, contains,
}

-- The word at an index, 0 past the end.
word : List ℕ → ℕ → ℕ
word [] i = 0
word (x ∷ xs) zero = x
word (x ∷ xs) (suc i) = word xs i

word-resize : (n i : ℕ) (xs : List ℕ) → length xs ≤ n → word (resize n xs) i ≡ word xs i
unfolding word resize
word-resize zero i [] h = refl
word-resize zero i (x ∷ xs) h = absurd (omega arith)
word-resize (suc n) zero [] h = refl
word-resize (suc n) (suc i) [] h = word-resize n i [] (omega arith)
word-resize (suc n) zero (x ∷ xs) h = refl
word-resize (suc n) (suc i) (x ∷ xs) h = word-resize n i xs (omega arith)

pub length-resize : (n : ℕ) (xs : List ℕ) → length (resize n xs) ≡ n
unfolding resize
length-resize zero xs = refl
length-resize (suc n) [] = ap suc (length-resize n [])
length-resize (suc n) (x ∷ xs) = ap suc (length-resize n xs)

word-or_word :
    (i j mask : ℕ) (xs : List ℕ)
    → i < length xs
    → word (or_word i mask xs) j ≡ (if i == j then bit_or (word xs j) mask else word xs j)
unfolding word or_word
word-or_word i j mask [] h = absurd (omega arith)
word-or_word zero zero mask (x ∷ xs) h = refl
word-or_word zero (suc j) mask (x ∷ xs) h = ground arith
word-or_word (suc i) zero mask (x ∷ xs) h = ground arith
word-or_word (suc i) (suc j) mask (x ∷ xs) h =
    ground (arith, word-or_word i j mask xs (omega arith))

word-grown : (i j : ℕ) (xs : List ℕ) → word (grown i xs) j ≡ word xs j
unfolding grown
word-grown i j xs = ground (arith, word-resize (i + 1) j xs)

length-grown : (i : ℕ) (xs : List ℕ) → i < length (grown i xs)
unfolding grown
length-grown i xs = ground (arith, length-resize (i + 1) xs)

-- A bit test on the stored word, as arithmetic.
is_set : ℕ → ℕ → Bool
is_set k w = not (bit k w == 0)

test-is_set : (k w : ℕ) → not (bit_and w (2 ^ k) == 0) ≡ is_set k w
unfolding is_set
test-is_set k w = elim (Bool-cases (bit k w == 0)) [
  | inl z ↦ ground (arith, bit_and-pow k w)
  | inr p ↦ ground (arith, bit_and-pow k w, pow_pos k, bit-le_one k w)
]

is_set-zero : (k : ℕ) → is_set k 0 ≡ false
unfolding is_set
is_set-zero k = rw bit-zero

test_word-word :
    (k : ℕ) (xs : List ℕ) (i : ℕ) → test_word (2 ^ k) (get_elem? xs i) ≡ is_set k (word xs i)
unfolding test_word word
test_word-word k [] i = sym (is_set-zero k)
test_word-word k (x ∷ xs) zero = test-is_set k x
test_word-word k (x ∷ xs) (suc i) = test_word-word k xs i

contains-word : (s : CapabilitySet) (c : ℕ) → contains c s ≡ is_set (c % 32) (word s.words (c / 32))
unfolding contains
contains-word s c = test_word-word (c % 32) s.words (c / 32)

is_set-bit_or : (j k w : ℕ) → is_set j (bit_or w (2 ^ k)) ≡ (k == j) || is_set j w
unfolding is_set
is_set-bit_or j k w = ground (arith, bit-bit_or-pow j k w)

-- The set after `insert` below the bound.
inserted : ℕ → CapabilitySet → CapabilitySet
inserted b s = record { words = or_word (b / 32) (2 ^ (b % 32)) (grown (b / 32) s.words) }

contains-inserted :
    (b c : ℕ) (s : CapabilitySet) → contains c (inserted b s) ≡ (b == c) || contains c s
unfolding inserted
contains-inserted b c s =
    contains-word (inserted b s) c
    ∙ ap (is_set (c % 32))
        (word-or_word (b / 32) (c / 32) (2 ^ (b % 32)) _ (length-grown (b / 32) s.words))
    ∙ split
    ∙ ap (λ t. (b == c) || t) (sym (contains-word s c))
  where
    old : word (grown (b / 32) s.words) (c / 32) ≡ word s.words (c / 32)
    old = word-grown (b / 32) (c / 32) s.words

    split :
        is_set (c % 32) (
          if b / 32 == c / 32
          then bit_or (word (grown (b / 32) s.words) (c / 32)) (2 ^ (b % 32))
          else word (grown (b / 32) s.words) (c / 32))
        ≡ (b == c) || is_set (c % 32) (word s.words (c / 32))
    split = rw old (elim (Bool-cases (b / 32 == c / 32)) [
      | inl same ↦ rw same (
          is_set-bit_or (c % 32) (b % 32) _
          ∙ ap (λ t. t || is_set (c % 32) (word s.words (c / 32))) (ground arith))
      | inr other ↦ rw other (ground arith)
    ])

-- Below 512 `insert` succeeds, adds that bit and keeps every other; from 512 on it refuses.
pub insert_lem :
    (b : ℕ) (s : CapabilitySet)
    → ((b < 512)
        × ((s' : CapabilitySet) × (insert b s ≡ ok s')
            × ((c : ℕ) → contains c s' ≡ (b == c) || contains c s)))
      ⊎ ((512 ≤ b) × (insert b s ≡ err (decode_error resource_limit b "capability bit index")))
unfolding insert inserted
insert_lem b s = elim (Bool-cases (leb 512 b)) [
  | inl wide ↦ inr (ground arith, rw wide)
  | inr fits ↦ inl (ground arith, (inserted b s, rw fits, λ c. contains-inserted b c s))
]

-- Whether a list of bit indices holds an index.
abbrev pub elem : ℕ → List ℕ → Bool
elem c [] = false
elem c (b ∷ bs) = (b == c) || elem c bs

abbrev pub IsCapabilityBit : ℕ → Type 0
IsCapabilityBit b = b < 512

or_swap : (p q r : Bool) → q || (p || r) ≡ (p || q) || r
or_swap p q r = ground arith

insert_all_lem :
    (bits : List ℕ) (s : CapabilitySet)
    → All IsCapabilityBit bits
    → (s' : CapabilitySet) × (insert_all bits s ≡ ok s')
      × ((c : ℕ) → contains c s' ≡ elem c bits || contains c s)
unfolding insert_all
insert_all_lem [] s h = (s, refl, λ c. refl)
insert_all_lem (b ∷ bits) s (hb, h) = elim (insert_lem b s) [
  | inl (_, (s', e, m)) ↦
      let (t, e', m') = insert_all_lem bits s' h in
      (t, rw e e', λ c. m' c ∙ ap (λ q. elem c bits || q) (m c) ∙ or_swap (b == c) (elem c bits) _)
  | inr (wide, _) ↦ absurd (omega arith)
]

contains-empty : (c : ℕ) → contains c empty ≡ false
unfolding contains empty test_word
contains-empty c = refl

-- `from_bits` on indices below 512 builds the set of exactly those indices.
pub from_bits_lem :
    (bits : List ℕ)
    → All IsCapabilityBit bits
    → (s : CapabilitySet) × (from_bits bits ≡ ok s) × ((c : ℕ) → contains c s ≡ elem c bits)
unfolding from_bits
from_bits_lem bits h =
    let (s, e, m) = insert_all_lem bits empty h in
    (s, e, λ c. m c ∙ ap (λ q. elem c bits || q) (contains-empty c) ∙ or_false (elem c bits))
  where
    or_false : (p : Bool) → p || false ≡ p
    or_false p = ground arith
