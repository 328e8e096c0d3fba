-- ===== src/Capability.antt =====
-- crates/oxide-spice-protocol/src/capability.rs: a capability bitmap of 32-bit words.
pub mod Membership
pub mod Bounds
mod Runs
use oxide_spice.Common.{
  ℕ, zero, suc, ◌+◌, ◌*◌, ◌/◌, ◌%◌, ◌^◌, Bool, true, false, not, Option, none, some, List, [], ◌∷◌,
  ltb, leb, ◌==◌, if◌then◌else◌, bit_and, bit_or, length, get_elem?,
}
use oxide_spice.Errors.{resource_limit, DecodeError, decode_error, Result, ok, err, ◌>>=◌}

abbrev pub max_capability_words : ℕ
max_capability_words = 16

pub record CapabilitySet : Type 0 where
  pub words : List ℕ

pub empty : CapabilitySet
empty = record { words = [] }

pub from_words : List ℕ → CapabilitySet
from_words words = record { words = words }

-- `Vec::resize` with zeros.
pub resize : ℕ → List ℕ → List ℕ
resize zero xs = []
resize (suc n) [] = 0 ∷ resize n []
resize (suc n) (x ∷ xs) = x ∷ resize n xs

-- `words[i] |= mask`; the words have been grown so that `i` is an index.
pub or_word : ℕ → ℕ → List ℕ → List ℕ
or_word i mask [] = []
or_word zero mask (x ∷ xs) = bit_or x mask ∷ xs
or_word (suc i) mask (x ∷ xs) = x ∷ or_word i mask xs

grown : ℕ → List ℕ → List ℕ
grown index words = if leb (length words) index then resize (index + 1) words else words

pub insert : ℕ → CapabilitySet → Result DecodeError CapabilitySet
unfolding grown
insert bit s =
    if leb (max_capability_words * 32) bit
    then err (decode_error resource_limit bit "capability bit index")
    else ok (record { words = or_word (bit / 32) (2 ^ (bit % 32)) (grown (bit / 32) s.words) })

insert_all : List ℕ → CapabilitySet → Result DecodeError CapabilitySet
insert_all [] s = ok s
insert_all (bit ∷ bits) s = do s' ← insert bit s; insert_all bits s'

pub from_bits : List ℕ → Result DecodeError CapabilitySet
from_bits bits = insert_all bits empty

test_word : ℕ → Option ℕ → Bool
test_word mask none = false
test_word mask (some word) = not (bit_and word mask == 0)

pub contains : ℕ → CapabilitySet → Bool
unfolding test_word
contains bit s = test_word (2 ^ (bit % 32)) (get_elem? s.words (bit / 32))
