-- ===== src/Capability/Runs.antt =====
-- A small capability set.
use oxide_spice.Common.{ℕ, ◌≤◌, ◌<◌, ◌≡◌, ◌⊎◌, refl, arith, ◌||◌, List, [], ◌∷◌, ◌==◌}
use oxide_spice.Errors.{ok, err, resource_limit, decode_error}
use oxide_spice.Capability.{
  CapabilitySet, empty, insert, from_bits, contains, insert_all, grown, resize, or_word,
}
use oxide_spice.Capability.Membership.{insert_lem, from_bits_lem, elem}
use oxide_spice.Capability.Bounds.{IsBounded, from_bits-IsBounded}

abbrev three_bits : List ℕ
three_bits = 0 ∷ 5 ∷ 40 ∷ []

insert_lem_example :
    ((37 < 512)
      × ((s' : CapabilitySet) × (insert 37 empty ≡ ok s')
          × ((c : ℕ) → contains c s' ≡ (37 == c) || contains c empty)))
    ⊎ ((512 ≤ 37) × (insert 37 empty ≡ err (decode_error resource_limit 37 "capability bit index")))
insert_lem_example = insert_lem 37 empty

from_bits_lem_example :
    (s : CapabilitySet) × (from_bits three_bits ≡ ok s)
    × ((c : ℕ) → contains c s ≡ elem c three_bits)
from_bits_lem_example = from_bits_lem three_bits (omega arith, (omega arith, (omega arith, tt)))

three_bits-accepted : from_bits three_bits ≡ ok (record { words = 33 ∷ 256 ∷ [] })
unfolding from_bits empty insert insert_all grown resize or_word
three_bits-accepted = refl

from_bits-IsBounded_example : IsBounded (record { words = 33 ∷ 256 ∷ [] })
from_bits-IsBounded_example = from_bits-IsBounded three_bits three_bits-accepted
