-- ===== src/Lz/Stream/Tokens.antt =====
-- The stream format as a list of literals and back-references: how each is written, and what each
-- adds to the output. It uses nothing of the decoder.
use oxide_spice.Common.{
  ℕ, zero, suc, take, drop, ◌+◌, ◌-◌, ◌*◌, ◌/◌, ◌%◌, ◌^◌, ◌≤◌, ◌<◌, ◌≡◌, List, [], ◌∷◌, ◌++◌, ltb,
  min, if◌then◌else◌, length, replicate,
}
use oxide_spice.Bytes.{Bytes}

pub data Token : Type 0 where
  -- That many units, with their bytes.
  literal : ℕ → Bytes → Token
  -- The distance back to the first unit to repeat, and how many units.
  reference : ℕ → ℕ → Token

-- A length of 6 or more goes on in bytes of 255, and a last one below.
abbrev pub encode_length : ℕ → Bytes
encode_length n = if ltb n 6 then [] else replicate ((n - 6) / 255) 255 ++ ((n - 6) % 255 ∷ [])

-- A distance, less one, has 13 bits; from 8191 on, all of them are set and 16 bits follow.
abbrev pub distance_prefix : ℕ → ℕ
distance_prefix d = if ltb d 8191 then d / 256 else 31

abbrev pub encode_distance : ℕ → Bytes
encode_distance d =
    if ltb d 8191 then d % 256 ∷ [] else 255 ∷ (d - 8191) / 256 ∷ (d - 8191) % 256 ∷ []

unfoldable pub encode : ℕ → Token → Bytes
encode bias (literal n xs) = (n - 1) ∷ xs
encode bias (reference distance n) =
    ((min (n - bias) 6 + 1) * 32 + distance_prefix (distance - 1)) ∷ encode_length (n - bias)
    ++ encode_distance (distance - 1)

unfoldable pub encode_all : ℕ → List Token → Bytes
unfolding encode
encode_all bias [] = []
encode_all bias (t ∷ ts) = encode bias t ++ encode_all bias ts

-- That many units, one after the other, each a copy of the unit that stands `distance` units before
-- the end of the output as it is by then.
unfoldable pub repeat : ℕ → ℕ → ℕ → Bytes → Bytes
repeat zero distance unit_bytes output = output
repeat (suc n) distance unit_bytes output =
    let unit = take unit_bytes (drop (length output - distance * unit_bytes) output) in
    repeat n distance unit_bytes (output ++ unit)

unfoldable pub expand : ℕ → Token → Bytes → Bytes
expand unit_bytes (literal n xs) output = output ++ xs
expand unit_bytes (reference distance n) output = repeat n distance unit_bytes output

unfoldable pub expand_all : ℕ → List Token → Bytes → Bytes
expand_all unit_bytes [] output = output
expand_all unit_bytes (t ∷ ts) output = expand_all unit_bytes ts (expand unit_bytes t output)

-- What the format can say at that point of the output.
abbrev pub IsToken : ℕ → ℕ → Token → ℕ → Type 0
IsToken unit_bytes bias (literal n xs) produced = (0 < n) × (n ≤ 32) × (length xs ≡ n * unit_bytes)
IsToken unit_bytes bias (reference distance n) produced =
    (0 < distance) × (distance ≤ produced) × (distance ≤ 8191 + 2 ^ 16) × (0 < n) × (bias ≤ n)

abbrev pub units : Token → ℕ
units (literal n xs) = n
units (reference distance n) = n

-- The tokens are sayable one after the other and end with the expected number of units.
abbrev pub AreTokens : ℕ → ℕ → ℕ → List Token → ℕ → Type 0
AreTokens expected unit_bytes bias [] produced = produced ≡ expected
AreTokens expected unit_bytes bias (t ∷ ts) produced =
    IsToken unit_bytes bias t produced × AreTokens expected unit_bytes bias ts (produced + units t)
