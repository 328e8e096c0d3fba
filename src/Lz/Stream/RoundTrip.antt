-- ===== src/Lz/Stream/RoundTrip.antt =====
-- `decompress_units` on the encoding of tokens.
use oxide_spice.Common.{
  ℕ, zero, suc, ◌+◌, ◌-◌, ◌*◌, ◌/◌, ◌%◌, ◌^◌, ◌≤◌, ◌<◌, ◌≡◌, refl, sym, ap, ◌∙◌, arith, true, false,
  Bool-cases, not, ◌||◌, inl, inr, some, List, [], ◌∷◌, ◌++◌, append_assoc, ◌==◌, ltb, min, length,
  length-append, length-take, length-drop, take, replicate, drop-length-append, take_exact-append,
  take_exact, drop,
}
use oxide_spice.Errors.{ok}
use oxide_spice.Bytes.{Bytes, usize_mod, checked_add, checked_mul}
use oxide_spice.Lz.{bytes}
use oxide_spice.Lz.Stream.Size.{mul_le, unit_fits, length-copy_units}
use oxide_spice.Lz.Stream.{
  has_room, extend_length, read_match_units, read_far_distance, read_distance, copy_units, Progress,
  progress, read_literal, read_match, read_units, decompress_loop, decompress_units,
}
use oxide_spice.Lz.Stream.Tokens.{
  Token, literal, reference, encode_length, distance_prefix, encode_distance, encode, encode_all,
  repeat, expand, expand_all, IsToken, units, AreTokens,
}

bytes-append :
    (n : ℕ) (xs rest : Bytes) → length xs ≡ n → bytes n "literal bytes" (xs ++ rest) ≡ ok (xs, rest)
unfolding bytes
bytes-append n xs rest e =
    let cut : take_exact n (xs ++ rest) ≡ some xs = rw (sym e) (take_exact-append xs rest) in
    let left : drop n (xs ++ rest) ≡ rest = rw (sym e) (drop-length-append xs rest) in ground arith

extend_length-replicate :
    (k m last : ℕ) (rest : Bytes)
    → last < 255
    → m + 255 * k + last < usize_mod
    → extend_length m (replicate k 255 ++ (last ∷ rest)) ≡ ok (m + 255 * k + last, rest)
unfolding extend_length
extend_length-replicate zero m last rest small fits = ground arith
extend_length-replicate (suc k) m last rest small fits =
    let ih = extend_length-replicate k (m + 255) last rest small (omega arith) in
    let sum : m + 255 + 255 * k + last ≡ m + 255 * suc k + last = omega arith in
    let fine : ltb (m + 255) usize_mod ≡ true = ground arith in
    rw (fine, extend_length, ih, sum) refl

read_match_units-encode_length :
    (n prefix : ℕ) (rest : Bytes)
    → n < usize_mod
    → prefix < 32
    → read_match_units ((min n 6 + 1) * 32 + prefix) (encode_length n ++ rest) ≡ ok (n, rest)
unfolding read_match_units
read_match_units-encode_length n prefix rest fits small =
    let high : ((min n 6 + 1) * 32 + prefix) / 32 - 1 ≡ min n 6 = omega arith in
    elim (Bool-cases (ltb n 6)) [
      | inl short ↦ ground arith
      | inr long ↦
          let top : min n 6 ≡ 6 = ground arith in
          let whole : 6 + 255 * ((n - 6) / 255) + (n - 6) % 255 ≡ n = ground arith in
          rw (high, top, long, append_assoc)
            (extend_length-replicate ((n - 6) / 255) 6 ((n - 6) % 255) rest (omega arith)
                (omega arith)
              ∙ ap (λ k. ok (k, rest)) whole)
    ]

read_distance-encode_distance :
    (n d : ℕ) (rest : Bytes)
    → d ≤ 8191 + 65535
    → read_distance
        (((min n 6 + 1) * 32 + distance_prefix d) % 32 * 256)
        (encode_distance d ++ rest)
      ≡ ok (d, rest)
unfolding read_distance read_far_distance
read_distance-encode_distance n d rest near = ground arith

has_room-true :
    (produced additional expected : ℕ)
    → produced + additional ≤ expected
    → expected < usize_mod
    → has_room produced additional expected ≡ true
unfolding has_room
has_room-true produced additional expected room total = ground arith

some_units :
    (unit_bytes bias : ℕ) (t : Token) (produced : ℕ)
    → IsToken unit_bytes bias t produced
    → 0 < units t
some_units unit_bytes bias (literal n xs) produced v = v.0
some_units unit_bytes bias (reference distance n) produced v = v.3

-- Where a unit starts, counted from the end.
start_eq :
    (produced distance unit_bytes size : ℕ)
    → distance ≤ produced
    → size ≡ produced * unit_bytes
    → (produced - distance) * unit_bytes ≡ size - distance * unit_bytes
start_eq produced distance unit_bytes size inside whole =
    let parts : (produced - distance + distance) * unit_bytes ≡ produced * unit_bytes =
      ap (λ (k : ℕ). k * unit_bytes) (omega arith) in
    omega arith

-- Counted from the start, as the decoder does, the units copied are the same.
copy_units-repeat :
    (n distance unit_bytes produced : ℕ) (output : Bytes)
    → 0 < distance
    → distance ≤ produced
    → length output ≡ produced * unit_bytes
    → copy_units n distance unit_bytes produced output ≡ repeat n distance unit_bytes output
unfolding copy_units repeat
copy_units-repeat zero distance unit_bytes produced output some_distance inside size = refl
copy_units-repeat (suc n) distance unit_bytes produced output some_distance inside size =
    let start : ℕ = (produced - distance) * unit_bytes in
    let unit : Bytes = take unit_bytes (drop start output) in
    let same = start_eq produced distance unit_bytes (length output) inside size in
    let fits = unit_fits produced distance unit_bytes some_distance inside in
    let one : length unit ≡ unit_bytes =
      length-take unit_bytes (drop start output) (omega (arith, length-drop start output)) in
    copy_units-repeat n distance unit_bytes (produced + 1) (output ++ unit) some_distance
      (omega arith) (omega (arith, length-append output unit))
    ∙ ap (λ (k : ℕ). repeat n distance unit_bytes (output ++ take unit_bytes (drop k output))) same

units_bound :
    (expected unit_bytes bias : ℕ) (ts : List Token) (produced : ℕ)
    → AreTokens expected unit_bytes bias ts produced
    → produced ≤ expected
units_bound expected unit_bytes bias [] produced v = omega arith
units_bound expected unit_bytes bias (t ∷ ts) produced v =
    let later = units_bound expected unit_bytes bias ts (produced + units t) v.1 in omega arith

module _ (expected unit_bytes bias : ℕ) (fits : expected * unit_bytes < usize_mod)
    (total : expected < usize_mod) where
  -- What a match does once its length and its distance are read.
  read_match-ok :
      (control k d : ℕ) (p : Progress) (input i1 rest : Bytes)
      → read_match_units control input ≡ ok (k, i1)
      → read_distance (control % 32 * 256) i1 ≡ ok (d, rest)
      → d + 1 ≤ p.produced_units
      → d + 1 ≤ 2 ^ 25
      → p.produced_units + (k + bias) ≤ expected
      → read_match expected unit_bytes bias control p input
        ≡ ok (
          progress
              (p.produced_units + (k + bias))
              (copy_units (k + bias) (d + 1) unit_bytes p.produced_units p.output),
          rest,
        )
  unfolding read_match
  read_match-ok control k d p input i1 rest e1 e2 inside near room =
      let some_units : checked_add k bias ≡ some (k + bias) = ground arith in
      let one_more : checked_add d 1 ≡ some (d + 1) = ground arith in
      let valid : not (d + 1 == 0 || ltb p.produced_units (d + 1) || ltb (2 ^ 25) (d + 1)) ≡ true =
        ground arith in
      let enough = has_room-true p.produced_units (k + bias) expected room total in
      rw (e1, e2, one_more, some_units, valid, enough) refl

  -- One round reads one token.
  read_units-encode :
      (t : Token) (p : Progress) (rest : Bytes)
      → IsToken unit_bytes bias t p.produced_units
      → length p.output ≡ p.produced_units * unit_bytes
      → p.produced_units + units t ≤ expected
      → read_units expected unit_bytes bias p (encode bias t ++ rest)
        ≡ ok (progress (p.produced_units + units t) (expand unit_bytes t p.output), rest)
  unfolding read_units read_literal encode has_room expand
  read_units-encode (literal n xs) p rest v whole room =
      let some_units : 0 < n = v.0 in
      let few : n ≤ 32 = v.1 in
      let same : n - 1 + 1 ≡ n = omega arith in
      let size : n * unit_bytes < usize_mod =
        (let le = mul_le n expected unit_bytes (omega arith) in omega arith) in
      let read = bytes-append (n * unit_bytes) xs rest v.2 in ground arith
  read_units-encode (reference distance n) p rest v whole room =
      let some_distance : 0 < distance = v.0 in
      let inside : distance ≤ p.produced_units = v.1 in
      let near : distance ≤ 8191 + 2 ^ 16 = v.2 in
      let long : bias ≤ n = v.4 in
      let d : ℕ = distance - 1 in
      let k : ℕ = n - bias in
      let prefix : distance_prefix d < 32 = ground arith in
      let not_literal : ltb ((min k 6 + 1) * 32 + distance_prefix d) 32 ≡ false = ground arith in
      let same_units : k + bias ≡ n = omega arith in
      let same_distance : d + 1 ≡ distance = omega arith in
      let copied : ℕ → ℕ → Progress = λ m back.
        progress (p.produced_units + m) (copy_units m back unit_bytes p.produced_units p.output) in
      rw (not_literal, append_assoc)
        (read_match-ok ((min k 6 + 1) * 32 + distance_prefix d) k d p
            (encode_length k ++ (encode_distance d ++ rest)) (encode_distance d ++ rest) rest
            (read_match_units-encode_length k (distance_prefix d) (encode_distance d ++ rest)
              (omega arith) prefix)
            (read_distance-encode_distance k d rest (omega arith)) (omega arith) (omega arith)
            (omega arith)
          ∙ ap (λ (m : ℕ). ok (copied m (d + 1), rest)) same_units
          ∙ ap (λ (back : ℕ). ok (copied n back, rest)) same_distance
          ∙ ap (λ q. ok (progress (p.produced_units + n) q, rest))
              (copy_units-repeat n distance unit_bytes p.produced_units p.output some_distance
                inside whole))

  -- The output stays as long as the units that were produced.
  length-expand :
      (t : Token) (produced : ℕ) (output : Bytes)
      → IsToken unit_bytes bias t produced
      → length output ≡ produced * unit_bytes
      → length (expand unit_bytes t output) ≡ (produced + units t) * unit_bytes
  unfolding expand
  length-expand (literal n xs) produced output v whole =
      let size = v.2 in omega (arith, length-append output xs)
  length-expand (reference distance n) produced output v whole =
      ap length (sym (copy_units-repeat n distance unit_bytes produced output v.0 v.1 whole))
      ∙ length-copy_units n distance unit_bytes produced output v.0 v.1 whole

  decompress_loop-encode_all :
      (fuel : ℕ) (ts : List Token) (produced : ℕ) (output rest : Bytes)
      → AreTokens expected unit_bytes bias ts produced
      → length output ≡ produced * unit_bytes
      → expected ≤ produced + fuel
      → decompress_loop expected unit_bytes bias fuel
          (progress produced output)
          (encode_all bias ts ++ rest)
        ≡ ok (expand_all unit_bytes ts output, rest)
  unfolding decompress_loop encode_all expand_all
  decompress_loop-encode_all zero [] produced output rest v whole enough = refl
  decompress_loop-encode_all (suc fuel) [] produced output rest v whole enough =
      let finished : ltb produced expected ≡ false = ground arith in rw finished refl
  decompress_loop-encode_all zero (t ∷ ts) produced output rest v whole enough =
      let some = some_units unit_bytes bias t produced v.0 in
      let later = units_bound expected unit_bytes bias ts (produced + units t) v.1 in
      absurd (omega arith)
  decompress_loop-encode_all (suc fuel) (t ∷ ts) produced output rest v whole enough =
      let some = some_units unit_bytes bias t produced v.0 in
      let later = units_bound expected unit_bytes bias ts (produced + units t) v.1 in
      let going : ltb produced expected ≡ true = ground arith in
      rw
        (
          going,
          append_assoc,
          read_units-encode t (progress produced output) (encode_all bias ts ++ rest) v.0 whole
              later,
        )
        (decompress_loop-encode_all fuel ts (produced + units t) (expand unit_bytes t output) rest
          v.1 (length-expand t produced output v.0 whole) (omega arith))

-- A stream that is the encoding of some tokens, each sayable where it stands and together as many
-- units as expected, whose number and whose bytes are below 2 ^ 64, expands to what the tokens
-- say, and what follows it is left unread. A literal says its bytes, and a reference repeats,
-- unit by unit, what stands that far before the end.
pub decompress_units-encode_all :
    (expected unit_bytes bias : ℕ) (ts : List Token) (rest : Bytes)
    → expected < usize_mod
    → expected * unit_bytes < usize_mod
    → AreTokens expected unit_bytes bias ts 0
    → decompress_units expected unit_bytes bias (encode_all bias ts ++ rest)
      ≡ ok (expand_all unit_bytes ts [], rest)
unfolding decompress_units
decompress_units-encode_all expected unit_bytes bias ts rest total fits v =
    let size : checked_mul expected unit_bytes ≡ some (expected * unit_bytes) = ground arith in
    rw size (
      decompress_loop-encode_all expected unit_bytes bias fits total
        (expected + length (encode_all bias ts ++ rest)) ts 0 [] rest v (omega arith) (omega arith))
