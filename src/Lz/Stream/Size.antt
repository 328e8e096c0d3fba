-- ===== src/Lz/Stream/Size.antt =====
-- The sizes of what the stream decoder produces.
use oxide_spice.Common.{
  ℕ, zero, suc, ◌+◌, ◌-◌, ◌*◌, ◌%◌, ◌≤◌, ◌<◌, ◌≡◌, sym, ap, ◌∙◌, arith, true, Bool-cases,
  Option-cases, not, ◌||◌, inl, inr, [], ◌++◌, ◌==◌, ltb, length, length-append, length-take,
  length-drop, take, drop, take_exact, take_exact_split,
}
use oxide_spice.Errors.{ok, ok-injective}
use oxide_spice.Bytes.{Bytes, checked_add, checked_mul}
use oxide_spice.Lz.{u8, bytes}
use oxide_spice.BigEndian.Inverse.{step_ok, or_fail_ok, require_ok}
use oxide_spice.Lz.Stream.{
  has_room, read_match_units, read_distance, copy_units, Progress, progress, read_literal,
  read_match, read_units, decompress_loop, decompress_units, max_window_units,
}

pub mul_le : (a b c : ℕ) → a ≤ b → a * c ≤ b * c
mul_le a b zero h = omega arith
mul_le a b (suc c) h = let ih : a * c ≤ b * c = mul_le a b c h in omega arith

-- A unit that lies in the output is whole.
pub unit_fits :
    (produced distance unit_bytes : ℕ)
    → 0 < distance
    → distance ≤ produced
    → (produced - distance) * unit_bytes + unit_bytes ≤ produced * unit_bytes
unit_fits produced distance unit_bytes some_distance inside =
    let below : (produced - distance + 1) * unit_bytes ≤ produced * unit_bytes =
      mul_le (produced - distance + 1) produced unit_bytes (omega arith) in
    omega arith

pub length-copy_units :
    (n distance unit_bytes produced : ℕ) (output : Bytes)
    → 0 < distance
    → distance ≤ produced
    → length output ≡ produced * unit_bytes
    → length (copy_units n distance unit_bytes produced output) ≡ (produced + n) * unit_bytes
unfolding copy_units
length-copy_units zero distance unit_bytes produced output some_distance inside size = omega arith
length-copy_units (suc n) distance unit_bytes produced output some_distance inside size =
    let start : ℕ = (produced - distance) * unit_bytes in
    let fits : start + unit_bytes ≤ produced * unit_bytes =
      unit_fits produced distance unit_bytes some_distance inside in
    let one : length (take unit_bytes (drop start output)) ≡ unit_bytes =
      length-take unit_bytes (drop start output) (omega (arith, length-drop start output)) in
    length-copy_units n distance unit_bytes (produced + 1)
      (output ++ take unit_bytes (drop start output)) some_distance (omega arith)
      (omega (arith, length-append output (take unit_bytes (drop start output))))
    ∙ omega arith

-- The output has exactly the units that were produced.
pub record IsSized (expected unit_bytes : ℕ) (p : Progress) : Type 0 where
  pub size : length p.output ≡ p.produced_units * unit_bytes
  pub bound : p.produced_units ≤ expected

has_room_bound :
    (produced additional expected : ℕ)
    → has_room produced additional expected ≡ true
    → produced + additional ≤ expected
unfolding has_room
has_room_bound produced additional expected h = ground arith

bytes_size :
    (n : ℕ) (input read rest : Bytes)
    → bytes n "literal bytes" input ≡ ok (read, rest)
    → length read ≡ n
unfolding bytes
bytes_size n input read rest h = elim (Option-cases (take_exact n input)) [
  | inl short ↦ ground arith
  | inr (xs, e) ↦ ground (arith, take_exact_split n input xs e)
]

-- What one round guarantees: the sizes agree again, and at least one unit is new.
pub record Advances (expected unit_bytes : ℕ) (p p' : Progress) : Type 0 where
  pub sized : IsSized expected unit_bytes p'
  pub more : p.produced_units < p'.produced_units

module _ (expected unit_bytes match_bias : ℕ) where
  -- The two ways a round ends.
  progress-Advances :
      (p : Progress) (n : ℕ) (output : Bytes)
      → 0 < n
      → p.produced_units + n ≤ expected
      → length output ≡ (p.produced_units + n) * unit_bytes
      → Advances expected unit_bytes p (progress (p.produced_units + n) output)
  progress-Advances p n output some_units room size = record {
    sized = record { size = size; bound = room };
    more = omega arith;
  }

  read_literal-Advances :
      (control : ℕ) (p p' : Progress) (input rest : Bytes)
      → IsSized expected unit_bytes p
      → read_literal expected unit_bytes match_bias control p input ≡ ok (p', rest)
      → Advances expected unit_bytes p p'
  unfolding read_literal
  read_literal-Advances control p p' input rest v h =
      require_ok (has_room p.produced_units (control + 1) expected) _ _ input h λ room h1.
        or_fail_ok (checked_mul (control + 1) unit_bytes) _ _ input h1 λ n product h2.
          step_ok (bytes n "literal bytes") _ input h2 λ read input' e h3.
            let fits : p.produced_units + (control + 1) ≤ expected =
              has_room_bound p.produced_units (control + 1) expected room in
            let size : length p.output ≡ p.produced_units * unit_bytes = v.size in
            let exact : n ≡ (control + 1) * unit_bytes = ground arith in
            let long : length read ≡ n = bytes_size n input read input' e in
            rw (sym (ap (λ (q : Progress × Bytes). q.0) (ok-injective h3))) (
              progress-Advances p (control + 1) (p.output ++ read) (omega arith) fits
                (omega (arith, length-append p.output read)))

  read_match-Advances :
      (control : ℕ) (p p' : Progress) (input rest : Bytes)
      → 0 < match_bias
      → IsSized expected unit_bytes p
      → read_match expected unit_bytes match_bias control p input ≡ ok (p', rest)
      → Advances expected unit_bytes p p'
  unfolding read_match
  read_match-Advances control p p' input rest bias v h =
      step_ok (read_match_units control) _ input h λ encoded i1 e1 h1.
        step_ok (read_distance (control % 32 * 256)) _ i1 h1 λ before i2 e2 h2.
          or_fail_ok (checked_add before 1) _ _ i2 h2 λ distance sum h3.
            or_fail_ok (checked_add encoded match_bias) _ _ i2 h3 λ n total h4.
              require_ok
                (not
                  (distance == 0 || ltb p.produced_units distance || ltb max_window_units distance))
                _ _ i2 h4
                λ near h5. require_ok (has_room p.produced_units n expected) _ _ i2 h5 λ room h6.
                  let some_distance : 0 < distance = ground arith in
                  let inside : distance ≤ p.produced_units = ground arith in
                  let some_units : 0 < n = ground arith in
                  rw (sym (ap (λ (q : Progress × Bytes). q.0) (ok-injective h6))) (
                    progress-Advances p n
                      (copy_units n distance unit_bytes p.produced_units p.output) some_units
                      (has_room_bound p.produced_units n expected room)
                      (length-copy_units n distance unit_bytes p.produced_units p.output
                        some_distance inside v.size))

  read_units-Advances :
      (p p' : Progress) (input rest : Bytes)
      → 0 < match_bias
      → IsSized expected unit_bytes p
      → read_units expected unit_bytes match_bias p input ≡ ok (p', rest)
      → Advances expected unit_bytes p p'
  unfolding read_units
  read_units-Advances p p' input rest bias v h =
      step_ok (u8 "control byte") _ input h λ control i1 e1 h1. elim (Bool-cases (ltb control 32)) [
        | inl literal ↦ read_literal-Advances control p p' i1 rest v (rw literal at h1)
        | inr reference ↦ read_match-Advances control p p' i1 rest bias v (rw reference at h1)
      ]

  decompress_loop-size :
      (fuel : ℕ) (p : Progress) (input output rest : Bytes)
      → 0 < match_bias
      → IsSized expected unit_bytes p
      → expected ≤ p.produced_units + fuel
      → decompress_loop expected unit_bytes match_bias fuel p input ≡ ok (output, rest)
      → length output ≡ expected * unit_bytes
  unfolding decompress_loop
  decompress_loop-size zero p input output rest bias v enough h =
      let bound : p.produced_units ≤ expected = v.bound in
      let same : p.produced_units ≡ expected = omega arith in
      ap (λ (q : Bytes × Bytes). length q.0) (sym (ok-injective h))
      ∙ v.size
      ∙ ap (λ n. n * unit_bytes) same
  decompress_loop-size (suc fuel) p input output rest bias v enough h =
      let bound : p.produced_units ≤ expected = v.bound in
      elim (Bool-cases (ltb p.produced_units expected)) [
        | inr all_done ↦
            let same : p.produced_units ≡ expected = ground arith in
            let h' : ok (p.output, input) ≡ ok (output, rest) = rw all_done at h in
            ap (λ (q : Bytes × Bytes). length q.0) (sym (ok-injective h'))
            ∙ v.size
            ∙ ap (λ n. n * unit_bytes) same
        | inl going ↦
            step_ok (read_units expected unit_bytes match_bias p) _ input (rw going at h)
              λ p' i1 e1 h1.
                let step : Advances expected unit_bytes p p' =
                  read_units-Advances p p' input i1 bias v e1 in
                let more : p.produced_units < p'.produced_units = step.more in
                decompress_loop-size fuel p' i1 output rest bias step.sized (omega arith) h1
      ]

-- A stream that expands gives exactly the number of units asked for, each of the unit's width; the
-- loop does not end before that.
pub length-decompress_units :
    (expected unit_bytes match_bias : ℕ) (input output rest : Bytes)
    → 0 < match_bias
    → decompress_units expected unit_bytes match_bias input ≡ ok (output, rest)
    → length output ≡ expected * unit_bytes
unfolding decompress_units
length-decompress_units expected unit_bytes match_bias input output rest bias h =
    or_fail_ok (checked_mul expected unit_bytes) _ _ input h λ n product h1.
      decompress_loop-size expected unit_bytes match_bias (expected + length input) (progress 0 [])
        input output rest bias (record { size = omega arith; bound = omega arith }) (omega arith) h1
