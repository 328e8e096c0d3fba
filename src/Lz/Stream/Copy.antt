-- ===== src/Lz/Stream/Copy.antt =====
-- What `copy_units` repeats.
use oxide_spice.Common.{
  ℕ, zero, suc, ◌+◌, ◌-◌, ◌*◌, ◌≤◌, ◌<◌, ◌≡◌, refl, sym, ap, ◌∙◌, subst, arith, inl, inr,
  Bool-cases, List, [], ◌∷◌, ◌++◌, append_assoc, append-nil, ◌==◌, length, length-append,
  length-take, length-drop, take, drop,
}
use oxide_spice.Bytes.{Bytes}
use oxide_spice.Lz.Stream.{copy_units}
use oxide_spice.Lz.Stream.Size.{mul_le, unit_fits}

-- The `i`-th unit of an output.
abbrev pub unit_at : ℕ → ℕ → Bytes → Bytes
unit_at unit_bytes i output = take unit_bytes (drop (i * unit_bytes) output)

module _ {ℓ} {A : Type ℓ} where
  take_within :
      (m n : ℕ) (xs ys : List A)
      → m + n ≤ length xs
      → take n (drop m (xs ++ ys)) ≡ take n (drop m xs)
  take_within m zero xs ys h = refl
  take_within zero (suc n) [] ys h = absurd (omega arith)
  take_within zero (suc n) (x ∷ xs) ys h = ap (λ q. x ∷ q) (take_within zero n xs ys (omega arith))
  take_within (suc m) (suc n) [] ys h = absurd (omega arith)
  take_within (suc m) (suc n) (x ∷ xs) ys h = take_within m (suc n) xs ys (omega arith)

  take_last : (xs ys : List A) → take (length ys) (drop (length xs) (xs ++ ys)) ≡ ys
  take_last [] [] = refl
  take_last [] (y ∷ ys) = ap (λ q. y ∷ q) (take_last [] ys)
  take_last (x ∷ xs) ys = take_last xs ys

-- What is copied comes after what was there.
copied : ℕ → ℕ → ℕ → ℕ → Bytes → Bytes
copied zero distance unit_bytes produced output = []
copied (suc n) distance unit_bytes produced output =
    let next = unit_at unit_bytes (produced - distance) output in
    next ++ copied n distance unit_bytes (produced + 1) (output ++ next)

copy_units-copied :
    (n distance unit_bytes produced : ℕ) (output : Bytes)
    → copy_units n distance unit_bytes produced output
      ≡ output ++ copied n distance unit_bytes produced output
unfolding copy_units copied
copy_units-copied zero distance unit_bytes produced output = sym (append-nil output)
copy_units-copied (suc n) distance unit_bytes produced output =
    let next : Bytes = unit_at unit_bytes (produced - distance) output in
    copy_units-copied n distance unit_bytes (produced + 1) (output ++ next)
    ∙ append_assoc output next _

-- A unit that was there stays.
unit_at-append :
    (unit_bytes i count : ℕ) (output more : Bytes)
    → i < count
    → length output ≡ count * unit_bytes
    → unit_at unit_bytes i (output ++ more) ≡ unit_at unit_bytes i output
unit_at-append unit_bytes i count output more inside size =
    let whole : (i + 1) * unit_bytes ≤ count * unit_bytes =
      mul_le (i + 1) count unit_bytes (omega arith) in
    take_within (i * unit_bytes) unit_bytes output more (omega arith)

module _ (distance unit_bytes : ℕ) (some_distance : 0 < distance) where
  length-unit_at :
      (produced : ℕ) (output : Bytes)
      → distance ≤ produced
      → length output ≡ produced * unit_bytes
      → length (unit_at unit_bytes (produced - distance) output) ≡ unit_bytes
  length-unit_at produced output inside size =
      let fits = unit_fits produced distance unit_bytes some_distance inside in
      length-take unit_bytes (drop ((produced - distance) * unit_bytes) output)
        (omega (arith, length-drop ((produced - distance) * unit_bytes) output))

  first_repeats :
      (n produced : ℕ) (output : Bytes)
      → distance ≤ produced
      → length output ≡ produced * unit_bytes
      → unit_at unit_bytes produced (copy_units (suc n) distance unit_bytes produced output)
        ≡ unit_at unit_bytes
            (produced - distance)
            (copy_units (suc n) distance unit_bytes produced output)
  unfolding copied
  first_repeats n produced output inside size =
      let next : Bytes = unit_at unit_bytes (produced - distance) output in
      let more : Bytes = copied n distance unit_bytes (produced + 1) (output ++ next) in
      let width : length next ≡ unit_bytes = length-unit_at produced output inside size in
      rw (copy_units-copied (suc n) distance unit_bytes produced output) (
        ap (unit_at unit_bytes produced) (sym (append_assoc output next more))
        ∙ unit_at-append unit_bytes produced (produced + 1) (output ++ next) more (omega arith)
            (omega (arith, length-append output next))
        ∙ subst (λ w. take w (drop (produced * unit_bytes) (output ++ next)) ≡ next) width
            (subst (λ w. take (length next) (drop w (output ++ next)) ≡ next) size
              (take_last output next))
        ∙ sym (
            unit_at-append unit_bytes (produced - distance) produced output (next ++ more)
              (omega arith) size))

  repeats :
      (n produced : ℕ) (output : Bytes)
      → distance ≤ produced
      → length output ≡ produced * unit_bytes
      → (i : ℕ) → produced ≤ i
      → i < produced + n
      → unit_at unit_bytes i (copy_units n distance unit_bytes produced output)
        ≡ unit_at unit_bytes (i - distance) (copy_units n distance unit_bytes produced output)
  unfolding copy_units
  repeats zero produced output inside size i new last = absurd (omega arith)
  repeats (suc n) produced output inside size i new last = elim (Bool-cases (i == produced)) [
    | inl first ↦
        let same : i ≡ produced = ground arith in
        rw same (first_repeats n produced output inside size)
    | inr later ↦
        let next : Bytes = unit_at unit_bytes (produced - distance) output in
        let width : length next ≡ unit_bytes = length-unit_at produced output inside size in
        repeats n (produced + 1) (output ++ next) (omega arith)
          (omega (arith, length-append output next)) i (ground arith) (omega arith)
  ]

-- After a back-reference the units that were there are the same, and each new unit is the one that
-- stands the distance before it, also where that is itself a new one.
pub copy_units-unit_at :
    (n distance unit_bytes produced : ℕ) (output : Bytes)
    → 0 < distance
    → distance ≤ produced
    → length output ≡ produced * unit_bytes
    → ((i : ℕ)
        → i < produced
        → unit_at unit_bytes i (copy_units n distance unit_bytes produced output)
          ≡ unit_at unit_bytes i output)
      × ((i : ℕ)
          → produced ≤ i
          → i < produced + n
          → unit_at unit_bytes i (copy_units n distance unit_bytes produced output)
            ≡ unit_at unit_bytes (i - distance) (copy_units n distance unit_bytes produced output))
copy_units-unit_at n distance unit_bytes produced output some_distance inside size = (
  λ i old. rw (copy_units-copied n distance unit_bytes produced output) (
      unit_at-append unit_bytes i produced output (copied n distance unit_bytes produced output) old
        size),
  repeats distance unit_bytes some_distance n produced output inside size,
)
