-- ===== src/Common/Lists.antt =====
-- Lists measured, cut and indexed by native numbers. `get_range` is Rust's checked slice
-- `xs.get(start..start + n)`.
use Prim.Native.Nat.{ℕ, zero, suc, ◌+◌, ◌-◌, ◌≤◌, ◌<◌}
use mathlib.Core.Path.{◌≡◌, refl, ap}
use mathlib.Core.List.{List, [], ◌∷◌, ◌++◌}
use mathlib.Core.Option.{Option, none, some}
use mathlib.Core.Path.{sym, ◌∙◌}
use mathlib.Core.Logic.{inl, inr}
use native.Mathlib.Nat.{zero-add, suc-add}
use native.Mathlib.Omega.{arith}
use oxide_spice.Common.Tests.{Option-cases}

module _ {ℓ} {A : Type ℓ} where
  abbrev pub length : List A → ℕ
  length [] = 0
  length (x ∷ xs) = suc (length xs)

  abbrev pub get_elem? : List A → ℕ → Option A
  get_elem? [] i = none
  get_elem? (x ∷ xs) zero = some x
  get_elem? (x ∷ xs) (suc i) = get_elem? xs i

  abbrev pub drop : ℕ → List A → List A
  drop zero xs = xs
  drop (suc n) [] = []
  drop (suc n) (x ∷ xs) = drop n xs

  abbrev pub take : ℕ → List A → List A
  take zero xs = []
  take (suc n) [] = []
  take (suc n) (x ∷ xs) = x ∷ take n xs

  abbrev pub replicate : ℕ → A → List A
  replicate zero a = []
  replicate (suc n) a = a ∷ replicate n a

  abbrev pub All {κ} : (A → Type κ) → List A → Type κ
  All P [] = Unit
  All P (x ∷ xs) = P x × All P xs

  abbrev cons? : A → Option (List A) → Option (List A)
  cons? x none = none
  cons? x (some xs) = some (x ∷ xs)

  -- The first `n` elements, or none when there are fewer.
  abbrev pub take_exact : ℕ → List A → Option (List A)
  take_exact zero xs = some []
  take_exact (suc n) [] = none
  take_exact (suc n) (x ∷ xs) = cons? x (take_exact n xs)

  abbrev pub get_range : ℕ → ℕ → List A → Option (List A)
  get_range zero n xs = take_exact n xs
  get_range (suc s) n [] = none
  get_range (suc s) n (x ∷ xs) = get_range s n xs

module _ {ℓ} {A : Type ℓ} where
  pub length-append : (xs ys : List A) → length (xs ++ ys) ≡ length xs + length ys
  length-append [] ys = omega arith
  length-append (x ∷ xs) ys = omega (arith, length-append xs ys)

  pub length-drop : (n : ℕ) (xs : List A) → length (drop n xs) ≡ length xs - n
  length-drop zero xs = omega arith
  length-drop (suc n) [] = omega arith
  length-drop (suc n) (x ∷ xs) = omega (arith, length-drop n xs)

  pub length-replicate : (n : ℕ) (a : A) → length (replicate n a) ≡ n
  length-replicate zero a = refl
  length-replicate (suc n) a = ap suc (length-replicate n a)

  pub drop-nil : (n : ℕ) → drop {A = A} n [] ≡ []
  drop-nil zero = refl
  drop-nil (suc n) = refl

  pub take-nil : (n : ℕ) → take {A = A} n [] ≡ []
  take-nil zero = refl
  take-nil (suc n) = refl

  pub drop-drop : (m n : ℕ) (xs : List A) → drop n (drop m xs) ≡ drop (m + n) xs
  drop-drop zero n xs = rw zero-add
  drop-drop (suc m) n [] = drop-nil n ∙ sym (drop-nil (suc m + n))
  drop-drop (suc m) n (x ∷ xs) = rw suc-add (drop-drop m n xs)

  pub drop-length-append : (xs ys : List A) → drop (length xs) (xs ++ ys) ≡ ys
  drop-length-append [] ys = refl
  drop-length-append (x ∷ xs) ys = drop-length-append xs ys

  pub take-append-drop : (n : ℕ) (xs : List A) → take n xs ++ drop n xs ≡ xs
  take-append-drop zero xs = refl
  take-append-drop (suc n) [] = refl
  take-append-drop (suc n) (x ∷ xs) = ap (λ q. x ∷ q) (take-append-drop n xs)

  pub length-take : (n : ℕ) (xs : List A) → n ≤ length xs → length (take n xs) ≡ n
  length-take zero xs h = refl
  length-take (suc n) [] h = absurd (omega arith)
  length-take (suc n) (x ∷ xs) h = ap suc (length-take n xs (omega arith))

  pub take-of_le : (n : ℕ) (xs : List A) → length xs ≤ n → take n xs ≡ xs
  take-of_le zero [] h = refl
  take-of_le zero (x ∷ xs) h = absurd (omega arith)
  take-of_le (suc n) [] h = refl
  take-of_le (suc n) (x ∷ xs) h = ap (λ q. x ∷ q) (take-of_le n xs (omega arith))

  pub take_exact-append : (xs ys : List A) → take_exact (length xs) (xs ++ ys) ≡ some xs
  take_exact-append [] ys = refl
  take_exact-append (x ∷ xs) ys = ap (cons? x) (take_exact-append xs ys)

  pub take_exact-short : (n : ℕ) (xs : List A) → length xs < n → take_exact n xs ≡ none
  take_exact-short zero xs h = absurd (omega arith)
  take_exact-short (suc n) [] h = refl
  take_exact-short (suc n) (x ∷ xs) h = ap (cons? x) (take_exact-short n xs (omega arith))

  -- A successful cut splits the list.
  pub take_exact_split :
      (n : ℕ) (xs ys : List A)
      → take_exact n xs ≡ some ys
      → (length ys ≡ n) × (xs ≡ ys ++ drop n xs)
  take_exact_split zero xs ys e = ground arith
  take_exact_split (suc n) [] ys e = ground arith
  take_exact_split (suc n) (x ∷ xs) ys e = elim (Option-cases (take_exact n xs)) [
    | inl h ↦ ground arith
    | inr (zs, h) ↦ ground (arith, take_exact_split n xs zs h)
  ]

  pub get_range-drop :
      (s n : ℕ) (xs : List A) → s ≤ length xs → get_range s n xs ≡ take_exact n (drop s xs)
  get_range-drop zero n xs h = refl
  get_range-drop (suc s) n [] h = absurd (omega arith)
  get_range-drop (suc s) n (x ∷ xs) h = get_range-drop s n xs (omega arith)

  pub get_range-none : (s n : ℕ) (xs : List A) → length xs < s + n → get_range s n xs ≡ none
  get_range-none zero n xs h = take_exact-short n xs (omega arith)
  get_range-none (suc s) n [] h = refl
  get_range-none (suc s) n (x ∷ xs) h = get_range-none s n xs (omega arith)
