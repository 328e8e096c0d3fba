-- ===== src/Client/Inputs/Coalesce.antt =====
-- Relative motion that was not sent yet.
use oxide_spice.Common.{
  ◌≡◌, refl, sym, ap, ◌∙◌, subst, arith, true, ◌&&◌, Bool-cases, inl, inr, Option, none, some,
  Option-cases, List, [], ◌∷◌,
}
use oxide_spice.Errors.{Result, ok, err}
use oxide_spice.Bytes.{ℤ, pos, negsuc, ◌+ℤ◌, is_i32, checked_add_i32}
use oxide_spice.Inputs.{MouseButtons}
use oxide_spice.Client.Inputs.{
  InputPaths, RelativeMotion, InputSendError, is_zero, is_server, coalesce, accumulate,
  store_motion, move_pointer,
}

-- One call of the host.
pub record Move : Type 0 where
  pub dx : ℤ
  pub dy : ℤ
  pub buttons : MouseButtons

-- The displacement that is still to be sent.
abbrev pub pending_x : Option RelativeMotion → ℤ
pending_x none = pos 0
pending_x (some motion) = motion.dx

abbrev pub pending_y : Option RelativeMotion → ℤ
pending_y none = pos 0
pending_y (some motion) = motion.dy

-- The calls of a host, one after the other, as long as none fails.
pub data Moved : InputPaths → List Move → InputPaths → Type 0 where
  rest : {p : InputPaths} → Moved p [] p
  move :
      (m : Move) (ms : List Move) {p q : InputPaths}
      → (move_pointer m.dx m.dy m.buttons p).1 ≡ ok tt
      → Moved ((move_pointer m.dx m.dy m.buttons p).0) ms q
      → Moved p (m ∷ ms) q

abbrev pub sum_x : ℤ → List Move → ℤ
sum_x z [] = z
sum_x z (m ∷ ms) = sum_x (z +ℤ m.dx) ms

abbrev pub sum_y : ℤ → List Move → ℤ
sum_y z [] = z
sum_y z (m ∷ ms) = sum_y (z +ℤ m.dy) ms

zero-plus : (z : ℤ) → pos 0 +ℤ z ≡ z
zero-plus (pos n) = ground arith
zero-plus (negsuc n) = ground arith

plus-zero : (z d : ℤ) → is_zero d ≡ true → z +ℤ d ≡ z
unfolding is_zero
plus-zero (pos m) (pos n) h = ground arith
plus-zero (negsuc m) (pos n) h = ground arith
plus-zero z (negsuc n) h = absurd (cc)

abbrev Added : Option RelativeMotion → Option RelativeMotion → Move → Type 0
Added old new m = (pending_x new ≡ pending_x old +ℤ m.dx) × (pending_y new ≡ pending_y old +ℤ m.dy)

checked_add_i32_lem : (a b : ℤ) {s : ℤ} → checked_add_i32 a b ≡ some s → s ≡ a +ℤ b
checked_add_i32_lem a b {s} e = elim (Bool-cases (is_i32 (a +ℤ b))) [
  | inl fits ↦ let found = rw fits at e in cc
  | inr over ↦ let missing = rw over at e in absurd (cc)
]

coalesce_lem :
    (m : Move) (motion : RelativeMotion)
    → (coalesce m.dx m.dy m.buttons motion).1 ≡ ok tt
    → Added (some motion) (some ((coalesce m.dx m.dy m.buttons motion).0)) m
unfolding coalesce
coalesce_lem m motion e = elim (Option-cases (checked_add_i32 motion.dx m.dx)) [
  | inl over ↦ let failed = rw (over, coalesce) at e in absurd (cc)
  | inr (x, right) ↦ elim (Option-cases (checked_add_i32 motion.dy m.dy)) [
    | inl over ↦ let failed = rw (right, over, coalesce) at e in absurd (cc)
    | inr (y, down) ↦
        rw (right, down, coalesce)
          (checked_add_i32_lem motion.dx m.dx right, checked_add_i32_lem motion.dy m.dy down)
  ]
]

stored :
    (p : InputPaths) (r : RelativeMotion × Result InputSendError (Unit {0}))
    → (store_motion p r).1 ≡ ok tt
    → (r.1 ≡ ok tt) × ((store_motion p r).0.relative_motion ≡ some r.0)
unfolding store_motion
stored p (motion, ok done) e = (cc, refl)
stored p (motion, err x) e = absurd (cc)

first_moved :
    (m : Move) (p : InputPaths)
    → Added none ((accumulate m.dx m.dy m.buttons p none).0.relative_motion) m
unfolding accumulate store_motion
first_moved m p = (sym (zero-plus m.dx), sym (zero-plus m.dy))

next_moved :
    (m : Move) (p : InputPaths) (motion : RelativeMotion)
    → (accumulate m.dx m.dy m.buttons p (some motion)).1 ≡ ok tt
    → Added (some motion) ((accumulate m.dx m.dy m.buttons p (some motion)).0.relative_motion) m
unfolding accumulate
next_moved m p motion e =
    let (fine, now) = stored p (coalesce m.dx m.dy m.buttons motion) e in
    subst (λ q. Added (some motion) q m) (sym now) (coalesce_lem m motion fine)

accumulated :
    (m : Move) (p : InputPaths) (old : Option RelativeMotion)
    → (accumulate m.dx m.dy m.buttons p old).1 ≡ ok tt
    → Added old ((accumulate m.dx m.dy m.buttons p old).0.relative_motion) m
accumulated m p none e = first_moved m p
accumulated m p (some motion) e = next_moved m p motion e

moved :
    (m : Move) (p : InputPaths)
    → (move_pointer m.dx m.dy m.buttons p).1 ≡ ok tt
    → Added p.relative_motion ((move_pointer m.dx m.dy m.buttons p).0.relative_motion) m
unfolding move_pointer
moved m p e = elim (Bool-cases (is_server p.mouse_mode)) [
  | inr other ↦ let failed = rw other at e in absurd (cc)
  | inl relative ↦ elim (Bool-cases (is_zero m.dx && is_zero m.dy)) [
    | inl still ↦
        rw (relative, still)
          (
            sym (plus-zero (pending_x p.relative_motion) m.dx (ground arith)),
            sym (plus-zero (pending_y p.relative_motion) m.dy (ground arith)),
          )
    | inr some_move ↦
        rw (relative, some_move)
          (accumulated m p p.relative_motion (rw some_move at (rw relative at e)))
  ]
]

-- After any number of accepted calls of `move_pointer`, the motion that is still to be sent is the sum
-- of the motion that was pending and all the displacements, in both coordinates.
pub pending-sum :
    {p q : InputPaths} {ms : List Move}
    → Moved p ms q
    → (pending_x q.relative_motion ≡ sum_x (pending_x p.relative_motion) ms)
      × (pending_y q.relative_motion ≡ sum_y (pending_y p.relative_motion) ms)
pending-sum rest = (refl, refl)
pending-sum {p} (move m ms fine later) =
    let (right, down) = moved m p fine in
    let (x, y) = pending-sum later in
    (x ∙ ap (λ z. sum_x z ms) right, y ∙ ap (λ z. sum_y z ms) down)
