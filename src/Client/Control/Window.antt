-- ===== src/Client/Control/Window.antt =====
-- The ACK window: what is counted, and when an ACK goes out.
use oxide_spice.Common.{
  ℕ, zero, suc, ◌+◌, ◌*◌, ◌<◌, ◌≡◌, refl, ap, ◌∙◌, subst, arith, true, [], ◌==◌, ◌⊎◌, inl, inr,
  Bool-cases, leb, leb→le,
}
use native.Mathlib.Decide.{dec_lt}
use oxide_spice.Errors.{Result, ok, ok-injective, ◌>>=◌, bind_ok}
use oxide_spice.Bytes.{IsU32}
use oxide_spice.Messages.CommonClient
use oxide_spice.Client.Error.{ClientError}
use oxide_spice.Client.Transport.{Channel, WriteAll, write_message}
use oxide_spice.Client.Control.Frames.{send_acks, advanced, Acked, write_message-Acked}
use oxide_spice.Client.Control.{ControlState, acknowledge_envelope, send_ack, saturating_suc, new}

-- The number of consumed envelopes stays below an installed window.
pub record IsValid (s : ControlState) : Type 0 where
  pub narrow : IsU32 s.window
  pub off : s.window ≡ 0 → s.consumed_since_ack ≡ 0
  pub below : 0 < s.window → s.consumed_since_ack < s.window

pub new-IsValid : IsValid new
new-IsValid = record { narrow = omega arith; off = λ _. refl; below = λ h. absurd (omega arith) }

module _ {S : Type 0} (write_all : WriteAll S) where
  -- What one envelope does under an installed window: it is counted, or it completes the window and
  -- an ACK is written.
  abbrev Counted : ControlState → Channel S → ControlState → Channel S → Type 0
  Counted s c s' c' =
      (s'.window ≡ s.window)
      × (((s'.consumed_since_ack ≡ s.consumed_since_ack + 1)
            × (s.consumed_since_ack + 1 < s.window)
            × (c' ≡ c))
          ⊎ ((s'.consumed_since_ack ≡ 0)
              × (s.consumed_since_ack + 1 ≡ s.window)
              × Acked write_all c c'))

  unchanged :
      (s : ControlState) (c : Channel S) {s' : ControlState} {c' : Channel S}
      → s.window ≡ 0
      → acknowledge_envelope write_all s c ≡ ok (s', c')
      → s ≡ s'
  unfolding acknowledge_envelope
  unchanged s c off e =
      let zero_window : (s.window == 0) ≡ true = ground arith in
      ap (λ (q : ControlState × Channel S). q.0) (ok-injective (rw zero_window at e))

  ack_sent :
      (s : ControlState) (c : Channel S) {s' : ControlState} {c' : Channel S}
      → IsValid s
      → 0 < s.window
      → leb s.window (saturating_suc s.consumed_since_ack) ≡ true
      → send_ack write_all s c ≡ ok (s', c')
      → Counted s c s' c'
  unfolding send_ack saturating_suc
  ack_sent s c {s'} {c'} v h full e =
      bind_ok (write_message write_all c CommonClient.ack []) _ e λ d wrote e1.
        let one = write_message-Acked write_all c wrote in
        let edge = v.below h in
        let limit = leb→le s.window _ full in
        subst (λ (q : ControlState × Channel S). Counted s c q.0 q.1) (ok-injective e1)
          (refl, inr (refl, omega arith, one))

  step_count :
      (s : ControlState) (c : Channel S) {s' : ControlState} {c' : Channel S}
      → IsValid s
      → 0 < s.window
      → acknowledge_envelope write_all s c ≡ ok (s', c')
      → Counted s c s' c'
  unfolding acknowledge_envelope saturating_suc
  step_count s c {s'} {c'} v h e = elim (Bool-cases (s.window == 0)) [
    | inl off ↦ absurd (ground arith)
    | inr on ↦ elim (Bool-cases (leb s.window (saturating_suc s.consumed_since_ack))) [
      | inl full ↦ ack_sent s c v h full (rw full at (rw on at e))
      | inr more ↦
          let edge = v.narrow in
          let bound = v.below h in
          subst (λ (q : ControlState × Channel S). Counted s c q.0 q.1)
            (ok-injective (rw more at (rw on at e))) (refl, inl (ground arith, ground arith, refl))
    ]
  ]

  Counted-IsValid :
      (s t : ControlState) (c d : Channel S)
      → IsValid s
      → 0 < s.window
      → Counted s c t d
      → IsValid t
  Counted-IsValid s t c d v h (same, moved) = record {
    narrow = let edge = v.narrow in omega arith;
    off = λ z. absurd (omega arith);
    below = λ p. ground arith;
  }

  -- Whatever the window, accounting for an envelope keeps the state valid.
  pub acknowledge_envelope-IsValid :
      (s : ControlState) (c : Channel S) {s' : ControlState} {c' : Channel S}
      → IsValid s
      → acknowledge_envelope write_all s c ≡ ok (s', c')
      → IsValid s'
  acknowledge_envelope-IsValid s c {s'} {c'} v e = elim (dec_lt 0 s.window) [
    | yes on ↦ Counted-IsValid s s' c c' v on (step_count s c v on e)
    | no off ↦ let same : s ≡ s' = unchanged s c (omega arith) e in subst IsValid same v
  ]

  -- The accounting of `k` envelopes one after the other.
  unfoldable pub acknowledge_all :
      ℕ → ControlState → Channel S → Result ClientError (ControlState × Channel S)
  acknowledge_all zero s c = ok (s, c)
  acknowledge_all (suc k) s c = do
    (s', c') ← acknowledge_envelope write_all s c
    acknowledge_all k s' c'

  -- What accounting for `k` envelopes did.
  abbrev Accounted : ℕ → ControlState → Channel S → ControlState → Channel S → Type 0
  Accounted k s c s' c' =
      (acks : ℕ) × (send_acks write_all acks c.framing c.next_serial c.stream ≡ ok c'.stream)
      × (c' ≡ advanced write_all c c'.stream acks)
      × (s'.consumed_since_ack + acks * s.window ≡ s.consumed_since_ack + k)
      × (s'.consumed_since_ack < s.window)
      × (s'.window ≡ s.window)

  one_more :
      (k : ℕ) (s : ControlState) (c : Channel S) (t : ControlState) (d : Channel S)
      (s' : ControlState) (c' : Channel S)
      → Counted s c t d
      → Accounted k t d s' c'
      → Accounted (suc k) s c s' c'
  unfolding send_acks
  one_more k s c t d s' c' (same, inl (one, _, still)) (acks, sent, moved, total, below, kept) =
      let product : acks * t.window ≡ acks * s.window = ap (λ (q : ℕ). acks * q) same in
      (
        acks,
        subst
            (λ (q : Channel S).
              send_acks write_all acks q.framing q.next_serial q.stream ≡ ok c'.stream)
            still sent,
        moved ∙ ap (λ (q : Channel S). advanced write_all q c'.stream acks) still,
        omega arith,
        omega arith,
        omega arith,
      )
  one_more k s c t d s' c' (same, inr (none_left, full, (stream, wrote, after)))
        (acks, sent, moved, total, below, kept) =
      let product : acks * t.window ≡ acks * s.window = ap (λ (q : ℕ). acks * q) same in
      let serials : c.next_serial + 1 + acks ≡ c.next_serial + suc acks = omega arith in
      let later =
        subst
          (λ (q : Channel S).
            send_acks write_all acks q.framing q.next_serial q.stream ≡ ok c'.stream)
          after sent in
      (
        suc acks,
        rw (wrote, send_acks) later,
        moved
            ∙ ap (λ (q : Channel S). advanced write_all q c'.stream acks) after
            ∙ ap (λ (n : ℕ). record c { stream = c'.stream; next_serial = n }) serials,
        omega arith,
        omega arith,
        omega arith,
      )

  -- From a valid state under an installed window of `w` messages, `k` envelopes that are
  -- accounted for without an error write one ACK for each `w` of the messages counted since the
  -- last one, and keep the remainder: the stream is what writing that many ACK messages and
  -- nothing else makes of it, under consecutive serial numbers, and nothing else of the channel
  -- changes.
  pub acknowledge_all_window :
      (k : ℕ) (s : ControlState) (c : Channel S) {s' : ControlState} {c' : Channel S}
      → IsValid s
      → 0 < s.window
      → acknowledge_all k s c ≡ ok (s', c')
      → (acks : ℕ) × (send_acks write_all acks c.framing c.next_serial c.stream ≡ ok c'.stream)
        × (c' ≡ advanced write_all c c'.stream acks)
        × (s'.consumed_since_ack + acks * s.window ≡ s.consumed_since_ack + k)
        × (s'.consumed_since_ack < s.window)
        × (s'.window ≡ s.window)
  unfolding acknowledge_all send_acks
  acknowledge_all_window zero s c v h e =
      let still : c ≡ advanced write_all c c.stream 0 =
        ap (λ (n : ℕ). record c { next_serial = n }) (omega arith) in
      subst (λ (q : ControlState × Channel S). Accounted 0 s c q.0 q.1) (ok-injective e)
        (0, refl, still, omega arith, v.below h, refl)
  acknowledge_all_window (suc k) s c {s'} {c'} v h e =
      bind_ok (acknowledge_envelope write_all s c) _ e λ mid first rest.
        let step = step_count s c v h first in
        let valid = Counted-IsValid s mid.0 c mid.1 v h step in
        one_more k s c mid.0 mid.1 s' c' step
          (acknowledge_all_window k mid.0 mid.1 valid (omega (arith, step.0)) rest)
