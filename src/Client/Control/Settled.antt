-- ===== src/Client/Control/Settled.antt =====
-- What a common message may leave of the ACK state, and how the parts of its handling keep to it.
use oxide_spice.Common.{
  ℕ, zero, suc, ◌≡◌, inl, inr, sym, ◌∙◌, subst, arith, Bool-cases, some, Option-cases, [], ◌∷◌,
  ◌==◌, ◌≢◌, ◌⊎◌, ap, refl, take, leb, length, get_range, get_range-drop, get_range-none, drop,
  take_exact, take_exact_split, All,
}
use native.Mathlib.Decide.{dec_le}
use oxide_spice.Errors.{ok, ok-injective, bind_ok}
use oxide_spice.Bytes.{Bytes, IsByte, IsU32, from_le}
use oxide_spice.Wire.Inverse.{bytes-append, from_le-lt}
use oxide_spice.Messages.CommonServer
use oxide_spice.Messages.CommonClient
use oxide_spice.Client.Transport.{Channel, WriteAll, write_message}
use oxide_spice.Client.Control.{
  ControlState, Message, read_u32, restart, observe_migration, acknowledge_envelope, send_ack,
  saturating_suc,
}
use oxide_spice.Client.Control.Frames.{write_message_lem}
use oxide_spice.Client.Control.Window.{IsValid}

bytes-drop : (n : ℕ) (bs : Bytes) → All IsByte bs → All IsByte (drop n bs)
bytes-drop zero bs h = h
bytes-drop (suc n) [] h = tt
bytes-drop (suc n) (b ∷ bs) h = bytes-drop n bs h.1

word-IsU32 : (bs word : Bytes) → All IsByte bs → take_exact 4 bs ≡ some word → IsU32 (from_le word)
word-IsU32 bs word h e =
    let (size, split) = take_exact_split 4 bs word e in
    let (front, _) = bytes-append word (drop 4 bs) (subst (All IsByte) split h) in
    rw size at (from_le-lt word front)

pub read_u32-IsU32 : (bs : Bytes) (offset : ℕ) → All IsByte bs → IsU32 (read_u32 bs offset)
unfolding read_u32
read_u32-IsU32 bs offset h = elim (Option-cases (get_range offset 4 bs)) [
  | inl out ↦ rw (out, read_u32) (omega arith)
  | inr (word, found) ↦
      rw (found, read_u32)
        (elim (dec_le offset (length bs)) [
          | yes within ↦
              word-IsU32 (drop offset bs) word (bytes-drop offset bs h)
                (sym (get_range-drop offset 4 bs within) ∙ found)
          | no past ↦ absurd (cc (get_range-none offset 4 bs (omega arith), found))
        ])
]

-- The two words of a body of eight bytes.
pub words_lem :
    (body : Bytes)
    → length body ≡ 8
    → (read_u32 body 0 ≡ from_le (take 4 body)) × (read_u32 body 4 ≡ from_le (take 4 (drop 4 body)))
unfolding read_u32
words_lem [] e = absurd (omega arith)
words_lem (a ∷ []) e = absurd (omega arith)
words_lem (a ∷ b ∷ []) e = absurd (omega arith)
words_lem (a ∷ b ∷ c ∷ []) e = absurd (omega arith)
words_lem (a ∷ b ∷ c ∷ d ∷ []) e = absurd (omega arith)
words_lem (a ∷ b ∷ c ∷ d ∷ f ∷ []) e = absurd (omega arith)
words_lem (a ∷ b ∷ c ∷ d ∷ f ∷ g ∷ []) e = absurd (omega arith)
words_lem (a ∷ b ∷ c ∷ d ∷ f ∷ g ∷ h ∷ []) e = absurd (omega arith)
words_lem (a ∷ b ∷ c ∷ d ∷ f ∷ g ∷ h ∷ k ∷ rest) e = (refl, refl)

-- The window that a message installed: its generation and size are the two words of the body.
abbrev pub IsInstalled : Message → ControlState → Type 0
IsInstalled m s =
    (m.message_type ≡ CommonServer.set_ack)
    × (length m.body ≡ 8)
    × (s.generation ≡ from_le (take 4 m.body))
    × (s.window ≡ from_le (take 4 (drop 4 m.body)))
    × (s.consumed_since_ack ≡ 0)

-- No window is installed and nothing is counted.
abbrev pub IsReset : ControlState → Type 0
IsReset s = (s.generation ≡ 0) × (s.window ≡ 0) × (s.consumed_since_ack ≡ 0)

abbrev pub IsKept : ControlState → ControlState → Type 0
IsKept s s' = (s'.generation ≡ s.generation) × (s'.window ≡ s.window)

abbrev pub IsOther : Message → Type 0
IsOther m = (m.message_type ≢ CommonServer.set_ack) × (m.message_type ≢ CommonServer.migrate)

abbrev pub Moved : ControlState → Message → ControlState → Type 0
Moved o m s =
    IsInstalled m s
    ⊎ (((m.message_type ≡ CommonServer.migrate) × IsReset s) ⊎ (IsOther m × IsKept o s))

-- A state that agrees with the channel on the migrations it has seen.
abbrev pub Settled : {S : Type 0} → ControlState → Message → ControlState → Channel S → Type 0
Settled o m s c =
    IsValid s × (s.migration_activation_count ≡ c.migration_activation_count) × Moved o m s

pub restart-IsValid : (n : ℕ) (s : ControlState) → IsValid (restart n s)
unfolding restart
restart-IsValid n s = record {
  narrow = omega arith;
  off = λ _. refl;
  below = λ h. absurd (omega arith);
}

-- The state in which a message is handled: as it was, or reset when the channel has moved.
pub observe_migration_lem :
    (n : ℕ) (s : ControlState)
    → IsValid s
    → let o = observe_migration n s in
      IsValid o
      × (o.migration_activation_count ≡ n)
      × (((s.migration_activation_count ≡ n) × (o ≡ s))
          ⊎ ((s.migration_activation_count ≢ n) × IsReset o))
unfolding observe_migration restart
observe_migration_lem n s v = elim (Bool-cases (s.migration_activation_count == n)) [
  | inl same ↦
      let agree : s.migration_activation_count ≡ n = ground arith in
      rw same (v, agree, inl (agree, refl))
  | inr moved ↦
      rw moved
        (restart-IsValid n s, refl, inr ((λ agree. absurd (ground arith)), (refl, refl, refl)))
]

module _ {S : Type 0} (write_all : WriteAll S) where
  pub write_message_count :
      (c : Channel S) (message_type : ℕ) (body : Bytes) {c' : Channel S}
      → write_message write_all c message_type body ≡ ok c'
      → c'.migration_activation_count ≡ c.migration_activation_count
  write_message_count c ty body e =
      let (stream, wrote, after) = write_message_lem write_all c ty body e in
      ap (λ (q : Channel S). q.migration_activation_count) after

  pub acknowledge_envelope_lem :
      (s : ControlState) (c : Channel S) {s' : ControlState} {c' : Channel S}
      → acknowledge_envelope write_all s c ≡ ok (s', c')
      → IsKept s s'
        × (s'.migration_activation_count ≡ s.migration_activation_count)
        × (c'.migration_activation_count ≡ c.migration_activation_count)
  unfolding acknowledge_envelope send_ack
  acknowledge_envelope_lem s c {s'} {c'} e = elim (Bool-cases (s.window == 0)) [
    | inl off ↦ same ((refl, refl), refl, refl) (ok-injective (rw off at e))
    | inr on ↦ elim (Bool-cases (leb s.window (saturating_suc s.consumed_since_ack))) [
      | inl complete ↦
          bind_ok (write_message write_all c CommonClient.ack []) _ (rw complete at (rw on at e))
            λ d wrote e1.
              same ((refl, refl), refl, write_message_count c CommonClient.ack [] wrote)
                (ok-injective e1)
      | inr more ↦ same ((refl, refl), refl, refl) (ok-injective (rw more at (rw on at e)))
    ]
  ]
    where
      same :
          {x y : ControlState × Channel S}
          → IsKept s x.0
            × (x.0.migration_activation_count ≡ s.migration_activation_count)
            × (x.1.migration_activation_count ≡ c.migration_activation_count)
          → x ≡ y
          → IsKept s y.0
            × (y.0.migration_activation_count ≡ s.migration_activation_count)
            × (y.1.migration_activation_count ≡ c.migration_activation_count)
      same h q =
          subst
            (λ (z : ControlState × Channel S).
              IsKept s z.0
              × (z.0.migration_activation_count ≡ s.migration_activation_count)
              × (z.1.migration_activation_count ≡ c.migration_activation_count))
            q h
