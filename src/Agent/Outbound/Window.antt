-- ===== src/Agent/Outbound/Window.antt =====
-- Fragments as windows of the message's stream.
use oxide_spice.Common.{
  ℕ, zero, suc, ◌+◌, ◌-◌, ◌≤◌, ◌<◌, ◌≡◌, refl, sym, ap, ◌∙◌, arith, false, Bool-cases, not, ◌&&◌,
  inl, inr, List, [], ◌∷◌, ◌++◌, append_assoc, append-nil, ◌==◌, ltb, min, length, length-append,
  length-take, length-drop, take, drop, take-nil, drop-drop,
}
use oxide_spice.Errors.{ok}
use oxide_spice.Bytes.{Bytes}
use oxide_spice.Agent.Outbound.{
  OutboundAgentMessage, is_complete, chunk, copied, moved, fill, next_fragment,
}

-- The bytes that the message stands for.
abbrev pub stream : OutboundAgentMessage → Bytes
stream m = m.header ++ m.payload

-- The header has its 20 bytes and the offset is inside the stream.
pub record IsValid (m : OutboundAgentMessage) : Type 0 where
  pub header_size : length m.header ≡ 20
  pub inside : m.stream_offset ≤ 20 + length m.payload

-- What is left to send.
abbrev pub left : OutboundAgentMessage → ℕ
left m = 20 + length m.payload - m.stream_offset

module _ {ℓ} {A : Type ℓ} where
  take_add : (m n : ℕ) (xs : List A) → take (m + n) xs ≡ take m xs ++ take n (drop m xs)
  take_add zero n xs = ap (λ k. take k xs) (omega arith)
  take_add (suc m) n [] = take-nil (suc m + n) ∙ sym (take-nil n)
  take_add (suc m) n (x ∷ xs) =
      let step : suc m + n ≡ suc (m + n) = omega arith in
      rw step (ap (λ q. x ∷ q) (take_add m n xs))

  take-append : (n : ℕ) (xs ys : List A) → n ≤ length xs → take n (xs ++ ys) ≡ take n xs
  take-append zero xs ys h = refl
  take-append (suc n) [] ys h = absurd (omega arith)
  take-append (suc n) (x ∷ xs) ys h = ap (λ q. x ∷ q) (take-append n xs ys (omega arith))

  drop-append : (n : ℕ) (xs ys : List A) → n ≤ length xs → drop n (xs ++ ys) ≡ drop n xs ++ ys
  drop-append zero xs ys h = refl
  drop-append (suc n) [] ys h = absurd (omega arith)
  drop-append (suc n) (x ∷ xs) ys h = drop-append n xs ys (omega arith)

  drop-append-past :
      (n : ℕ) (xs ys : List A) → length xs ≤ n → drop n (xs ++ ys) ≡ drop (n - length xs) ys
  drop-append-past n [] ys h = ap (λ k. drop k ys) (omega arith)
  drop-append-past zero (x ∷ xs) ys h = absurd (omega arith)
  drop-append-past (suc n) (x ∷ xs) ys h =
      drop-append-past n xs ys (omega arith) ∙ ap (λ k. drop k ys) (omega arith)

-- One round appends the next bytes of the stream.
chunk-stream_lem :
    (m : OutboundAgentMessage) (written : ℕ)
    → IsValid m
    → chunk m written ≡ take (copied m written) (drop m.stream_offset (stream m))
unfolding chunk copied
chunk-stream_lem m written v = elim (Bool-cases (ltb m.stream_offset 20)) [
  | inl in_header ↦
      let short : m.stream_offset < 20 = ground arith in
      let size : length m.header ≡ 20 = v.header_size in
      rw (in_header, drop-append m.stream_offset m.header m.payload (omega arith))
        (sym (
          take-append _ (drop m.stream_offset m.header) m.payload
            (ground (arith, length-drop m.stream_offset m.header))))
  | inr in_payload ↦
      let past : 20 ≤ m.stream_offset = ground arith in
      let size : length m.header ≡ 20 = v.header_size in
      rw (in_payload, drop-append-past m.stream_offset m.header m.payload (omega arith), size) refl
]

-- It is at least one byte while there is room and something left, and never too much.
copied_bounds :
    (m : OutboundAgentMessage) (written : ℕ)
    → IsValid m
    → written < 2048
    → 0 < left m
    → (0 < copied m written) × (copied m written ≤ left m) × (copied m written ≤ 2048 - written)
unfolding copied
copied_bounds m written v room some_left =
    let inside : m.stream_offset ≤ 20 + length m.payload = v.inside in
    (ground arith, ground arith, ground arith)

-- The next `n` bytes to send.
abbrev pub window : ℕ → OutboundAgentMessage → Bytes
window n m = take n (drop m.stream_offset (stream m))

pub moved-IsValid :
    (n : ℕ) (m : OutboundAgentMessage) → IsValid m → n ≤ left m → IsValid (moved n m)
moved-IsValid n m v h =
    let inside : m.stream_offset ≤ 20 + length m.payload = v.inside in
    record { header_size = v.header_size; inside = omega arith }

pub length-window :
    (n : ℕ) (m : OutboundAgentMessage) → IsValid m → n ≤ left m → length (window n m) ≡ n
length-window n m v h =
    let size : length m.header ≡ 20 = v.header_size in
    length-take n (drop m.stream_offset (stream m))
      (omega (arith, length-drop m.stream_offset (stream m), length-append m.header m.payload))

nothing_left :
    (m : OutboundAgentMessage) (n : ℕ) (output : Bytes)
    → n ≡ 0
    → ◌≡◌ {A = OutboundAgentMessage × Bytes} (m, output) (moved n m, output ++ window n m)
nothing_left m n output none_left =
    let same : m.stream_offset + 0 ≡ m.stream_offset = omega arith in
    rw (none_left, same, append-nil) refl

two_windows :
    (m : OutboundAgentMessage) (c n : ℕ) (output : Bytes)
    → ◌≡◌ {A = OutboundAgentMessage × Bytes}
        (moved n (moved c m), (output ++ window c m) ++ window n (moved c m))
        (moved (c + n) m, output ++ window (c + n) m)
two_windows m c n output =
    let sum : m.stream_offset + c + n ≡ m.stream_offset + (c + n) = omega arith in
    rw (sum, append_assoc, take_add c n (drop m.stream_offset (stream m)), drop-drop) refl

-- The loop fills the output up to the fragment's bound or the end of the stream.
fill-window :
    (fuel : ℕ) (m : OutboundAgentMessage) (output : Bytes)
    → IsValid m
    → length output ≤ 2048
    → 2048 - length output ≤ fuel
    → fill fuel m output ≡ (
      moved (min (2048 - length output) (left m)) m,
      output ++ window (min (2048 - length output) (left m)) m,
    )
unfolding fill is_complete
fill-window zero m output v bound enough = nothing_left m _ output (ground arith)
fill-window (suc fuel) m output v bound enough =
    let inside : m.stream_offset ≤ 20 + length m.payload = v.inside in
    elim (Bool-cases (ltb (length output) 2048 && not (m.stream_offset == 20 + length m.payload))) [
      | inr done ↦ rw done (nothing_left m _ output (ground arith))
      | inl going ↦
          let c : ℕ = copied m (length output) in
          let b : (0 < c) × (c ≤ left m) × (c ≤ 2048 - length output) =
            copied_bounds m (length output) v (ground arith) (ground arith) in
          let size : length (output ++ window c m) ≡ length output + c =
            length-append output (window c m)
            ∙ ap (λ k. length output + k) (length-window c m v b.1) in
          let n : ℕ = min (2048 - length (output ++ window c m)) (left (moved c m)) in
          let sum : min (2048 - length output) (left m) ≡ c + n = ground arith in
          rw (going, chunk-stream_lem m (length output) v, sum)
            (fill-window fuel (moved c m) (output ++ window c m) (moved-IsValid c m v b.1)
                (omega arith) (omega arith)
              ∙ two_windows m c n output)
    ]

-- A fragment of an unfinished message is the next 2048 bytes of its header and payload, or what is
-- left of them when that is less, and the offset moves past exactly these.
pub next_fragment-window :
    (m : OutboundAgentMessage)
    → IsValid m
    → 0 < left m
    → next_fragment m ≡ ok (moved (min 2048 (left m)) m, window (min 2048 (left m)) m)
unfolding next_fragment is_complete
next_fragment-window m v h =
    let going : (m.stream_offset == 20 + length m.payload) ≡ false = ground arith in
    rw going (ap ok (fill-window 2048 m [] v (omega arith) (omega arith)))
