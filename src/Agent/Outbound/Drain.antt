-- ===== src/Agent/Outbound/Drain.antt =====
-- A message sent to its end: `next_fragment` again and again, as the sender does while it has tokens.
use oxide_spice.Common.{
  ℕ, zero, suc, ◌+◌, ◌*◌, ◌/◌, ◌≤◌, ◌<◌, ◌≡◌, refl, sym, ap, ◌∙◌, arith, true, Bool-cases, inl, inr,
  List, [], ◌∷◌, ◌++◌, ◌==◌, min, length, length-append, length-drop, drop, drop-drop,
  take-append-drop, All,
}
use oxide_spice.Errors.{ok, err, invalid_value, decode_error}
use oxide_spice.Bytes.{Bytes}
use oxide_spice.Agent.Stream.Fragments.{IsFragment, concat}
use oxide_spice.Agent.Outbound.{OutboundAgentMessage, is_complete, moved, next_fragment}
use oxide_spice.Agent.Outbound.Window.{
  stream, left, window, IsValid, moved-IsValid, length-window, next_fragment-window,
}

-- The message after at most `fuel` calls, and the fragments that they wrote.
unfoldable pub drain : ℕ → OutboundAgentMessage → OutboundAgentMessage × List Bytes
drain zero m = (m, [])
drain (suc fuel) m = elim (next_fragment m) [
  | err e ↦ (m, [])
  | ok (m', fragment) ↦ let rest = drain fuel m' in (rest.0, fragment ∷ rest.1)
]

-- What a finished message and its fragments have to be.
pub record IsSent (m m' : OutboundAgentMessage) (fragments : List Bytes) : Type 0 where
  pub complete : is_complete m' ≡ true
  pub whole : concat fragments ≡ drop m.stream_offset (stream m)
  pub count : length fragments ≡ (left m + 2047) / 2048
  pub sizes : All IsFragment fragments

none_left : (m : OutboundAgentMessage) → IsValid m → left m ≡ 0 → IsSent m m []
unfolding is_complete
none_left m v h =
    let inside : m.stream_offset ≤ 20 + length m.payload = v.inside in
    let size : length m.header ≡ 20 = v.header_size in
    record {
      complete = ground arith;
      whole = sym (
          empty (drop m.stream_offset (stream m)) (
            omega
              (arith, length-drop m.stream_offset (stream m), length-append m.header m.payload)));
      count = omega arith;
      sizes = tt;
    }
  where
    empty : (xs : Bytes) → length xs ≡ 0 → xs ≡ []
    empty [] e = refl
    empty (x ∷ xs) e = absurd (omega arith)

-- A complete message has no next fragment.
next_fragment_complete :
    (m : OutboundAgentMessage)
    → is_complete m ≡ true
    → next_fragment m
      ≡ err (decode_error invalid_value m.stream_offset "completed outbound agent message")
unfolding next_fragment
next_fragment_complete m h = rw h refl

complete_stays :
    (fuel : ℕ) (m : OutboundAgentMessage) → is_complete m ≡ true → drain fuel m ≡ (m, [])
unfolding drain
complete_stays zero m h = refl
complete_stays (suc fuel) m h = rw (next_fragment_complete m h, drain) refl

drain_more :
    (fuel : ℕ) (m : OutboundAgentMessage) (m' : OutboundAgentMessage) (fragment : Bytes)
    → next_fragment m ≡ ok (m', fragment)
    → drain (suc fuel) m ≡ ((drain fuel m').0, fragment ∷ (drain fuel m').1)
unfolding drain
drain_more fuel m m' fragment e = rw (e, drain) refl

one_more :
    (m m' : OutboundAgentMessage) (n : ℕ) (fragments : List Bytes)
    → IsValid m
    → n ≡ min 2048 (left m)
    → 0 < left m
    → IsSent (moved n m) m' fragments
    → IsSent m m' (window n m ∷ fragments)
one_more m m' n fragments v size some_left s =
    let inside : m.stream_offset ≤ 20 + length m.payload = v.inside in
    let count : length fragments ≡ (left (moved n m) + 2047) / 2048 = s.count in
    let long : length (window n m) ≡ n = length-window n m v (omega arith) in
    record {
      complete = s.complete;
      whole =
          ap (λ q. window n m ++ q) (s.whole ∙ sym (drop-drop m.stream_offset n (stream m)))
          ∙ take-append-drop n (drop m.stream_offset (stream m));
      count = ground arith;
      sizes = ((omega arith, omega arith), s.sizes);
    }

-- Enough calls, one for each 2048 bytes that are left, send the message to its end: it is complete,
-- its fragments put together are the bytes that were left, each has between 1 and 2048 bytes, and
-- there is no more of them than needed.
pub drain-IsSent :
    (fuel : ℕ) (m : OutboundAgentMessage)
    → IsValid m
    → left m ≤ 2048 * fuel
    → IsSent m (drain fuel m).0 (drain fuel m).1
unfolding drain
drain-IsSent zero m v enough = none_left m v (omega arith)
drain-IsSent (suc fuel) m v enough = elim (Bool-cases (left m == 0)) [
  | inl done ↦
      let sent : IsSent m m [] = none_left m v (ground arith) in
      rw (complete_stays (suc fuel) m sent.complete) sent
  | inr more ↦
      let n : ℕ = min 2048 (left m) in
      rw (drain_more fuel m (moved n m) (window n m) (next_fragment-window m v (ground arith))) (
        one_more m (drain fuel (moved n m)).0 n (drain fuel (moved n m)).1 v refl (ground arith)
          (drain-IsSent fuel (moved n m) (moved-IsValid n m v (ground arith)) (ground arith)))
]
