-- ===== src/Agent/Stream/Refine.antt =====
-- The rounds of `push_fragment_into` against `feed_all`.
use oxide_spice.Common.{
  ℕ, zero, suc, ◌+◌, ◌-◌, ◌≤◌, ◌<◌, ◌≡◌, refl, sym, ap, ◌∙◌, arith, false, ◌||◌, Bool-cases, inl,
  inr, Option, none, some, List, [], ◌∷◌, ◌++◌, append-nil, ◌==◌, ltb, leb, min, length,
  length-append, length-take, length-drop, take, drop, take-append-drop, take-nil, drop-nil,
}
use oxide_spice.Errors.{DecodeError, Result, ok, err, ok-injective}
use oxide_spice.Bytes.{Bytes}
use oxide_spice.Wire
use oxide_spice.Wire.{parse, u32, u64}
use oxide_spice.Wire.Inverse.{parse_ok, then_ok, require_ok}
use oxide_spice.Agent.Stream.{
  AgentMessage, PartialAgentMessage, AgentStreamDecoder, Round, next, failed, Pushed, pushed,
  read_header, finished, store_payload, take_payload, begin_payload, store_header, round, rounds,
  push_fragment_into,
}
use oxide_spice.Agent.Stream.Feed.{begin, feed_header, feed_all}
use oxide_spice.Agent.Stream.FeedRuns.{
  state, IsReady, continue, more, store_more, payload_run, header_run,
}

-- The rest of a fragment after a round.
unfoldable pub finish : ℕ → Round → Pushed
finish fuel (next d rest output) = rounds fuel d rest output
finish fuel (failed d output e) = pushed d output (err e)

pub rounds-cons :
    (fuel b : ℕ) (bs : Bytes) (d : AgentStreamDecoder) (output : List AgentMessage)
    → rounds (suc fuel) d (b ∷ bs) output ≡ finish fuel (round d (b ∷ bs) output)
unfolding rounds finish
rounds-cons fuel b bs d output = same (round d (b ∷ bs) output)
  where
    same :
        (r : Round)
        → (elim r [
          | next d' rest output' ↦ rounds fuel d' rest output'
          | failed d' output' e ↦ pushed d' output' (err e)
        ])
          ≡ finish fuel r
    same (next d' rest output') = refl
    same (failed d' output' e) = refl

abbrev Refines : ℕ → Type 0
Refines fuel =
    (d : AgentStreamDecoder) (rest : Bytes) (output : List AgentMessage)
    → IsReady d
    → length rest ≤ fuel
    → rounds fuel d rest output ≡ feed_all rest d output

store_any :
    (mx : ℕ) (h : Bytes) (cur cur' : Option PartialAgentMessage) (m : PartialAgentMessage)
    (output : List AgentMessage)
    → store_payload (state mx h cur) m [] output ≡ store_payload (state mx h cur') m [] output
unfolding store_payload
store_any mx h cur cur' m output = refl

-- A message starts with no payload.
pub begun :
    (mx : ℕ) (h : Bytes) {m : PartialAgentMessage}
    → parse (read_header mx) h ≡ ok m
    → m.payload ≡ []
unfolding read_header
begun mx h e = parse_ok (read_header mx) h e λ r e0.
    then_ok (u32 "agent protocol") _ (Wire.new h) e0 λ protocol r1 t1 e1.
      then_ok (u32 "agent message type") _ r1 e1 λ ty r2 t2 e2.
        then_ok (u64 "agent opaque") _ r2 e2 λ opaque r3 t3 e3.
          then_ok (u32 "agent payload size") _ r3 e3 λ size r4 t4 e4.
            require_ok (leb size mx) _ _ r4 e4 λ small e5.
              ap (λ (q : PartialAgentMessage × Wire.Reader). q.0.payload) (sym (ok-injective e5))

module _ (fuel : ℕ) (ih : Refines fuel) where
  -- A stored payload is the end of a message or not, and either way the rest is fed.
  store_join :
      (mx : ℕ) (h : Bytes) (cur : Option PartialAgentMessage) (m : PartialAgentMessage)
      (rest : Bytes) (output : List AgentMessage)
      → length h < 20
      → length m.payload ≤ m.declared_size
      → length rest ≤ fuel
      → finish fuel (store_payload (state mx h cur) m rest output)
        ≡ continue (store_payload (state mx h cur) m [] output) rest
  unfolding store_payload finish continue
  store_join mx h cur m rest output short fits enough =
      elim (Bool-cases (length m.payload == m.declared_size)) [
        | inl full ↦ rw full (
            ih (state mx h none) rest (output ++ (finished m ∷ []))
              (record { filling = short; room = tt }) enough)
        | inr lacking ↦ rw lacking (
            ih (state mx h (some m)) rest output (record { filling = short; room = ground arith })
              enough)
      ]

  payload_round :
      (mx : ℕ) (h : Bytes) (cur : Option PartialAgentMessage) (m : PartialAgentMessage) (bs : Bytes)
      (output : List AgentMessage)
      → length h < 20
      → length m.payload < m.declared_size
      → length bs ≤ suc fuel
      → finish fuel (take_payload (state mx h cur) m bs output)
        ≡ feed_all bs (state mx h (some m)) output
  unfolding take_payload finish
  payload_round mx h cur m [] output short lacking enough =
      let whole : m.payload ++ take (min (m.declared_size - length m.payload) 0) [] ≡ m.payload =
        ap (λ q. m.payload ++ q) (take-nil _) ∙ append-nil m.payload in
      rw (whole, drop-nil, store_more (state mx h cur) m [] output lacking)
        (ih (state mx h (some m)) [] output (record { filling = short; room = lacking })
          (omega arith))
  payload_round mx h cur m (x ∷ xs) output short lacking enough =
      let c : ℕ = min (m.declared_size - length m.payload) (suc (length xs)) in
      let k : ℕ = c - 1 in
      let split : c ≡ suc k = ground arith in
      let small : k ≤ length xs = ground arith in
      let room : length m.payload + suc k ≤ m.declared_size = ground arith in
      let size : length (take k xs) ≡ k = length-take k xs small in
      rw split (
        store_join mx h cur (more m (x ∷ take k xs)) (drop k xs) output short
          (omega (arith, length-append m.payload (x ∷ take k xs))) (omega (arith, length-drop k xs))
        ∙ ap (λ r. continue r (drop k xs))
            (store_any mx h cur (some m) (more m (x ∷ take k xs)) output)
        ∙ sym (payload_run mx h m output x (take k xs) (drop k xs) (omega arith))
        ∙ ap (λ q. feed_all (x ∷ q) (state mx h (some m)) output) (take-append-drop k xs))

  -- A message without a payload is complete with its header.
  begin_empty :
      (mx : ℕ) (m : PartialAgentMessage) (bs : Bytes) (output : List AgentMessage)
      → m.payload ≡ []
      → m.declared_size ≡ 0
      → length bs ≤ fuel
      → finish fuel (take_payload (state mx [] none) m bs output)
        ≡ continue (store_payload (state mx [] none) m [] output) bs
  unfolding take_payload
  begin_empty mx m bs output fresh zero_size enough =
      let none_left : min (m.declared_size - length m.payload) (length bs) ≡ 0 = ground arith in
      rw (none_left, append-nil)
        (store_join mx [] none m bs output (omega arith) (rw fresh (omega arith)) enough)

  -- A round that completes the header goes on with the payload.
  begin_join :
      (mx : ℕ) (h : Bytes) (o : Result DecodeError PartialAgentMessage) (bs : Bytes)
      (output : List AgentMessage)
      → ((m : PartialAgentMessage) → o ≡ ok m → m.payload ≡ [])
      → length bs ≤ fuel
      → finish fuel (begin_payload (state mx h none) o bs output)
        ≡ continue (begin (state mx h none) o output) bs
  unfolding begin_payload begin finish continue
  begin_join mx h (err e) bs output fresh enough = refl
  begin_join mx h (ok m) bs output fresh enough =
      let none_yet : m.payload ≡ [] = fresh m refl in
      let length_zero : length m.payload ≡ 0 = ap length none_yet in
      elim (Bool-cases (m.declared_size == 0)) [
        | inl zero_size ↦ begin_empty mx m bs output none_yet (ground arith) enough
        | inr some_size ↦
            payload_round mx [] none m bs output (omega arith) (ground arith) (omega arith)
            ∙ sym
                (ap (λ r. continue r bs) (store_more (state mx [] none) m [] output (ground arith)))
      ]

  header_join :
      (mx : ℕ) (h bs : Bytes) (output : List AgentMessage)
      → length h ≤ 20
      → length bs ≤ fuel
      → finish fuel (store_header (state mx h none) bs output)
        ≡ continue (feed_header (state mx h none) output) bs
  unfolding store_header feed_header finish continue
  header_join mx h bs output short enough = elim (Bool-cases (length h == 20)) [
    | inl full ↦
        rw full (begin_join mx h (parse (read_header mx) h) bs output (λ m e. begun mx h e) enough)
    | inr lacking ↦
        rw lacking
          (ih (state mx h none) bs output (record { filling = ground arith; room = tt }) enough)
  ]

  header_round :
      (mx : ℕ) (h : Bytes) (x : ℕ) (xs : Bytes) (output : List AgentMessage)
      → length h < 20
      → length xs ≤ fuel
      → finish fuel (round (state mx h none) (x ∷ xs) output)
        ≡ feed_all (x ∷ xs) (state mx h none) output
  unfolding round
  header_round mx h x xs output short enough =
      let c : ℕ = min (20 - length h) (suc (length xs)) in
      let k : ℕ = c - 1 in
      let split : c ≡ suc k = ground arith in
      let small : k ≤ length xs = ground arith in
      let room : length h + suc k ≤ 20 = ground arith in
      let size : length (take k xs) ≡ k = length-take k xs small in
      rw split (
        header_join mx (h ++ (x ∷ take k xs)) (drop k xs) output
          (omega (arith, length-append h (x ∷ take k xs))) (omega (arith, length-drop k xs))
        ∙ sym (header_run mx h output x (take k xs) (drop k xs) (omega arith))
        ∙ ap (λ q. feed_all (x ∷ q) (state mx h none) output) (take-append-drop k xs))

  any_round :
      (mx : ℕ) (h : Bytes) (cur : Option PartialAgentMessage) (x : ℕ) (xs : Bytes)
      (output : List AgentMessage)
      → IsReady (state mx h cur)
      → length xs ≤ fuel
      → finish fuel (round (state mx h cur) (x ∷ xs) output)
        ≡ feed_all (x ∷ xs) (state mx h cur) output
  unfolding round
  any_round mx h none x xs output v enough = header_round mx h x xs output v.filling enough
  any_round mx h (some m) x xs output v enough =
      payload_round mx h (some m) m (x ∷ xs) output v.filling v.room (omega arith)

rounds-Refines : (fuel : ℕ) → Refines fuel
unfolding rounds feed_all
rounds-Refines fuel d [] output v enough = refl
rounds-Refines zero d (x ∷ xs) output v enough = absurd (omega arith)
rounds-Refines (suc fuel) d (x ∷ xs) output v enough =
    rounds-cons fuel x xs d output
    ∙ any_round fuel (rounds-Refines fuel) d.maximum_message_bytes d.header d.current x xs output v
        (omega arith)

-- A fragment of acceptable size has the effect of its bytes, one by one, on any decoder between two
-- fragments: the same messages, the same state, the same error.
pub push_fragment_into-feed_all :
    (fragment : Bytes) (d : AgentStreamDecoder) (output : List AgentMessage)
    → IsReady d
    → 0 < length fragment
    → length fragment ≤ 2048
    → push_fragment_into fragment d output ≡ feed_all fragment d output
unfolding push_fragment_into
push_fragment_into-feed_all fragment d output v some_bytes few =
    let accepted : (length fragment == 0 || ltb 2048 (length fragment)) ≡ false = ground arith in
    rw accepted (rounds-Refines (length fragment) d fragment output v (omega arith))
