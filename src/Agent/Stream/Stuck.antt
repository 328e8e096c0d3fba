-- ===== src/Agent/Stream/Stuck.antt =====
-- A decoder that has refused a header.
use oxide_spice.Common.{
  ℕ, zero, suc, ◌-◌, ◌≤◌, ◌<◌, ◌≡◌, refl, sym, ap, ◌∙◌, arith, false, Bool-cases, ◌||◌, inl, inr,
  Option, none, some, List, [], ◌∷◌, ◌++◌, append-nil, ◌==◌, ltb, min, length,
}
use oxide_spice.Errors.{DecodeError, Result, ok, err, err-injective}
use oxide_spice.Bytes.{Bytes}
use oxide_spice.Wire.{parse}
use oxide_spice.Agent.Stream.{
  AgentMessage, PartialAgentMessage, AgentStreamDecoder, Round, next, failed, pushed, read_header,
  store_payload, begin_payload, store_header, round, rounds, push_fragment_into,
}
use oxide_spice.Agent.Stream.Feed.{begin, feed_header, feed, feed_all}
use oxide_spice.Agent.Stream.FeedRuns.{state, IsReady, continue, feed_all-cons}
use oxide_spice.Agent.Stream.Refine.{finish, rounds-cons, push_fragment_into-feed_all}
use oxide_spice.Agent.Stream.Fragments.{NextIsReady, feed-IsReady}

-- The buffer holds a whole header, which does not decode.
pub record IsStuck (d : AgentStreamDecoder) (e : DecodeError) : Type 0 where
  pub full : length d.header ≡ 20
  pub idle : d.current ≡ none
  pub refused : parse (read_header d.maximum_message_bytes) d.header ≡ err e

store_header-stuck :
    (mx : ℕ) (h bs : Bytes) (output : List AgentMessage) (e : DecodeError)
    → length h ≡ 20
    → parse (read_header mx) h ≡ err e
    → store_header (state mx h none) bs output ≡ failed (state mx h none) output e
unfolding store_header begin_payload
store_header-stuck mx h bs output e full refused = rw (full, refused) refl

round-stuck :
    (mx : ℕ) (h : Bytes) (x : ℕ) (xs : Bytes) (output : List AgentMessage) (e : DecodeError)
    → length h ≡ 20
    → parse (read_header mx) h ≡ err e
    → round (state mx h none) (x ∷ xs) output ≡ failed (state mx h none) output e
unfolding round
round-stuck mx h x xs output e full refused =
    let room : min (20 - length h) (suc (length xs)) ≡ 0 = ground arith in
    rw (room, append-nil) (store_header-stuck mx h (x ∷ xs) output e full refused)

rounds-stuck :
    (fuel mx : ℕ) (h bs : Bytes) (cur : Option PartialAgentMessage) (output : List AgentMessage)
    (e : DecodeError)
    → length h ≡ 20
    → parse (read_header mx) h ≡ err e
    → cur ≡ none
    → 0 < length bs
    → length bs ≤ fuel
    → rounds fuel (state mx h cur) bs output ≡ pushed (state mx h cur) output (err e)
unfolding finish
rounds-stuck fuel mx h [] cur output e full refused idle some_bytes enough = absurd (omega arith)
rounds-stuck zero mx h (x ∷ xs) cur output e full refused idle some_bytes enough =
    absurd (omega arith)
rounds-stuck (suc fuel) mx h (x ∷ xs) (some m) output e full refused idle some_bytes enough =
    absurd (cc)
rounds-stuck (suc fuel) mx h (x ∷ xs) none output e full refused idle some_bytes enough =
    rounds-cons fuel x xs (state mx h none) output
    ∙ ap (finish fuel) (round-stuck mx h x xs output e full refused)

push_fragment_into-stuck :
    (fragment : Bytes) (d : AgentStreamDecoder) (output : List AgentMessage) (e : DecodeError)
    → IsStuck d e
    → 0 < length fragment
    → length fragment ≤ 2048
    → push_fragment_into fragment d output ≡ pushed d output (err e)
unfolding push_fragment_into
push_fragment_into-stuck fragment d output e s some_bytes few =
    let accepted : (length fragment == 0 || ltb 2048 (length fragment)) ≡ false = ground arith in
    rw accepted (
      rounds-stuck (length fragment) d.maximum_message_bytes d.header fragment d.current output e
        s.full s.refused s.idle some_bytes (omega arith))

-- A byte that fails completes a header that is refused.
abbrev FailedIsStuck : Round → Type 0
FailedIsStuck (next d rest output) = Unit
FailedIsStuck (failed d output e) = IsStuck d e

store-fine :
    (d : AgentStreamDecoder) (m : PartialAgentMessage) (rest : Bytes) (output : List AgentMessage)
    → FailedIsStuck (store_payload d m rest output)
unfolding store_payload
store-fine d m rest output = elim (Bool-cases (length m.payload == m.declared_size)) [
  | inl full ↦ rw full tt
  | inr lacking ↦ rw lacking tt
]

begin-IsStuck :
    (mx : ℕ) (h : Bytes) (o : Result DecodeError PartialAgentMessage) (output : List AgentMessage)
    → length h ≡ 20
    → parse (read_header mx) h ≡ o
    → FailedIsStuck (begin (state mx h none) o output)
unfolding begin
begin-IsStuck mx h (ok m) output full e = store-fine (state mx [] none) m [] output
begin-IsStuck mx h (err x) output full e = record { full = full; idle = refl; refused = e }

feed-IsStuck :
    (mx : ℕ) (h : Bytes) (cur : Option PartialAgentMessage) (b : ℕ) (output : List AgentMessage)
    → FailedIsStuck (feed (state mx h cur) b output)
unfolding feed feed_header
feed-IsStuck mx h (some m) b output = store-fine (state mx h (some m)) _ [] output
feed-IsStuck mx h none b output = elim (Bool-cases (length (h ++ (b ∷ [])) == 20)) [
  | inl full ↦ rw full (begin-IsStuck mx (h ++ (b ∷ [])) _ output (ground arith) refl)
  | inr lacking ↦ rw lacking tt
]

continue-IsStuck :
    (r : Round) (xs : Bytes) (e : DecodeError)
    → NextIsReady r
    → FailedIsStuck r
    → ((d : AgentStreamDecoder) (output : List AgentMessage)
        → IsReady d
        → (feed_all xs d output).result ≡ err e
        → IsStuck (feed_all xs d output).decoder e)
    → (continue r xs).result ≡ err e
    → IsStuck (continue r xs).decoder e
unfolding continue
continue-IsStuck (next d rest output) xs e v s ih h = ih d output v h
continue-IsStuck (failed d output x) xs e v s ih h = rw (err-injective (sym h)) s

feed_all-IsStuck :
    (xs : Bytes) (d : AgentStreamDecoder) (output : List AgentMessage) (e : DecodeError)
    → IsReady d
    → (feed_all xs d output).result ≡ err e
    → IsStuck (feed_all xs d output).decoder e
unfolding feed_all
feed_all-IsStuck [] d output e v h = absurd (cc)
feed_all-IsStuck (x ∷ xs) d output e v h = rw (feed_all-cons x xs d output) (
    continue-IsStuck (feed d x output) xs e
      (feed-IsReady d.maximum_message_bytes d.header d.current x output v)
      (feed-IsStuck d.maximum_message_bytes d.header d.current x output)
      (λ d' output' v' h'. feed_all-IsStuck xs d' output' e v' h')
      (rw (sym (feed_all-cons x xs d output)) h))

-- After a fragment of acceptable size has failed, the decoder refuses every further fragment of
-- acceptable size with the same error, takes nothing from it, gives no message and stays as it is.
pub push_fragment_into-failed :
    (fragment later : Bytes) (d : AgentStreamDecoder) (output output' : List AgentMessage)
    (e : DecodeError)
    → IsReady d
    → 0 < length fragment
    → length fragment ≤ 2048
    → 0 < length later
    → length later ≤ 2048
    → (push_fragment_into fragment d output).result ≡ err e
    → push_fragment_into later (push_fragment_into fragment d output).decoder output'
      ≡ pushed (push_fragment_into fragment d output).decoder output' (err e)
push_fragment_into-failed fragment later d output output' e v some_bytes few some_later few_later
      h =
    let same : push_fragment_into fragment d output ≡ feed_all fragment d output =
      push_fragment_into-feed_all fragment d output v some_bytes few in
    let stuck : IsStuck (push_fragment_into fragment d output).decoder e =
      rw same (feed_all-IsStuck fragment d output e v (rw (sym same) h)) in
    push_fragment_into-stuck later (push_fragment_into fragment d output).decoder output' e stuck
      some_later few_later
