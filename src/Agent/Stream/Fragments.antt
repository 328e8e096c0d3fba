-- ===== src/Agent/Stream/Fragments.antt =====
-- Several fragments, one after the other.
use oxide_spice.Common.{
  ℕ, ◌≤◌, ◌<◌, ◌≡◌, refl, sym, ap, ◌∙◌, arith, Bool-cases, inl, inr, Option, none, some, List, [],
  ◌∷◌, ◌++◌, ◌==◌, length, length-append, All,
}
use oxide_spice.Errors.{DecodeError, Result, ok, err}
use oxide_spice.Bytes.{Bytes}
use oxide_spice.Wire.{parse}
use oxide_spice.Agent.Stream.{
  AgentMessage, PartialAgentMessage, AgentStreamDecoder, Round, next, failed, Pushed, read_header,
  store_payload, push_fragment_into, push_all,
}
use oxide_spice.Agent.Stream.Feed.{begin, feed_header, feed, feed_all}
use oxide_spice.Agent.Stream.FeedRuns.{state, IsReady, continue, feed_all-cons, more}
use oxide_spice.Agent.Stream.Refine.{begun, push_fragment_into-feed_all}

abbrev pub NextIsReady : Round → Type 0
NextIsReady (next d rest output) = IsReady d
NextIsReady (failed d output e) = Unit

store-IsReady :
    (mx : ℕ) (h : Bytes) (cur : Option PartialAgentMessage) (m : PartialAgentMessage)
    (output : List AgentMessage)
    → length h < 20
    → length m.payload ≤ m.declared_size
    → NextIsReady (store_payload (state mx h cur) m [] output)
unfolding store_payload
store-IsReady mx h cur m output short fits =
    elim (Bool-cases (length m.payload == m.declared_size)) [
      | inl full ↦ rw full (record { filling = short; room = tt })
      | inr lacking ↦ rw lacking (record { filling = short; room = ground arith })
    ]

begin-IsReady :
    (mx : ℕ) (h : Bytes) (o : Result DecodeError PartialAgentMessage) (output : List AgentMessage)
    → ((m : PartialAgentMessage) → o ≡ ok m → m.payload ≡ [])
    → NextIsReady (begin (state mx h none) o output)
unfolding begin
begin-IsReady mx h (err e) output fresh = tt
begin-IsReady mx h (ok m) output fresh =
    store-IsReady mx [] none m output (omega arith) (rw (fresh m refl) (omega arith))

feed_header-IsReady :
    (mx : ℕ) (h : Bytes) (output : List AgentMessage)
    → length h ≤ 20
    → NextIsReady (feed_header (state mx h none) output)
unfolding feed_header
feed_header-IsReady mx h output short = elim (Bool-cases (length h == 20)) [
  | inl full ↦ rw full (begin-IsReady mx h (parse (read_header mx) h) output (λ m e. begun mx h e))
  | inr lacking ↦ rw lacking (record { filling = ground arith; room = tt })
]

pub feed-IsReady :
    (mx : ℕ) (h : Bytes) (cur : Option PartialAgentMessage) (b : ℕ) (output : List AgentMessage)
    → IsReady (state mx h cur)
    → NextIsReady (feed (state mx h cur) b output)
unfolding feed
feed-IsReady mx h none b output v =
    let short : length h < 20 = v.filling in
    feed_header-IsReady mx (h ++ (b ∷ [])) output (omega (arith, length-append h (b ∷ [])))
feed-IsReady mx h (some m) b output v =
    let lacking : length m.payload < m.declared_size = v.room in
    store-IsReady mx h (some m) (more m (b ∷ [])) output v.filling
      (omega (arith, length-append m.payload (b ∷ [])))

-- More bytes after those that made `p`.
go_on : Result DecodeError (Unit {0}) → Pushed → Bytes → Pushed
go_on (ok done) p bs = feed_all bs p.decoder p.output
go_on (err e) p bs = p

continue_append :
    (r : Round) (xs ys : Bytes)
    → ((d : AgentStreamDecoder) (output : List AgentMessage)
        → feed_all (xs ++ ys) d output
          ≡ go_on (feed_all xs d output).result (feed_all xs d output) ys)
    → continue r (xs ++ ys) ≡ go_on (continue r xs).result (continue r xs) ys
unfolding continue go_on
continue_append (next d rest output) xs ys ih = ih d output
continue_append (failed d output e) xs ys ih = refl

feed_all-append :
    (xs ys : Bytes) (d : AgentStreamDecoder) (output : List AgentMessage)
    → feed_all (xs ++ ys) d output ≡ go_on (feed_all xs d output).result (feed_all xs d output) ys
unfolding feed_all go_on
feed_all-append [] ys d output = refl
feed_all-append (x ∷ xs) ys d output =
    feed_all-cons x (xs ++ ys) d output
    ∙ continue_append (feed d x output) xs ys (λ d' output'. feed_all-append xs ys d' output')
    ∙ ap (λ p. go_on p.result p ys) (sym (feed_all-cons x xs d output))

continue-IsReady :
    (r : Round) (xs : Bytes)
    → NextIsReady r
    → ((d : AgentStreamDecoder) (output : List AgentMessage)
        → IsReady d
        → (feed_all xs d output).result ≡ ok tt
        → IsReady (feed_all xs d output).decoder)
    → (continue r xs).result ≡ ok tt
    → IsReady (continue r xs).decoder
unfolding continue
continue-IsReady (next d rest output) xs v ih e = ih d output v e
continue-IsReady (failed d output e') xs v ih e = ground arith

feed_all-IsReady :
    (xs : Bytes) (d : AgentStreamDecoder) (output : List AgentMessage)
    → IsReady d
    → (feed_all xs d output).result ≡ ok tt
    → IsReady (feed_all xs d output).decoder
unfolding feed_all
feed_all-IsReady [] d output v e = v
feed_all-IsReady (x ∷ xs) d output v e = rw (feed_all-cons x xs d output) (
    continue-IsReady (feed d x output) xs
      (feed-IsReady d.maximum_message_bytes d.header d.current x output v)
      (λ d' output' v' e'. feed_all-IsReady xs d' output' v' e')
      (rw (sym (feed_all-cons x xs d output)) e))

abbrev pub IsFragment : Bytes → Type 0
IsFragment fragment = (0 < length fragment) × (length fragment ≤ 2048)

abbrev pub concat : List Bytes → Bytes
concat [] = []
concat (xs ∷ xss) = xs ++ concat xss

push_rest :
    (o : Result DecodeError (Unit {0})) (p : Pushed) (fragments : List Bytes)
    → p.result ≡ o
    → (o ≡ ok tt
        → push_all fragments p.decoder p.output ≡ feed_all (concat fragments) p.decoder p.output)
    → (elim o [ ok done ↦ push_all fragments p.decoder p.output | err e ↦ p ])
      ≡ go_on o p (concat fragments)
unfolding go_on
push_rest (ok tt) p fragments e ih = ih refl
push_rest (err x) p fragments e ih = refl

-- Pushing fragments of acceptable size one after the other, from a decoder between two fragments, has
-- the effect of feeding their bytes one by one: however a stream is cut, it gives the same messages,
-- the same state and the same error.
pub push_all-feed_all :
    (fragments : List Bytes) (d : AgentStreamDecoder) (output : List AgentMessage)
    → IsReady d
    → All IsFragment fragments
    → push_all fragments d output ≡ feed_all (concat fragments) d output
unfolding push_all feed_all
push_all-feed_all [] d output v h = refl
push_all-feed_all (f ∷ fs) d output v h =
    let p : Pushed = push_fragment_into f d output in
    let same : p ≡ feed_all f d output = push_fragment_into-feed_all f d output v h.0.0 h.0.1 in
    let ready : p.result ≡ ok tt → IsReady p.decoder = rw same (feed_all-IsReady f d output v) in
    push_rest p.result p fs refl (λ e. push_all-feed_all fs p.decoder p.output (ready e) h.1)
    ∙ ap (λ q. go_on q.result q (concat fs)) same
    ∙ sym (feed_all-append f (concat fs) d output)
