-- ===== src/Agent/Stream/FeedRuns.antt =====
-- Bytes fed one by one, against bytes stored together.
use oxide_spice.Common.{
  ℕ, suc, ◌+◌, ◌≤◌, ◌<◌, ◌≡◌, refl, ap, ◌∙◌, arith, Option, none, some, List, [], ◌∷◌, ◌++◌,
  append_assoc, length, length-append,
}
use oxide_spice.Errors.{err}
use oxide_spice.Bytes.{Bytes}
use oxide_spice.Agent.Stream.{
  AgentMessage, PartialAgentMessage, AgentStreamDecoder, Round, next, failed, Pushed, pushed,
  store_payload,
}
use oxide_spice.Agent.Stream.Feed.{feed_header, feed, feed_all}

abbrev pub state : ℕ → Bytes → Option PartialAgentMessage → AgentStreamDecoder
state mx h cur = record { maximum_message_bytes = mx; header = h; current = cur }

abbrev pub Room : Option PartialAgentMessage → Type 0
Room none = Unit
Room (some m) = length m.payload < m.declared_size

-- Between two fragments the header buffer is not full, and a started message lacks some bytes.
pub record IsReady (d : AgentStreamDecoder) : Type 0 where
  pub filling : length d.header < 20
  pub room : Room d.current

-- The rest of the bytes after a round.
unfoldable pub continue : Round → Bytes → Pushed
continue (next d rest output) bs = feed_all bs d output
continue (failed d output e) bs = pushed d output (err e)

pub feed_all-cons :
    (b : ℕ) (bs : Bytes) (d : AgentStreamDecoder) (output : List AgentMessage)
    → feed_all (b ∷ bs) d output ≡ continue (feed d b output) bs
unfolding feed_all continue
feed_all-cons b bs d output = same (feed d b output)
  where
    same :
        (r : Round)
        → (elim r [
          | next d' rest output' ↦ feed_all bs d' output'
          | failed d' output' e ↦ pushed d' output' (err e)
        ])
          ≡ continue r bs
    same (next d' rest output') = refl
    same (failed d' output' e) = refl

abbrev pub more : PartialAgentMessage → Bytes → PartialAgentMessage
more m xs = record m { payload = m.payload ++ xs }

pub store_more :
    (d : AgentStreamDecoder) (m : PartialAgentMessage) (rest : Bytes) (output : List AgentMessage)
    → length m.payload < m.declared_size
    → store_payload d m rest output ≡ next (record d { current = some m }) rest output
unfolding store_payload
store_more d m rest output h = ground arith

module _ (mx : ℕ) (h : Bytes) where
  -- Bytes of one payload have the effect of storing them together.
  pub payload_run :
      (m : PartialAgentMessage) (output : List AgentMessage) (x : ℕ) (xs ys : Bytes)
      → length m.payload + suc (length xs) ≤ m.declared_size
      → feed_all (x ∷ xs ++ ys) (state mx h (some m)) output
        ≡ continue (store_payload (state mx h (some m)) (more m (x ∷ xs)) [] output) ys
  unfolding feed continue
  payload_run m output x [] ys fits = feed_all-cons x ys (state mx h (some m)) output
  payload_run m output x (y ∷ xs) ys fits =
      feed_all-cons x (y ∷ xs ++ ys) (state mx h (some m)) output
      ∙ ap (λ r. continue r (y ∷ xs ++ ys))
          (store_more (state mx h (some m)) (more m (x ∷ [])) [] output (omega (arith, one)))
      ∙ payload_run (more m (x ∷ [])) output y xs ys (omega (arith, one))
      ∙ ap
          (λ p.
            continue (store_payload (state mx h (some m)) (record m { payload = p }) [] output) ys)
          (append_assoc m.payload (x ∷ []) (y ∷ xs))
    where
      one : length (m.payload ++ (x ∷ [])) ≡ length m.payload + 1
      one = length-append m.payload (x ∷ [])

feed_more :
    (d : AgentStreamDecoder) (output : List AgentMessage)
    → length d.header < 20
    → feed_header d output ≡ next d [] output
unfolding feed_header
feed_more d output h = ground arith

-- The same for the header, up to its last byte.
pub header_run :
    (mx : ℕ) (h : Bytes) (output : List AgentMessage) (x : ℕ) (xs ys : Bytes)
    → length h + suc (length xs) ≤ 20
    → feed_all (x ∷ xs ++ ys) (state mx h none) output
      ≡ continue (feed_header (state mx (h ++ (x ∷ xs)) none) output) ys
unfolding feed continue
header_run mx h output x [] ys fits = feed_all-cons x ys (state mx h none) output
header_run mx h output x (y ∷ xs) ys fits =
    feed_all-cons x (y ∷ xs ++ ys) (state mx h none) output
    ∙ ap (λ r. continue r (y ∷ xs ++ ys))
        (feed_more (state mx (h ++ (x ∷ [])) none) output (omega (arith, one)))
    ∙ header_run mx (h ++ (x ∷ [])) output y xs ys (omega (arith, one))
    ∙ ap (λ p. continue (feed_header (state mx p none) output) ys)
        (append_assoc h (x ∷ []) (y ∷ xs))
  where
    one : length (h ++ (x ∷ [])) ≡ length h + 1
    one = length-append h (x ∷ [])
