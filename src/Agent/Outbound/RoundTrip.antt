-- ===== src/Agent/Outbound/RoundTrip.antt =====
-- Messages sent by `OutboundAgentMessage` and put together again by `AgentStreamDecoder`.
use oxide_spice.Common.{
  ℕ, suc, ◌+◌, ◌*◌, ◌^◌, ◌≤◌, ◌<◌, ◌≡◌, refl, sym, ap, ◌∙◌, subst, arith, true, none, some, List,
  [], ◌∷◌, ◌++◌, append-nil, append_assoc, ==_refl, leb, length, Option, All,
}
use oxide_spice.Errors.{ok}
use oxide_spice.Bytes.{Bytes, IsU32, IsU64, to_le}
use oxide_spice.Wire
use oxide_spice.Wire.{parse}
use oxide_spice.Wire.Cursor.{Sees, new-Sees, advance-Sees, u32-Sees, u64-Sees}
use oxide_spice.Agent.Stream.{
  AgentMessage, PartialAgentMessage, next, pushed, read_header, store_payload, push_all,
  empty_decoder,
}
use oxide_spice.Agent.Stream.Feed.{begin, feed_header, feed_all}
use oxide_spice.Agent.Stream.FeedRuns.{state, continue, store_more, payload_run, header_run}
use oxide_spice.Agent.Stream.Fragments.{IsFragment, concat, push_all-feed_all}
use oxide_spice.Agent.Outbound.{OutboundAgentMessage, agent_protocol, header_of, new}
use oxide_spice.Agent.Outbound.Drain.{drain, drain-IsSent}

-- A message that fits its header, and a limit for its payload.
pub record CanSend (mx : ℕ) (m : AgentMessage) : Type 0 where
  pub protocol : m.protocol ≡ agent_protocol
  pub message_type : IsU32 m.message_type
  pub opaque : IsU64 m.opaque
  pub size : IsU32 (length m.payload)
  pub limit : length m.payload ≤ mx

abbrev pub sent : AgentMessage → Bytes
sent m = header_of m.message_type m.opaque (length m.payload) ++ m.payload

abbrev pub sent_all : List AgentMessage → Bytes
sent_all [] = []
sent_all (m ∷ ms) = sent m ++ sent_all ms

abbrev started : AgentMessage → PartialAgentMessage
started m = record {
  protocol = agent_protocol;
  message_type = m.message_type;
  opaque = m.opaque;
  declared_size = length m.payload;
  payload = [];
}

module _ (mx : ℕ) (m : AgentMessage) (v : CanSend mx m) where
  read_header-header_of :
      parse (read_header mx) (header_of m.message_type m.opaque (length m.payload)) ≡ ok (started m)
  unfolding read_header
  read_header-header_of =
      let n = length m.payload in
      let size : IsU32 n = v.size in
      let small : leb n mx ≡ true = (let h : n ≤ mx = v.limit in ground arith) in
      let h = header_of m.message_type m.opaque n in
      let s0 = new-Sees h (omega arith) in
      let s1 = advance-Sees (Wire.new h) (to_le 4 agent_protocol) _ s0 in
      let s2 = advance-Sees _ (to_le 4 m.message_type) _ s1 in
      let s3 = advance-Sees _ (to_le 8 m.opaque) (to_le 4 n) s2 in
      rw
        (
          u32-Sees _ agent_protocol _ "agent protocol" (omega arith) s0,
          u32-Sees _ m.message_type _ "agent message type" v.message_type s1,
          u64-Sees _ m.opaque _ "agent opaque" v.opaque s2,
          u32-Sees _ n [] "agent payload size" size
              (subst (Sees _) (sym (append-nil (to_le 4 n))) s3),
          small,
        )
        refl

  -- The last byte of the payload, or the header when there is none, completes the message.
  stored :
      (cur : Option PartialAgentMessage) (output : List AgentMessage)
      → store_payload (state mx [] cur) (record (started m) { payload = m.payload }) [] output
        ≡ next (state mx [] none) [] (output ++ (m ∷ []))
  unfolding store_payload
  stored cur output = rw (==_refl (length m.payload), v.protocol) refl

  payload_fed :
      (payload rest : Bytes) (output : List AgentMessage)
      → m.payload ≡ payload
      → continue (store_payload (state mx [] none) (started m) [] output) (payload ++ rest)
        ≡ feed_all rest (state mx [] none) (output ++ (m ∷ []))
  unfolding continue
  payload_fed [] rest output e =
      ap
        (λ p.
          continue (store_payload (state mx [] none) (record (started m) { payload = p }) [] output)
            rest)
        (sym e)
      ∙ ap (λ r. continue r rest) (stored none output)
  payload_fed (y ∷ ys) rest output e =
      let size : length m.payload ≡ suc (length ys) = ap length e in
      ap (λ r. continue r (y ∷ ys ++ rest))
        (store_more (state mx [] none) (started m) [] output (omega arith))
      ∙ payload_run mx [] (started m) output y ys rest (omega arith)
      ∙ ap
          (λ p.
            continue
              (store_payload (state mx [] (some (started m))) (record (started m) { payload = p })
                [] output)
              rest)
          (sym e)
      ∙ ap (λ r. continue r rest) (stored (some (started m)) output)

  header_fed :
      (rest : Bytes) (output : List AgentMessage)
      → feed_all
          (header_of m.message_type m.opaque (length m.payload) ++ rest)
          (state mx [] none)
          output
        ≡ continue (store_payload (state mx [] none) (started m) [] output) rest
  unfolding feed_header begin
  header_fed rest output =
      header_run mx [] output 1
        (to_le 3 0 ++ (to_le 4 m.message_type ++ (to_le 8 m.opaque ++ to_le 4 (length m.payload))))
        rest (omega arith)
      ∙ rw read_header-header_of refl

  message_fed :
      (rest : Bytes) (output : List AgentMessage)
      → feed_all (sent m ++ rest) (state mx [] none) output
        ≡ feed_all rest (state mx [] none) (output ++ (m ∷ []))
  message_fed rest output =
      header_fed (m.payload ++ rest) output ∙ payload_fed m.payload rest output refl

messages_fed :
    (mx : ℕ) (ms : List AgentMessage) (output : List AgentMessage)
    → All (CanSend mx) ms
    → feed_all (sent_all ms) (state mx [] none) output
      ≡ pushed (state mx [] none) (output ++ ms) (ok tt)
unfolding feed_all
messages_fed mx [] output h =
    ap (λ q. pushed (state mx [] none) q (ok tt)) (sym (append-nil output))
messages_fed mx (m ∷ ms) output (v, h) =
    message_fed mx m v (sent_all ms) output
    ∙ messages_fed mx ms (output ++ (m ∷ [])) h
    ∙ ap (λ q. pushed (state mx [] none) q (ok tt)) (append_assoc output (m ∷ []) ms)

-- However the bytes of some messages are cut into fragments of 1 to 2048 bytes, across the messages'
-- ends or inside their headers, a fresh decoder whose limit the payloads keep gives exactly these
-- messages, in order, without an error, and is as fresh afterwards.
pub push_all-sent_all :
    (mx : ℕ) (ms : List AgentMessage) (fragments : List Bytes) (output : List AgentMessage)
    → All (CanSend mx) ms
    → All IsFragment fragments
    → concat fragments ≡ sent_all ms
    → push_all fragments (empty_decoder mx) output
      ≡ pushed (empty_decoder mx) (output ++ ms) (ok tt)
push_all-sent_all mx ms fragments output sendable sizes cut =
    push_all-feed_all fragments (empty_decoder mx) output
      (record { filling = omega arith; room = tt }) sizes
    ∙ ap (λ bs. feed_all bs (empty_decoder mx) output) cut
    ∙ messages_fed mx ms output sendable

new-ok :
    (mx : ℕ) (m : AgentMessage)
    → CanSend mx m
    → new m.message_type m.opaque m.payload mx
      ≡ ok (record {
        header = header_of m.message_type m.opaque (length m.payload);
        payload = m.payload;
        stream_offset = 0;
      })
unfolding new
new-ok mx m v =
    let size : length m.payload < 2 ^ 32 = v.size in
    let limit : length m.payload ≤ mx = v.limit in ground arith

-- A message that fits the limits can be sent, and one call of `next_fragment` for each 2048 bytes of
-- header and payload gives fragments from which a fresh decoder puts together exactly this message.
pub push_all-drain :
    (mx fuel : ℕ) (m : AgentMessage) (output : List AgentMessage)
    → CanSend mx m
    → 20 + length m.payload ≤ 2048 * fuel
    → (o : OutboundAgentMessage) × (new m.message_type m.opaque m.payload mx ≡ ok o)
      × (push_all (drain fuel o).1 (empty_decoder mx) output
          ≡ pushed (empty_decoder mx) (output ++ (m ∷ [])) (ok tt))
push_all-drain mx fuel m output v enough =
    let o : OutboundAgentMessage = record {
      header = header_of m.message_type m.opaque (length m.payload);
      payload = m.payload;
      stream_offset = 0;
    } in
    let s =
      drain-IsSent fuel o (record { header_size = refl; inside = omega arith }) (omega arith) in
    (
      o,
      new-ok mx m v,
      push_all-sent_all mx (m ∷ []) (drain fuel o).1 output (v, tt) s.sizes
          (s.whole ∙ sym (append-nil (sent m))),
    )
