-- ===== src/Agent/Stream/Runs.antt =====
-- One message in two fragments, and a header that is refused.
use oxide_spice.Common.{ℕ, ◌≡◌, refl, arith, [], ◌∷◌, ◌++◌}
use oxide_spice.Errors.{ok, err, resource_limit, decode_error}
use oxide_spice.Bytes.{Bytes}
use oxide_spice.Wire.{u32, u64, take}
use oxide_spice.Agent.Stream.{
  AgentMessage, AgentStreamDecoder, pushed, new, empty_decoder, read_header, store_payload,
  take_payload, begin_payload, store_header, round, rounds, push_fragment_into, push_all,
}
use oxide_spice.Agent.Stream.Feed.{feed_all}
use oxide_spice.Agent.Stream.Fragments.{concat, push_all-feed_all}
use oxide_spice.Agent.Stream.Stuck.{push_fragment_into-failed}

abbrev header_bytes : ℕ → Bytes
header_bytes size =
    1 ∷ 0 ∷ 0 ∷ 0 ∷ 7 ∷ 0 ∷ 0 ∷ 0 ∷ 9 ∷ 0 ∷ 0 ∷ 0 ∷ 0 ∷ 0 ∷ 0 ∷ 0 ∷ size ∷ 0 ∷ 0 ∷ 0 ∷ []

abbrev five_limit : AgentStreamDecoder
five_limit = empty_decoder 5

abbrev message : AgentMessage
message = record { protocol = 1; message_type = 7; opaque = 9; payload = 65 ∷ 66 ∷ 67 ∷ [] }

new_run : new 5 ≡ ok five_limit
unfolding new
new_run = refl

two_fragments_run :
    push_all ((header_bytes 3 ++ (65 ∷ [])) ∷ (66 ∷ 67 ∷ []) ∷ []) five_limit []
    ≡ pushed five_limit (message ∷ []) (ok tt)
unfolding push_all push_fragment_into rounds round store_header begin_payload take_payload
    store_payload read_header u32 u64 take
two_fragments_run = refl

empty_fragment_run :
    push_fragment_into [] five_limit []
    ≡ pushed five_limit [] (err (decode_error resource_limit 0 "agent fragment bytes"))
unfolding push_fragment_into rounds
empty_fragment_run = refl

refused_run :
    (push_fragment_into (header_bytes 6) five_limit []).result
    ≡ err (decode_error resource_limit 16 "agent payload size")
unfolding push_fragment_into rounds round store_header begin_payload take_payload store_payload
    read_header u32 u64 take
refused_run = refl

push_fragment_into-failed_example :
    push_fragment_into (1 ∷ []) (push_fragment_into (header_bytes 6) five_limit []).decoder []
    ≡ pushed
        (push_fragment_into (header_bytes 6) five_limit []).decoder
        []
        (err (decode_error resource_limit 16 "agent payload size"))
push_fragment_into-failed_example =
    push_fragment_into-failed (header_bytes 6) (1 ∷ []) five_limit [] []
      (decode_error resource_limit 16 "agent payload size")
      (record { filling = omega arith; room = tt }) (omega arith) (omega arith) (omega arith)
      (omega arith) refused_run

push_all-feed_all_example :
    push_all (header_bytes 3 ∷ (65 ∷ 66 ∷ []) ∷ []) five_limit []
    ≡ feed_all (concat (header_bytes 3 ∷ (65 ∷ 66 ∷ []) ∷ [])) five_limit []
push_all-feed_all_example =
    push_all-feed_all (header_bytes 3 ∷ (65 ∷ 66 ∷ []) ∷ []) five_limit []
      (record { filling = omega arith; room = tt })
      ((omega arith, omega arith), ((omega arith, omega arith), tt))
