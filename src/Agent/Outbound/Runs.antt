-- ===== src/Agent/Outbound/Runs.antt =====
-- A message of three bytes, sent and put together again.
use oxide_spice.Common.{◌≡◌, refl, arith, [], ◌∷◌, min}
use oxide_spice.Errors.{ok, err, invalid_value, decode_error}
use oxide_spice.Agent.Stream.{AgentMessage, empty_decoder, push_all, pushed}
use oxide_spice.Agent.Outbound.{
  OutboundAgentMessage, header_of, new, is_complete, chunk, copied, moved, fill, next_fragment,
}
use oxide_spice.Agent.Outbound.Window.{left, window, next_fragment-window}
use oxide_spice.Agent.Outbound.Drain.{IsSent, drain, drain-IsSent}
use oxide_spice.Agent.Outbound.RoundTrip.{CanSend, sent, push_all-sent_all, push_all-drain}

abbrev message : AgentMessage
message = record { protocol = 1; message_type = 7; opaque = 9; payload = 65 ∷ 66 ∷ 67 ∷ [] }

abbrev outbound : OutboundAgentMessage
outbound = record { header = header_of 7 9 3; payload = 65 ∷ 66 ∷ 67 ∷ []; stream_offset = 0 }

new_run : new 7 9 (65 ∷ 66 ∷ 67 ∷ []) 5 ≡ ok outbound
unfolding new
new_run = refl

next_fragment_run : next_fragment outbound ≡ ok (moved 23 outbound, sent message)
unfolding next_fragment fill chunk copied is_complete
next_fragment_run = refl

completed_run :
    next_fragment (moved 23 outbound)
    ≡ err (decode_error invalid_value 23 "completed outbound agent message")
unfolding next_fragment is_complete fill
completed_run = refl

can_send : CanSend 5 message
can_send = record {
  protocol = refl;
  message_type = omega arith;
  opaque = omega arith;
  size = omega arith;
  limit = omega arith;
}

next_fragment-window_example :
    next_fragment outbound
    ≡ ok (moved (min 2048 (left outbound)) outbound, window (min 2048 (left outbound)) outbound)
next_fragment-window_example =
    next_fragment-window outbound (record { header_size = refl; inside = omega arith })
      (omega arith)

drain-IsSent_example : IsSent outbound (drain 1 outbound).0 (drain 1 outbound).1
drain-IsSent_example =
    drain-IsSent 1 outbound (record { header_size = refl; inside = omega arith }) (omega arith)

push_all-sent_all_example :
    push_all
      ((1 ∷ [])
        ∷ (0 ∷ 0 ∷ 0 ∷ 7 ∷ 0 ∷ 0 ∷ 0 ∷ 9 ∷ 0 ∷ 0 ∷ 0 ∷ 0 ∷ 0 ∷ 0 ∷ 0 ∷ 3 ∷ 0 ∷ 0 ∷ 0 ∷ 65 ∷ 66 ∷ [])
        ∷ (67 ∷ [])
        ∷ [])
      (empty_decoder 5)
      []
    ≡ pushed (empty_decoder 5) (message ∷ []) (ok tt)
push_all-sent_all_example =
    push_all-sent_all 5 (message ∷ [])
      ((1 ∷ [])
        ∷ (0 ∷ 0 ∷ 0 ∷ 7 ∷ 0 ∷ 0 ∷ 0 ∷ 9 ∷ 0 ∷ 0 ∷ 0 ∷ 0 ∷ 0 ∷ 0 ∷ 0 ∷ 3 ∷ 0 ∷ 0 ∷ 0 ∷ 65 ∷ 66 ∷ [])
        ∷ (67 ∷ [])
        ∷ [])
      [] (can_send, tt)
      ((omega arith, omega arith), ((omega arith, omega arith), ((omega arith, omega arith), tt)))
      refl

push_all-drain_example :
    (o : OutboundAgentMessage) × (new 7 9 (65 ∷ 66 ∷ 67 ∷ []) 5 ≡ ok o)
    × (push_all (drain 1 o).1 (empty_decoder 5) []
        ≡ pushed (empty_decoder 5) (message ∷ []) (ok tt))
push_all-drain_example = push_all-drain 5 1 message [] can_send (omega arith)
