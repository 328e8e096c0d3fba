-- ===== src/Client/Control/Frames.antt =====
-- The bytes of the ACKs that the channel writes.
use oxide_spice.Common.{
  ℕ, zero, suc, ◌+◌, ◌≡◌, refl, sym, ap, ◌∙◌, arith, some, [], ◌∷◌, ◌++◌, leb, length,
}
use oxide_spice.Errors.{Result, ok, ok-injective, ◌>>=◌, bind_ok, ensure_ok, ok_or_ok}
use oxide_spice.Bytes.{Bytes, try_u32, to_le}
use oxide_spice.Channel.Header
use oxide_spice.Channel.Header.{Framing, mini, full}
use oxide_spice.Messages.CommonClient
use oxide_spice.Client.Error.{ClientError}
use oxide_spice.Client.Transport.{Channel, WriteAll, write_message, next_u64}

-- An ACK on the wire: message type 2 and an empty body, behind a serial number and before an absent
-- list when the framing is the full one.
unfoldable pub ack_frame : Framing → ℕ → Bytes
ack_frame mini serial = 2 ∷ 0 ∷ 0 ∷ 0 ∷ 0 ∷ 0 ∷ []
ack_frame full serial = to_le 8 serial ++ (2 ∷ 0 ∷ 0 ∷ 0 ∷ 0 ∷ 0 ∷ 0 ∷ 0 ∷ 0 ∷ 0 ∷ [])

encode-ack_frame :
    (framing : Framing) (serial : ℕ)
    → Header.encode framing serial CommonClient.ack 0 [] ++ [] ≡ ack_frame framing serial
unfolding Header.encode ack_frame
encode-ack_frame mini serial = refl
encode-ack_frame full serial = refl

module _ {S : Type 0} (write_all : WriteAll S) where
  -- So many ACKs and nothing else, under consecutive serial numbers.
  unfoldable pub send_acks : ℕ → Framing → ℕ → S → Result ClientError S
  send_acks zero framing serial stream = ok stream
  send_acks (suc k) framing serial stream = do
    stream' ← write_all stream (ack_frame framing serial)
    send_acks k framing (serial + 1) stream'

  -- The channel after writes that take so many serial numbers.
  abbrev pub advanced : Channel S → S → ℕ → Channel S
  advanced c stream serials = record c { stream = stream; next_serial = c.next_serial + serials }

  -- One ACK was written, and only the stream and the serial number are new.
  abbrev pub Acked : Channel S → Channel S → Type 0
  Acked c c' =
      (stream : S) × (write_all c.stream (ack_frame c.framing c.next_serial) ≡ ok stream)
      × (c' ≡ advanced c stream 1)

  -- A message that was written: its header and its body, under the next serial number.
  pub write_message_lem :
      (c : Channel S) (message_type : ℕ) (body : Bytes) {c' : Channel S}
      → write_message write_all c message_type body ≡ ok c'
      → (stream : S) × (write_all c.stream
            (Header.encode c.framing c.next_serial message_type (length body) [] ++ body)
          ≡ ok stream)
        × (c' ≡ advanced c stream 1)
  unfolding write_message
  write_message_lem c ty body e = ok_or_ok (try_u32 (length body)) _ _ e λ size narrow e1.
      ensure_ok (leb (length body) c.maximum_message_body) _ _ e1 λ small e2.
        bind_ok (write_all c.stream _) _ e2 λ stream wrote e3.
          ok_or_ok (next_u64 c.next_serial) _ _ e3 λ serial counted e4.
            let whole : length body ≡ size = narrow_eq (length body) size narrow in
            let one : serial ≡ c.next_serial + 1 = next_eq c.next_serial serial counted in
            (
              stream,
              ap
                    (λ (n : ℕ).
                      write_all c.stream (Header.encode c.framing c.next_serial ty n [] ++ body))
                    whole
                  ∙ wrote,
              sym (ok-injective e4)
                  ∙ ap (λ (q : ℕ). record c { stream = stream; next_serial = q }) one,
            )
    where
      narrow_eq : (n size : ℕ) → try_u32 n ≡ some size → n ≡ size
      narrow_eq n size h = ground arith

      next_eq : (n serial : ℕ) → next_u64 n ≡ some serial → serial ≡ n + 1
      next_eq n serial h = ground arith

  pub write_message-Acked :
      (c : Channel S) {c' : Channel S}
      → write_message write_all c CommonClient.ack [] ≡ ok c'
      → Acked c c'
  write_message-Acked c e =
      let (stream, wrote, after) = write_message_lem c CommonClient.ack [] e in
      (
        stream,
        ap (λ (q : Bytes). write_all c.stream q) (sym (encode-ack_frame c.framing c.next_serial))
            ∙ wrote,
        after,
      )
