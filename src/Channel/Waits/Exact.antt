-- ===== src/Channel/Waits/Exact.antt =====
-- The packed bytes of a barrier list, against the decoder of channel.rs of the protocol crate.
use oxide_spice.Common.{◌*◌, ◌≤◌, ◌≡◌, refl, arith, List, [], ◌∷◌, ◌++◌, length, All}
use oxide_spice.Errors.{ok}
use oxide_spice.Bytes.{Bytes, IsByte, IsU64, to_le}
use oxide_spice.Wire.{Reader, new, ◌>>=◌}
use oxide_spice.Wire.Cursor.{
  Sees, advance, advance-Sees, new-Sees, u8-Sees, u64-Sees, remaining-Sees,
}
use oxide_spice.ChannelType
use oxide_spice.ChannelType.{ChannelType, try_from-code}
use oxide_spice.Channel.Waits.{
  ChannelWait, read_wait, read_waits, wait_list, decode, max_channel_waits,
}

-- The packed ten bytes of a barrier.
abbrev pub wait_bytes : ChannelWait → Bytes
wait_bytes w = ChannelType.code w.channel_type ∷ w.channel_id ∷ to_le 8 w.message_serial

abbrev pub waits_bytes : List ChannelWait → Bytes
waits_bytes [] = []
waits_bytes (w ∷ ws) = wait_bytes w ++ waits_bytes ws

abbrev pub IsWait : ChannelWait → Type 0
IsWait w = IsByte w.channel_id × IsU64 w.message_serial

length-waits_bytes : (ws : List ChannelWait) → length (waits_bytes ws) ≡ length ws * 10
length-waits_bytes [] = omega arith
length-waits_bytes (w ∷ ws) = omega (arith, length-waits_bytes ws)

read_wait_lem :
    (r : Reader) (w : ChannelWait) (rest : Bytes)
    → IsWait w
    → Sees r (wait_bytes w ++ rest)
    → (r' : Reader) × (read_wait r ≡ ok (w, r')) × Sees r' rest
unfolding read_wait
read_wait_lem r w rest valid s =
    let s1 =
      advance-Sees r (ChannelType.code w.channel_type ∷ [])
        (w.channel_id ∷ (to_le 8 w.message_serial ++ rest)) s in
    let s2 = advance-Sees (advance 1 r) (w.channel_id ∷ []) (to_le 8 w.message_serial ++ rest) s1 in
    let s3 = advance-Sees (advance 1 (advance 1 r)) (to_le 8 w.message_serial) rest s2 in
    (
      advance 8 (advance 1 (advance 1 r)),
      ground (
        arith,
        u8-Sees r (ChannelType.code w.channel_type)
            (w.channel_id ∷ (to_le 8 w.message_serial ++ rest)) "wait channel type" s,
        try_from-code w.channel_type,
        u8-Sees (advance 1 r) w.channel_id (to_le 8 w.message_serial ++ rest) "wait channel id" s1,
        u64-Sees (advance 1 (advance 1 r)) w.message_serial rest "wait message serial" valid.1 s2,
      ),
      s3,
    )

read_waits_lem :
    (r : Reader) (ws : List ChannelWait)
    → All IsWait ws
    → Sees r (waits_bytes ws)
    → (r' : Reader) × (read_waits (length ws) r ≡ ok (ws, r'))
unfolding read_waits
read_waits_lem r [] valid s = (r, refl)
read_waits_lem r (w ∷ ws) valid s =
    let (r1, first, s1) = read_wait_lem r w (waits_bytes ws) valid.0 s in
    let (r2, others) = read_waits_lem r1 ws valid.1 s1 in
    (r2, rw (first, ◌>>=◌) (rw (others, ◌>>=◌)))

-- A list of at most 64 barriers is read back from its count and its packed bytes.
pub decode-waits_bytes :
    (ws : List ChannelWait)
    → length ws ≤ max_channel_waits
    → All IsWait ws
    → decode (length ws ∷ waits_bytes ws) ≡ ok ws
unfolding decode wait_list
decode-waits_bytes ws few valid =
    let body : Bytes = length ws ∷ waits_bytes ws in
    let s0 = new-Sees body (omega (arith, length-waits_bytes ws)) in
    let s1 = advance-Sees (new body) (length ws ∷ []) (waits_bytes ws) s0 in
    let (r', others) = read_waits_lem (advance 1 (new body)) ws valid s1 in
    ground (
      arith,
      u8-Sees (new body) (length ws) (waits_bytes ws) "channel wait count" s0,
      remaining-Sees (advance 1 (new body)) (waits_bytes ws) s1,
      length-waits_bytes ws,
      others,
    )
