-- ===== src/Link/Message.antt =====
-- crates/oxide-spice-protocol/src/link.rs: `LinkMessage`.
pub mod Layout
use oxide_spice.Common.{
  ℕ, ◌+◌, ◌*◌, ◌^◌, Bool, not, ◌||◌, Option, none, some, List, [], ◌∷◌, ◌++◌, ltb, if◌then◌else◌,
  length,
}
use oxide_spice.Errors.{
  overflow, resource_limit, DecodeError, decode_error, Result, ok, err, ok_or, ensure, ◌>>=◌, ◌>>◌,
}
use oxide_spice.Bytes.{Bytes, to_le, try_u32, checked_add, checked_mul}
use oxide_spice.Capability.{CapabilitySet, max_capability_words}
use oxide_spice.ChannelType
use oxide_spice.ChannelType.{ChannelType}

-- Size of the packed fixed part.
abbrev pub link_message_fixed_size : ℕ
link_message_fixed_size = 18

pub record LinkMessage : Type 0 where
  pub connection_id : ℕ
  pub channel_type : ChannelType
  pub channel_id : ℕ
  pub common_capabilities : CapabilitySet
  pub channel_capabilities : CapabilitySet

pub words_bytes : List ℕ → Bytes
words_bytes [] = []
words_bytes (w ∷ ws) = to_le 4 w ++ words_bytes ws

-- The computed capacity is an allocation hint; its overflow checks are kept.
unfoldable pub encode : LinkMessage → Result DecodeError Bytes
unfolding words_bytes
encode m = do
  common_count ←
      ok_or (try_u32 (length m.common_capabilities.words))
        (decode_error overflow 0 "common capability count")
  channel_count ←
      ok_or (try_u32 (length m.channel_capabilities.words))
        (decode_error overflow 0 "channel capability count")
  ensure
      (not (
        ltb max_capability_words (length m.common_capabilities.words)
        || ltb max_capability_words (length m.channel_capabilities.words)))
      (decode_error resource_limit 0 "link capability count")
  word_count ←
      ok_or (checked_add (length m.common_capabilities.words) (length m.channel_capabilities.words))
        (decode_error overflow 0 "link capability count")
  word_bytes ← ok_or (checked_mul word_count 4) (decode_error overflow 0 "link capability bytes")
  capacity ←
      ok_or (checked_add link_message_fixed_size word_bytes)
        (decode_error overflow 0 "link message bytes")
  ok (
      to_le 4 m.connection_id
      ++ (ChannelType.code m.channel_type
          ∷ m.channel_id
          ∷ (to_le 4 common_count
              ++ (to_le 4 channel_count
                  ++ (to_le 4 link_message_fixed_size
                      ++ words_bytes
                          (m.common_capabilities.words ++ m.channel_capabilities.words))))))
