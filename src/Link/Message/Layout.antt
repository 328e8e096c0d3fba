-- ===== src/Link/Message/Layout.antt =====
-- The size of a link message, and what a reader of the documented layout finds in it.
use oxide_spice.Common.{
  ℕ, zero, suc, ◌+◌, ◌*◌, ◌≤◌, ◌<◌, ◌≡◌, ◌⊎◌, inl, inr, refl, sym, ap, ◌∙◌, arith, List, [], ◌∷◌,
  ◌++◌, append-nil, length, length-append, All, drop,
}
use native.Mathlib.Decide.{dec_le}
use oxide_spice.Errors.{ok}
use oxide_spice.Bytes.{Bytes, IsU32, to_le, from_le, from_le-to_le_32}
use oxide_spice.Capability.{max_capability_words}
use oxide_spice.ChannelType
use oxide_spice.Link.Message.{LinkMessage, encode, words_bytes, link_message_fixed_size}

length-words_bytes : (ws : List ℕ) → length (words_bytes ws) ≡ length ws * 4
unfolding words_bytes
length-words_bytes [] = omega arith
length-words_bytes (w ∷ ws) = omega (arith, length-words_bytes ws)

-- The words that are packed in a byte string.
abbrev pub words_of : ℕ → Bytes → List ℕ
words_of zero bs = []
words_of (suc n) [] = []
words_of (suc n) (a ∷ []) = []
words_of (suc n) (a ∷ b ∷ []) = []
words_of (suc n) (a ∷ b ∷ c ∷ []) = []
words_of (suc n) (a ∷ b ∷ c ∷ d ∷ bs) = from_le (a ∷ b ∷ c ∷ d ∷ []) ∷ words_of n bs

words_of-words_bytes :
    (ws rest : List ℕ) → All IsU32 ws → words_of (length ws) (words_bytes ws ++ rest) ≡ ws
unfolding words_bytes
words_of-words_bytes [] rest h = refl
words_of-words_bytes (w ∷ ws) rest h =
    ground (arith, from_le-to_le_32 w h.0, words_of-words_bytes ws rest h.1)

message_bytes : LinkMessage → Bytes
message_bytes m =
    to_le 4 m.connection_id
    ++ (ChannelType.code m.channel_type
        ∷ m.channel_id
        ∷ (to_le 4 (length m.common_capabilities.words)
            ++ (to_le 4 (length m.channel_capabilities.words)
                ++ (to_le 4 link_message_fixed_size
                    ++ words_bytes (m.common_capabilities.words ++ m.channel_capabilities.words)))))

accepted :
    (m : LinkMessage)
    → length m.common_capabilities.words ≤ max_capability_words
    → length m.channel_capabilities.words ≤ max_capability_words
    → encode m ≡ ok (message_bytes m)
unfolding encode message_bytes
accepted m h k = ground arith

refused :
    (m : LinkMessage) (body : Bytes)
    → ((max_capability_words < length m.common_capabilities.words)
        ⊎ (max_capability_words < length m.channel_capabilities.words))
    → ¬ (encode m ≡ ok body)
unfolding encode
refused m body over e = ground arith

words_at_18 :
    (m : LinkMessage)
    → All IsU32 (m.common_capabilities.words ++ m.channel_capabilities.words)
    → words_of
        (length m.common_capabilities.words + length m.channel_capabilities.words)
        (drop 18 (message_bytes m))
      ≡ m.common_capabilities.words ++ m.channel_capabilities.words
unfolding message_bytes
words_at_18 m valid =
    let ws : List ℕ = m.common_capabilities.words ++ m.channel_capabilities.words in
    let whole : words_of (length ws) (words_bytes ws) ≡ ws =
      ap (words_of (length ws)) (sym (append-nil (words_bytes ws)))
      ∙ words_of-words_bytes ws [] valid in
    ap (λ n. words_of n (words_bytes ws))
      (sym (length-append m.common_capabilities.words m.channel_capabilities.words))
    ∙ whole

length-message_bytes :
    (m : LinkMessage)
    → length (message_bytes m)
      ≡ 18 + 4 * (length m.common_capabilities.words + length m.channel_capabilities.words)
unfolding message_bytes
length-message_bytes m = omega (
  arith,
  length-words_bytes (m.common_capabilities.words ++ m.channel_capabilities.words),
  length-append m.common_capabilities.words m.channel_capabilities.words,
)

-- With at most 16 words on each side the message is encoded in 18 bytes and four for each word, and
-- the words from byte 18 on are the common ones followed by those of the channel. With more on
-- either side it is refused.
pub encode_layout :
    (m : LinkMessage)
    → All IsU32 (m.common_capabilities.words ++ m.channel_capabilities.words)
    → ((length m.common_capabilities.words ≤ max_capability_words)
        × (length m.channel_capabilities.words ≤ max_capability_words)
        × ((body : Bytes) × (encode m ≡ ok body)
            × (length body
                ≡ 18
                  + 4 * (length m.common_capabilities.words + length m.channel_capabilities.words))
            × (words_of
                  (length m.common_capabilities.words + length m.channel_capabilities.words)
                  (drop 18 body)
                ≡ m.common_capabilities.words ++ m.channel_capabilities.words)))
      ⊎ (((max_capability_words < length m.common_capabilities.words)
            ⊎ (max_capability_words < length m.channel_capabilities.words))
          × ((body : Bytes) → ¬ (encode m ≡ ok body)))
encode_layout m valid = elim (dec_le (length m.common_capabilities.words) max_capability_words) [
  | no over ↦ inr (inl (omega arith), λ body. refused m body (inl (omega arith)))
  | yes few ↦ elim (dec_le (length m.channel_capabilities.words) max_capability_words) [
    | no over ↦ inr (inr (omega arith), λ body. refused m body (inr (omega arith)))
    | yes also ↦ inl (
      few,
      also,
      (message_bytes m, accepted m few also, length-message_bytes m, words_at_18 m valid),
    )
  ]
]
