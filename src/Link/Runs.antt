-- ===== src/Link/Runs.antt =====
-- A link header and a link message.
use oxide_spice.Common.{
  ◌+◌, ◌*◌, ◌≤◌, ◌<◌, ◌≡◌, ◌⊎◌, refl, arith, [], ◌∷◌, ◌++◌, length, All, drop, replicate,
}
use oxide_spice.Errors.{ok, err, resource_limit, unsupported, decode_error}
use oxide_spice.Bytes.{Bytes, IsByte, to_le}
use oxide_spice.Wire.{take, u32, slice, resolve_range, checked_array_bytes}
use oxide_spice.Capability.{from_words}
use oxide_spice.ChannelType
use oxide_spice.Link.Header
use oxide_spice.Link.Header.{
  LinkHeader, current, max_link_body_size, spice_version_major, spice_magic,
}
use oxide_spice.Link.Header.RoundTrip.{decode-encode_link, encode-decode_link}
use oxide_spice.Link.Message
use oxide_spice.Link.Message.{LinkMessage}
use oxide_spice.Link.Message.Layout.{encode_layout, words_of}
use oxide_spice.Link.Reply
use oxide_spice.Link.Reply.{LinkReply}

decode-encode_link_example :
    ((2 ≡ spice_version_major)
      → (26 ≤ max_link_body_size)
      → Header.decode (Header.encode (current 26) []) ≡ ok (current 26))
    × ((2 ≡ spice_version_major)
        → (max_link_body_size < 26)
        → Header.decode (Header.encode (current 26) [])
          ≡ err (decode_error resource_limit 12 "link body size"))
    × (¬ (2 ≡ spice_version_major)
        → Header.decode (Header.encode (current 26) [])
          ≡ err (decode_error unsupported 4 "link major version"))
decode-encode_link_example =
    decode-encode_link (current 26) (omega arith) (omega arith) (omega arith)

abbrev header_bytes : Bytes
header_bytes = spice_magic ++ (to_le 4 2 ++ (to_le 4 2 ++ to_le 4 26))

header_bytes-accepted : Header.decode header_bytes ≡ ok (current 26)
unfolding Header.decode take u32
header_bytes-accepted = refl

header_bytes-bytes : All IsByte header_bytes
header_bytes-bytes = (
  omega arith,
  (
    omega arith,
    (
      omega arith,
      (
        omega arith,
        (
          omega arith,
          (
            omega arith,
            (
              omega arith,
              (
                omega arith,
                (
                  omega arith,
                  (
                    omega arith,
                    (
                      omega arith,
                      (omega arith, (omega arith, (omega arith, (omega arith, (omega arith, tt))))),
                    ),
                  ),
                ),
              ),
            ),
          ),
        ),
      ),
    ),
  ),
)

encode-decode_link_example :
    (Header.encode (current 26) [] ≡ header_bytes)
    × (2 ≡ spice_version_major)
    × (26 ≤ max_link_body_size)
encode-decode_link_example =
    encode-decode_link header_bytes header_bytes-bytes header_bytes-accepted

abbrev main_link : LinkMessage
main_link = record {
  connection_id = 0;
  channel_type = ChannelType.main;
  channel_id = 0;
  common_capabilities = record { words = 9 ∷ [] };
  channel_capabilities = record { words = 11 ∷ [] };
}

encode_layout_example :
    ((1 ≤ 16)
      × (1 ≤ 16)
      × ((body : Bytes) × (Message.encode main_link ≡ ok body)
          × (length body ≡ 18 + 4 * (1 + 1))
          × (words_of (1 + 1) (drop 18 body) ≡ 9 ∷ 11 ∷ [])))
    ⊎ (((16 < 1) ⊎ (16 < 1)) × ((body : Bytes) → ¬ (Message.encode main_link ≡ ok body)))
encode_layout_example = encode_layout main_link (omega arith, (omega arith, tt))

-- A reply with one capability word on each side.
abbrev reply_bytes : Bytes
reply_bytes =
    to_le 4 0
    ++ (replicate 162 7 ++ (to_le 4 1 ++ (to_le 4 1 ++ (to_le 4 178 ++ (to_le 4 9 ++ to_le 4 11)))))

reply_bytes-decoded :
    Reply.decode reply_bytes
    ≡ ok (record {
      result = Reply.success;
      public_key_der = replicate 162 7;
      common_capabilities = from_words (9 ∷ []);
      channel_capabilities = from_words (11 ∷ []);
    })
unfolding Reply.decode Reply.fields Reply.read_sets Reply.read_words Reply.try_from resolve_range
    slice checked_array_bytes take u32
reply_bytes-decoded = refl
