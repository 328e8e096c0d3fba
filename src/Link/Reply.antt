-- ===== src/Link/Reply.antt =====
-- crates/oxide-spice-protocol/src/link.rs: `LinkError` and `LinkReply`.
use oxide_spice.Common.{
  ℕ, zero, suc, ◌/◌, String, List, [], ◌∷◌, ◌==◌, ltb, leb, if◌then◌else◌, length,
}
use oxide_spice.Errors.{
  truncated, invalid_value, overflow, resource_limit, invalid_offset, DecodeError, decode_error,
  Result, ok, err, ok_or,
}
use oxide_spice.Bytes.{Bytes, checked_add}
use oxide_spice.Wire.{
  Parser, take, u32, pure, lift, require, offset, parse, slice, resolve_range, checked_array_bytes,
  ◌>>=◌, ◌>>◌,
}
use oxide_spice.Capability.{CapabilitySet, from_words, max_capability_words}
use oxide_spice.Link.Header.{max_link_body_size}

abbrev pub link_reply_fixed_size : ℕ
link_reply_fixed_size = 178

abbrev pub spice_ticket_public_key_size : ℕ
spice_ticket_public_key_size = 162

pub data LinkError : Type 0 where
  success error invalid_magic invalid_data version_mismatch need_secured need_unsecured
        permission_denied bad_connection_id channel_unavailable :
      LinkError

abbrev pub code : LinkError → ℕ
code success = 0
code error = 1
code invalid_magic = 2
code invalid_data = 3
code version_mismatch = 4
code need_secured = 5
code need_unsecured = 6
code permission_denied = 7
code bad_connection_id = 8
code channel_unavailable = 9

-- `TryFrom<u32>`.
unfoldable pub try_from : ℕ → Result DecodeError LinkError
try_from v =
    if v == 0
    then ok success
    else if v == 1
    then ok error
    else if v == 2
    then ok invalid_magic
    else if v == 3
    then ok invalid_data
    else if v == 4
    then ok version_mismatch
    else if v == 5
    then ok need_secured
    else if v == 6
    then ok need_unsecured
    else if v == 7
    then ok permission_denied
    else if v == 8
    then ok bad_connection_id
    else if v == 9
    then ok channel_unavailable
    else err (decode_error invalid_value 0 "link result")

pub record LinkReply : Type 0 where
  pub result : LinkError
  pub public_key_der : Bytes
  pub common_capabilities : CapabilitySet
  pub channel_capabilities : CapabilitySet

unfoldable pub read_words : String → ℕ → Parser (List ℕ)
read_words context zero = pure []
read_words context (suc n) = do
  word ← u32 context
  words ← read_words context n
  pure (word ∷ words)

-- The two arrays, read one after the other from their own reader.
unfoldable pub read_sets : ℕ → ℕ → Parser (List ℕ × List ℕ)
read_sets common channel = do
  common_words ← read_words "server common capability" common
  channel_words ← read_words "server channel capability" channel
  pure (common_words, channel_words)

unfoldable pub fields : Bytes → Parser LinkReply
fields body = do
  result_code ← u32 "link reply result"
  result ← lift (try_from result_code)
  public_key_der ← take spice_ticket_public_key_size "ticket public key"
  common_count ← u32 "server common capability count"
  channel_count ← u32 "server channel capability count"
  caps_offset ← u32 "server capability offset"
  at ← offset
  common_bytes ←
      lift (checked_array_bytes common_count 4 max_capability_words at "server common capabilities")
  channel_bytes ←
      lift
        (checked_array_bytes channel_count 4 max_capability_words at "server channel capabilities")
  total_bytes ← lift (
      ok_or (checked_add common_bytes channel_bytes)
        (decode_error overflow at "server capabilities"))
  require (leb link_reply_fixed_size caps_offset)
      (decode_error invalid_offset caps_offset "server capability offset")
  range ← lift (resolve_range body caps_offset total_bytes "server capabilities")
  sets ← lift (parse (read_sets (common_bytes / 4) (channel_bytes / 4)) (slice body range))
  pure (record {
    result = result;
    public_key_der = public_key_der;
    common_capabilities = from_words sets.0;
    channel_capabilities = from_words sets.1;
  })

unfoldable pub decode : Bytes → Result DecodeError LinkReply
decode body =
    if ltb (length body) link_reply_fixed_size
    then err (decode_error truncated (length body) "link reply")
    else if ltb max_link_body_size (length body)
    then err (decode_error resource_limit (length body) "link reply")
    else parse (fields body) body
