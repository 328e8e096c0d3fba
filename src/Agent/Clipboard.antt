-- ===== src/Agent/Clipboard.antt =====
-- crates/oxide-spice-protocol/src/agent.rs: clipboard types, selections, and the request, data
-- and release payloads.
mod RoundTrip
mod Runs
use oxide_spice.Common.{
  ℕ, ◌-◌, Bool, true, false, not, ◌&&◌, [], ◌∷◌, ◌++◌, none, some, ◌==◌, ltb, if◌then◌else◌, length,
  take_exact, drop,
}
use oxide_spice.Errors.{
  truncated, invalid_value, unsupported, DecodeError, decode_error, Result, ok, err, ok_or, ensure,
  ◌>>=◌, ◌>>◌,
}
use oxide_spice.Bytes.{Bytes, to_le}
use oxide_spice.Wire
use oxide_spice.Wire.{u32, parse}

pub data AgentClipboardType : Type 0 where
  no_type utf8_text image_png image_bmp image_tiff image_jpeg file_list : AgentClipboardType

abbrev pub type_code : AgentClipboardType → ℕ
type_code no_type = 0
type_code utf8_text = 1
type_code image_png = 2
type_code image_bmp = 3
type_code image_tiff = 4
type_code image_jpeg = 5
type_code file_list = 6

-- `TryFrom<u32>`.
unfoldable pub type_from : ℕ → Result DecodeError AgentClipboardType
type_from v =
    if v == 0
    then ok no_type
    else if v == 1
    then ok utf8_text
    else if v == 2
    then ok image_png
    else if v == 3
    then ok image_bmp
    else if v == 4
    then ok image_tiff
    else if v == 5
    then ok image_jpeg
    else if v == 6
    then ok file_list
    else err (decode_error unsupported 0 "agent clipboard type")

pub data AgentClipboardSelection : Type 0 where
  clipboard primary secondary : AgentClipboardSelection

abbrev pub selection_code : AgentClipboardSelection → ℕ
selection_code clipboard = 0
selection_code primary = 1
selection_code secondary = 2

-- `TryFrom<u8>`.
unfoldable pub selection_from : ℕ → Result DecodeError AgentClipboardSelection
selection_from v =
    if v == 0
    then ok clipboard
    else if v == 1
    then ok primary
    else if v == 2
    then ok secondary
    else err (decode_error invalid_value 0 "agent clipboard selection")

abbrev is_clipboard : AgentClipboardSelection → Bool
is_clipboard clipboard = true
is_clipboard primary = false
is_clipboard secondary = false

abbrev first_byte : Bytes → ℕ
first_byte [] = 0
first_byte (b ∷ bs) = b

-- The selection, and the rest of the payload.
unfoldable pub decode_selection :
    Bytes → Bool → Result DecodeError (AgentClipboardSelection × Bytes)
decode_selection payload selection_supported =
    if not selection_supported then ok (clipboard, payload) else (do
      prefix ←
          ok_or (take_exact 4 payload)
            (decode_error truncated (length payload) "agent clipboard selection")
      selection ← selection_from (first_byte prefix)
      ok (selection, drop 4 payload))

abbrev pub encode_selection : AgentClipboardSelection → Bool → Bytes
encode_selection selection selection_supported =
    if selection_supported then selection_code selection ∷ 0 ∷ 0 ∷ 0 ∷ [] else []

abbrev require_supported : AgentClipboardSelection → Bool → Result DecodeError (Unit {0})
require_supported selection selection_supported =
    ensure (not (not selection_supported && not (is_clipboard selection)))
      (decode_error unsupported 0 "agent clipboard selection")

pub record AgentClipboardRequest : Type 0 where
  pub selection : AgentClipboardSelection
  pub clipboard_type : ℕ

unfoldable pub decode_clipboard_request : Bytes → Bool → Result DecodeError AgentClipboardRequest
unfolding decode_selection
decode_clipboard_request body selection_supported = do
  selected ← decode_selection body selection_supported
  ensure (length selected.1 == 4) (
      decode_error (if ltb (length selected.1) 4 then truncated else invalid_value)
        (length selected.1) "agent clipboard request")
  clipboard_type ← parse (u32 "agent clipboard requested type") selected.1
  ok (record { selection = selected.0; clipboard_type = clipboard_type })

unfoldable pub encode_clipboard_request :
    AgentClipboardSelection → AgentClipboardType → Bool → Result DecodeError Bytes
encode_clipboard_request selection clipboard_type selection_supported = do
  require_supported selection selection_supported
  ok (encode_selection selection selection_supported ++ to_le 4 (type_code clipboard_type))

-- The data borrows from the payload in the source.
pub record AgentClipboardData : Type 0 where
  pub selection : AgentClipboardSelection
  pub clipboard_type : ℕ
  pub clipboard_bytes : Bytes

unfoldable pub data_fields : Wire.Parser (ℕ × Bytes)
data_fields r =
    Wire.and_then
      (λ clipboard_type r1.
        Wire.and_then
          (λ left r2.
            Wire.and_then (λ bs r3. ok ((clipboard_type, bs), r3))
              (Wire.take left "agent clipboard data" r2))
          (Wire.remaining r1))
      (u32 "agent clipboard data type" r)

unfoldable pub decode_clipboard_data : Bytes → Bool → Result DecodeError AgentClipboardData
unfolding decode_selection data_fields
decode_clipboard_data body selection_supported = do
  selected ← decode_selection body selection_supported
  found ← parse data_fields selected.1
  ok (record { selection = selected.0; clipboard_type = found.0; clipboard_bytes = found.1 })

unfoldable pub encode_clipboard_data :
    AgentClipboardSelection → AgentClipboardType → Bytes → Bool → Result DecodeError Bytes
encode_clipboard_data selection clipboard_type bs selection_supported = do
  require_supported selection selection_supported
  ok (encode_selection selection selection_supported ++ (to_le 4 (type_code clipboard_type) ++ bs))

unfoldable pub decode_clipboard_release : Bytes → Bool → Result DecodeError AgentClipboardSelection
unfolding decode_selection
decode_clipboard_release body selection_supported = do
  selected ← decode_selection body selection_supported
  ensure (length selected.1 == 0)
      (decode_error invalid_value (length body - length selected.1) "agent clipboard release")
  ok selected.0

unfoldable pub encode_clipboard_release : AgentClipboardSelection → Bool → Result DecodeError Bytes
encode_clipboard_release selection selection_supported = do
  require_supported selection selection_supported
  ok (encode_selection selection selection_supported)
