-- ===== src/Agent/Clipboard/Runs.antt =====
-- The layouts of the source's test, and a payload that is too short.
use oxide_spice.Common.{◌≡◌, refl, true, false, [], ◌∷◌}
use oxide_spice.Errors.{ok, err, truncated, unsupported, decode_error}
use oxide_spice.Wire.{u32, take}
use oxide_spice.Agent.Clipboard.{
  clipboard, primary, utf8_text, file_list, type_from, selection_from, decode_selection,
  decode_clipboard_request, encode_clipboard_request, decode_clipboard_data, data_fields,
  decode_clipboard_release, encode_clipboard_release,
}

type_run : type_from 6 ≡ ok file_list
unfolding type_from
type_run = refl

request_run :
    encode_clipboard_request primary utf8_text true ≡ ok (1 ∷ 0 ∷ 0 ∷ 0 ∷ 1 ∷ 0 ∷ 0 ∷ 0 ∷ [])
unfolding encode_clipboard_request
request_run = refl

request_back_run :
    decode_clipboard_request (1 ∷ 0 ∷ 0 ∷ 0 ∷ 1 ∷ 0 ∷ 0 ∷ 0 ∷ []) true
    ≡ ok (record { selection = primary; clipboard_type = 1 })
unfolding decode_clipboard_request decode_selection selection_from u32 take
request_back_run = refl

short_run :
    decode_clipboard_request (1 ∷ 0 ∷ 0 ∷ []) true
    ≡ err (decode_error truncated 3 "agent clipboard selection")
unfolding decode_clipboard_request decode_selection selection_from u32 take
short_run = refl

unsupported_run :
    encode_clipboard_release primary false
    ≡ err (decode_error unsupported 0 "agent clipboard selection")
unfolding encode_clipboard_release
unsupported_run = refl

data_run :
    decode_clipboard_data (1 ∷ 0 ∷ 0 ∷ 0 ∷ 65 ∷ 66 ∷ []) false
    ≡ ok (record { selection = clipboard; clipboard_type = 1; clipboard_bytes = 65 ∷ 66 ∷ [] })
unfolding decode_clipboard_data decode_selection selection_from data_fields u32 take
data_run = refl

release_run : decode_clipboard_release (1 ∷ 0 ∷ 0 ∷ 0 ∷ []) true ≡ ok primary
unfolding decode_clipboard_release decode_selection selection_from
release_run = refl
