-- ===== src/Agent/Clipboard/RoundTrip.antt =====
-- The clipboard payloads in both directions.
use oxide_spice.Common.{◌+◌, ◌<◌, ◌≡◌, refl, sym, subst, arith, true, [], ◌++◌, append-nil, length}
use oxide_spice.Errors.{ok}
use oxide_spice.Bytes.{Bytes, IsU32, to_le, usize_mod}
use oxide_spice.Wire
use oxide_spice.Wire.{u32}
use oxide_spice.Wire.Cursor.{Sees, new-Sees, advance-Sees, u32-Sees, take-Sees, left-Sees}
use oxide_spice.Agent.Clipboard.{
  AgentClipboardType, AgentClipboardSelection, clipboard, primary, secondary, type_code,
  selection_from, decode_selection, encode_selection, decode_clipboard_data, data_fields,
  encode_clipboard_data,
}

type_code-IsU32 : (t : AgentClipboardType) → IsU32 (type_code t)
type_code-IsU32 t = ground arith

-- A selection with the rest of its payload reads back, where the peer has selections.
decode_selection-encode_selection :
    (selection : AgentClipboardSelection) (rest : Bytes)
    → decode_selection (encode_selection selection true ++ rest) true ≡ ok (selection, rest)
unfolding decode_selection selection_from
decode_selection-encode_selection clipboard rest = refl
decode_selection-encode_selection primary rest = refl
decode_selection-encode_selection secondary rest = refl

data_read :
    (t : AgentClipboardType) (bs : Bytes)
    → length bs + 4 < usize_mod
    → Wire.parse data_fields (to_le 4 (type_code t) ++ bs) ≡ ok (type_code t, bs)
unfolding data_fields
data_read t bs fits =
    let s0 = new-Sees (to_le 4 (type_code t) ++ bs) (omega arith) in
    let s1 = advance-Sees (Wire.new (to_le 4 (type_code t) ++ bs)) (to_le 4 (type_code t)) bs s0 in
    rw
      (
        u32-Sees _ (type_code t) _ "agent clipboard data type" (type_code-IsU32 t) s0,
        left-Sees _ bs s1,
        take-Sees _ bs [] "agent clipboard data" (subst (Sees _) (sym (append-nil bs)) s1),
      )
      refl

-- Clipboard data of less than 2 ^ 64 - 4 bytes reads back with its selection and its type, where the
-- peer has selections.
decode-encode_clipboard_data :
    (selection : AgentClipboardSelection) (t : AgentClipboardType) (bs : Bytes)
    → length bs + 4 < usize_mod
    → (body : Bytes) × (encode_clipboard_data selection t bs true ≡ ok body)
      × (decode_clipboard_data body true
          ≡ ok (record {
            selection = selection;
            clipboard_type = type_code t;
            clipboard_bytes = bs;
          }))
unfolding encode_clipboard_data decode_clipboard_data
decode-encode_clipboard_data selection t bs fits = (
  encode_selection selection true ++ (to_le 4 (type_code t) ++ bs),
  refl,
  rw
      (
        decode_selection-encode_selection selection (to_le 4 (type_code t) ++ bs),
        data_read t bs fits,
      )
      refl,
)
