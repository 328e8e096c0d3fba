-- ===== src/Client/Envelope/Order.antt =====
-- The iterator of `IncomingEnvelope`, on a decoded envelope.
use oxide_spice.Common.{
  ℕ, zero, suc, ◌+◌, ◌≡◌, ◌≢◌, Option, none, some, ◌⊎◌, List, [], ◌∷◌, ◌++◌, length, map, All,
}
use oxide_spice.Errors.{ok}
use oxide_spice.Bytes.{Bytes, IsU32}
use oxide_spice.Channel.Header.{DataHeader}
use oxide_spice.Channel.SubMessages
use oxide_spice.Channel.SubMessages.{SubMessage, SubMessageList}
use oxide_spice.Messages.CommonServer
use oxide_spice.Client.Envelope.{
  IncomingMessage, IncomingEnvelope, IncomingMessages, yielded, finished, panicked, next, start,
  list_offset,
}

prepend : IncomingMessage → Option (List IncomingMessage) → Option (List IncomingMessage)
prepend m none = none
prepend m (some ms) = some (m ∷ ms)

-- All that the iterator yields within so many calls; none when it panics or does not end.
pub drain : ℕ → IncomingMessages → Option (List IncomingMessage)
unfolding prepend
drain zero it = none
drain (suc calls) it = elim (next it) [
  | yielded m rest ↦ prepend m (drain calls rest)
  | finished ↦ some []
  | panicked ↦ none
]

-- A logical message as it is handed out: with the envelope's serial, its own type and its own size.
unfoldable pub logical : DataHeader → SubMessage → IncomingMessage
logical h m = record {
  header = record {
    serial = h.serial;
    message_type = m.message_type;
    body_size = length m.body;
    sub_list_offset = none;
  };
  body = m.body;
}

-- The main message as it is handed out: with the envelope's header, but without a list.
unfoldable pub main_part : DataHeader → Option Bytes → List IncomingMessage
main_part h none = []
main_part h (some body) =
    record { header = record h { body_size = length body; sub_list_offset = none }; body = body }
    ∷ []

abbrev Fits : Option Bytes → Type 0
Fits none = Unit
Fits (some body) = IsU32 (length body)

abbrev pub NotNested : IncomingMessage → Type 0
NotNested m = m.header.message_type ≢ CommonServer.list

abbrev IsPlain : DataHeader → Option Bytes → Type 0
IsPlain h main = (main ≡ none) ⊎ (h.message_type ≢ CommonServer.list)

-- What a list gives from an index on.
abbrev Listed : SubMessageList → ℕ → ℕ → List SubMessage → Type 0
Listed l rounds index subs =
    (SubMessages.collect (suc rounds) l index ≡ some (ok subs)) × (length subs ≡ rounds)

abbrev pub count_list : Option SubMessageList → ℕ
count_list none = 0
count_list (some list) = list.count

-- The logical messages of an envelope: none without a list, and otherwise all that its iterator
-- yields, as many as its count.
abbrev pub AreLogical : Option SubMessageList → List SubMessage → Type 0
AreLogical none subs = subs ≡ []
AreLogical (some l) subs =
    (SubMessages.collect (suc l.count) l 0 ≡ some (ok subs)) × (length subs ≡ l.count)

-- What iterating the envelope gives.
abbrev pub Handed : IncomingEnvelope → Type 0
Handed e =
    (subs : List SubMessage) × AreLogical e.submessages subs
    × (drain (count_list e.submessages + 2) (start e)
        ≡ some (map (logical e.header) subs ++ main_part e.header e.main_body))
    × All NotNested (map (logical e.header) subs ++ main_part e.header e.main_body)

-- Which part of the body is the main message: nothing of a list message, the whole body when there
-- is no list behind it, and otherwise the bytes before the list.
abbrev pub IsCut : DataHeader → Bytes → IncomingEnvelope → Type 0
IsCut header body e =
    (e.header ≡ header)
    × (((header.message_type ≡ CommonServer.list) × (e.main_body ≡ none))
        ⊎ ((header.message_type ≢ CommonServer.list)
            × (main : Bytes) × (rest : Bytes) × (e.main_body ≡ some main)
            × (body ≡ main ++ rest)
            × (((list_offset header.sub_list_offset ≡ none) × (rest ≡ []))
                ⊎ (list_offset header.sub_list_offset ≡ some (length main)))))

abbrev Apart : DataHeader → Bytes → IncomingEnvelope → Type 0
Apart header body e = IsCut header body e × Handed e
