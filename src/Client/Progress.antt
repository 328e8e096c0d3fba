-- ===== src/Client/Progress.antt =====
-- crates/oxide-spice-client/src/channel.rs: `ProgressRegistry`, the completed serial of every linked
-- channel, and the waits for one another's serials. The map is an association list. `wait_for` is
-- what one poll of the future sees: every await of the source stands at the first unmet barrier.
pub mod Barrier
mod Runs
use oxide_spice.Common.{
  ℕ, zero, suc, Bool, true, false, ◌&&◌, Option, none, some, List, [], ◌∷◌, ◌==◌, ltb, leb,
  if◌then◌else◌,
}
use oxide_spice.Errors.{Result, ok, err, ok_or, ensure, ◌>>=◌, ◌>>◌}
use oxide_spice.Bytes.{Bytes}
use oxide_spice.ChannelType
use oxide_spice.ChannelType.{ChannelType}
use oxide_spice.Messages.CommonServer
use oxide_spice.Channel.Waits
use oxide_spice.Channel.Waits.{ChannelWait}
use oxide_spice.Client.Error.{ClientError, internal, cancelled, protocol_value_error, from_decode}

pub record ChannelIdentity : Type 0 where
  pub channel_type : ChannelType
  pub channel_id : ℕ

-- The derived equality.
abbrev pub same : ChannelIdentity → ChannelIdentity → Bool
same i j =
    ChannelType.code i.channel_type == ChannelType.code j.channel_type
    && i.channel_id == j.channel_id

abbrev pub Registry : Type 0
Registry = List (ChannelIdentity × ℕ)

pub get : ChannelIdentity → Registry → Option ℕ
get i [] = none
get i ((j, serial) ∷ r) = if same j i then some serial else get i r

pub set_progress : ChannelIdentity → ℕ → Registry → Registry
set_progress i serial [] = []
set_progress i serial ((j, old) ∷ r) =
    if same j i then (j, serial) ∷ r else (j, old) ∷ set_progress i serial r

abbrev is_free : Option ℕ → Bool
is_free none = true
is_free (some serial) = false

insert_all : List (ChannelIdentity × ℕ) → Registry → Result ClientError Registry
insert_all [] entries = ok entries
insert_all ((i, serial) ∷ channels) entries = do
  ensure (is_free (get i entries)) (internal "duplicate progress channel identity")
  insert_all channels ((i, serial) ∷ entries)

pub new : List (ChannelIdentity × ℕ) → Result ClientError Registry
unfolding insert_all
new channels = insert_all channels []

-- A message is published only when its serial is past the completed one.
pub complete : ChannelIdentity → ℕ → Registry → Result ClientError Registry
complete i serial r = do
  progress ← ok_or (get i r) (internal "missing progress channel identity")
  ensure (ltb progress serial) (internal "non-monotonic completed serial")
  ok (set_progress i serial r)

pub data WaitState : Type 0 where
  ready blocked : WaitState

-- The loop over the barriers; `cancel` is the state of the cancellation flag at the poll.
pub wait_for :
    Registry → ChannelIdentity → ℕ → Bool → List ChannelWait → Result ClientError WaitState
wait_for r requester requester_serial cancel [] = ok ready
wait_for r requester requester_serial cancel (w ∷ waits) =
    let target : ChannelIdentity = record {
      channel_type = w.channel_type;
      channel_id = w.channel_id;
    } in
    let rest = wait_for r requester requester_serial cancel waits in
    if same target requester && leb requester_serial w.message_serial
    then err (protocol_value_error "self-referential channel wait")
    else elim (get target r) [
      | none ↦ err (protocol_value_error "wait for unknown channel")
      | some completed ↦
          if ltb completed w.message_serial
          then (if cancel then err cancelled else ok blocked)
          else rest
    ]

-- Whether the message was a barrier list, and then the state of its wait.
pub handle_channel_wait :
    Registry → ChannelIdentity → ℕ → Bool → ℕ → Bytes → Result ClientError (Option WaitState)
handle_channel_wait r identity serial cancel message_type body =
    if message_type == CommonServer.wait_for_channels
    then (do
      waits ← from_decode (Waits.decode body)
      state ← wait_for r identity serial cancel waits
      ok (some state))
    else ok none
