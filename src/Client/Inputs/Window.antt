-- ===== src/Client/Inputs/Window.antt =====
-- How many pointer messages can be unacknowledged.
use oxide_spice.Common.{ℕ, ◌+◌, ◌≤◌, ◌≡◌, true, false}
use oxide_spice.Bytes.{Bytes}
use oxide_spice.MouseMode.{MouseMode}
use oxide_spice.Messages.InputsServer
use oxide_spice.Messages.InputsClient
use oxide_spice.Client.Inputs.{max_in_flight_pointer_messages}
use oxide_spice.Client.Inputs.Task.{InputsTask}

module _ {S : Type 0} where
  -- Without an Init nothing is in flight, and `flushes` button edges can exceed the window by one
  -- message each.
  pub record IsBounded (flushes : ℕ) (t : InputsTask S) : Type 0 where
    pub idle : t.received_init ≡ false → t.in_flight ≡ 0
    pub window : t.in_flight ≤ max_in_flight_pointer_messages + flushes

  -- A send adds at most one message and does not touch the Init flag.
  abbrev Sent : InputsTask S → InputsTask S → Type 0
  Sent t u = (u.received_init ≡ t.received_init) × (u.in_flight ≤ t.in_flight + 1)

  -- A received message counts nothing up, and only after an Init is one accepted.
  abbrev Kept : InputsTask S → InputsTask S → Type 0
  Kept t u = (u.in_flight ≤ t.in_flight) × (u.received_init ≡ true)
