-- ===== src/Client/Progress/Runs.antt =====
-- Two channels, of which one waits for the other.
use oxide_spice.Common.{
  ℕ, ◌<◌, ◌≤◌, ◌≡◌, ◌↔◌, ◌⊎◌, refl, false, none, some, List, [], ◌∷◌, All, if◌then◌else◌,
}
use oxide_spice.Errors.{ok, err}
use oxide_spice.Client.Error.{internal}
use oxide_spice.ChannelType
use oxide_spice.Channel.Waits.{ChannelWait}
use oxide_spice.Client.Progress.{
  ChannelIdentity, same, Registry, get, set_progress, complete, ready, wait_for,
}
use oxide_spice.Client.Progress.Barrier.{complete_lem, wait_for_iff, wait_for-complete, Passed}

abbrev main_channel : ChannelIdentity
main_channel = record { channel_type = ChannelType.main; channel_id = 0 }

abbrev display_channel : ChannelIdentity
display_channel = record { channel_type = ChannelType.display; channel_id = 0 }

abbrev two_channels : ℕ → Registry
two_channels n = (main_channel, 3) ∷ (display_channel, n) ∷ []

abbrev after_nine : List ChannelWait
after_nine = record { channel_type = ChannelType.display; channel_id = 0; message_serial = 9 } ∷ []

completed : complete display_channel 10 (two_channels 9) ≡ ok (two_channels 10)
unfolding complete get set_progress
completed = refl

over : wait_for (two_channels 9) main_channel 4 false after_nine ≡ ok ready
unfolding wait_for get
over = refl

complete_lem_example :
    ((old : ℕ) × (r' : Registry) × (get display_channel (two_channels 9) ≡ some old)
      × (old < 10)
      × (complete display_channel 10 (two_channels 9) ≡ ok r')
      × ((j : ChannelIdentity)
          → get j r' ≡ (if same display_channel j then some 10 else get j (two_channels 9))))
    ⊎ (((get display_channel (two_channels 9) ≡ none)
          × (complete display_channel 10 (two_channels 9)
              ≡ err (internal "missing progress channel identity")))
        ⊎ ((old : ℕ) × (get display_channel (two_channels 9) ≡ some old)
            × (10 ≤ old)
            × (complete display_channel 10 (two_channels 9)
                ≡ err (internal "non-monotonic completed serial"))))
complete_lem_example = complete_lem display_channel 10 (two_channels 9)

wait_for_iff_example :
    (wait_for (two_channels 9) main_channel 4 false after_nine ≡ ok ready)
    ↔ All (Passed (two_channels 9) main_channel 4) after_nine
wait_for_iff_example = wait_for_iff (two_channels 9) main_channel 4 false after_nine

wait_for-complete_example : wait_for (two_channels 10) main_channel 4 false after_nine ≡ ok ready
wait_for-complete_example =
    wait_for-complete (two_channels 9) main_channel display_channel 4 10 false after_nine completed
      over
