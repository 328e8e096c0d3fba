-- ===== src/Messages/CommonServer.antt =====
-- crates/oxide-spice-protocol/src/channel.rs: `common_server`, the server messages of every channel.
use oxide_spice.Common.{ℕ}

abbrev pub migrate : ℕ
migrate = 1

abbrev pub migrate_data : ℕ
migrate_data = 2

abbrev pub set_ack : ℕ
set_ack = 3

abbrev pub ping : ℕ
ping = 4

abbrev pub wait_for_channels : ℕ
wait_for_channels = 5

abbrev pub disconnecting : ℕ
disconnecting = 6

abbrev pub notify : ℕ
notify = 7

abbrev pub list : ℕ
list = 8
