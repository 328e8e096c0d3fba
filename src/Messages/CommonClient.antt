-- ===== src/Messages/CommonClient.antt =====
-- crates/oxide-spice-protocol/src/channel.rs: `common_client`, the client messages of every channel.
use oxide_spice.Common.{ℕ}

abbrev pub ack_sync : ℕ
ack_sync = 1

abbrev pub ack : ℕ
ack = 2

abbrev pub pong : ℕ
pong = 3

abbrev pub migrate_flush_mark : ℕ
migrate_flush_mark = 4

abbrev pub migrate_data : ℕ
migrate_data = 5

abbrev pub disconnecting : ℕ
disconnecting = 6
