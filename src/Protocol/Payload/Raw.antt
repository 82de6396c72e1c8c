-- ===== src/Protocol/Payload/Raw.antt =====
-- `SetRawPayload`: an opaque payload, such as an ADB message.
use adb_remote.Prelude.{
  ℕ, ◌≤◌, ◌<◌, ◌≡◌, refl, List, [], length, drop, ok, err, not_enough_space, arith,
}
use adb_remote.Protocol.Message.{TransporterMessage}
use adb_remote.Protocol.Fields.Laws.{store_lem}
use adb_remote.Protocol.Fields.Sequence.{stored, update_payload_metadata_lem}
use adb_remote.Protocol.Payload.{set_raw_payload}

pub set_raw_payload_lem :
    (m : TransporterMessage) (bs : List ℕ)
    → length m.payload_buffer ≡ 61440
    → length bs ≤ 61440
    → set_raw_payload bs m ≡ (stored m bs (drop (length bs) m.payload_buffer), ok tt)
unfolding set_raw_payload
set_raw_payload_lem m bs e h = ground (
  arith,
  store_lem m [] m.payload_buffer bs 0 (length bs) refl (omega arith),
  update_payload_metadata_lem m bs (drop (length bs) m.payload_buffer),
)

pub set_raw_payload_full :
    (m : TransporterMessage) (bs : List ℕ)
    → length m.payload_buffer ≡ 61440
    → 61440 < length bs
    → length bs < 4294967296
    → set_raw_payload bs m ≡ (m, err (not_enough_space 61440 (length bs)))
unfolding set_raw_payload
set_raw_payload_full m bs e h w = ground arith
