-- ===== src/Protocol/Fields.antt =====
-- shared/protocol/payload.definition.go: the fields of a payload, `writeInt` to
-- `updatePayloadMetadata`. Strings are lists of bytes. An offset is a uint32 and wraps. The `int`
-- values that the source writes are error codes and flags, none of them negative.
pub mod Laws
pub mod Safety
pub mod Sequence
use adb_remote.Prelude.{
  ℕ, ◌+◌, ◌-◌, List, ltb, length, take, u32, put_uint32, uint32, not_enough_space, not_enough_data,
  string_too_long, M, pure, get_state, put_state, lift, ◌>>=◌, ◌>>◌, reject_if, slice, overwrite,
}
use adb_remote.Protocol.Crc.{checksum_ieee}
use adb_remote.Protocol.Message.{TransporterMessage, payload_length}

-- A store of `bs` in `payloadBuffer[lo:hi]`.
unfoldable pub store : ℕ → ℕ → List ℕ → M TransporterMessage (Unit {0})
unfolding slice overwrite
store lo hi bs = do
  m ← get_state
  target ← lift (slice lo hi m.payload_buffer)
  put_state (record m { payload_buffer = overwrite lo (take (length target) bs) m.payload_buffer })

unfoldable pub write_int : ℕ → ℕ → M TransporterMessage ℕ
write_int offset value = do
  m ← get_state
  let new_offset = u32 (offset + 4)
  reject_if (ltb (u32 (length m.payload_buffer)) new_offset)
      (not_enough_space (length m.payload_buffer) new_offset)
  store offset new_offset (put_uint32 (u32 value))
  pure new_offset

unfoldable pub write_string : ℕ → List ℕ → M TransporterMessage ℕ
write_string offset value = do
  m ← get_state
  let data_offset = u32 (offset + 4)
  let new_offset = u32 (data_offset + u32 (length value))
  reject_if (ltb (u32 (length m.payload_buffer)) new_offset)
      (not_enough_space (length m.payload_buffer) new_offset)
  store offset data_offset (put_uint32 (u32 (length value)))
  store data_offset new_offset value
  pure new_offset

unfoldable pub read_int : ℕ → M TransporterMessage (ℕ × ℕ)
unfolding slice
read_int offset = do
  m ← get_state
  let new_offset = u32 (offset + 4)
  reject_if (ltb (payload_length m) new_offset) (not_enough_data (payload_length m) new_offset)
  value ← lift (slice offset new_offset m.payload_buffer)
  pure (new_offset, uint32 value)

unfoldable pub read_string : ℕ → M TransporterMessage (ℕ × List ℕ)
unfolding slice
read_string offset = do
  m ← get_state
  let data_offset = u32 (offset + 4)
  reject_if (ltb (payload_length m) data_offset) (not_enough_data (payload_length m) data_offset)
  size ← lift (slice offset data_offset m.payload_buffer)
  let remaining = payload_length m - data_offset
  reject_if (ltb remaining (uint32 size)) (string_too_long (uint32 size) remaining)
  let new_offset = u32 (data_offset + uint32 size)
  value ← lift (slice data_offset new_offset m.payload_buffer)
  pure (new_offset, value)

unfoldable pub update_payload_metadata : ℕ → M TransporterMessage (Unit {0})
unfolding slice
update_payload_metadata n = do
  m ← get_state
  target ← lift (slice 0 n m.payload_buffer)
  put_state (record m {
    payload_length_buffer = put_uint32 n;
    payload_crc32_buffer = put_uint32 (checksum_ieee target);
  })
