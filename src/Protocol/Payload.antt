-- ===== src/Protocol/Payload.antt =====
-- shared/protocol/payload.definition.go: the typed payloads, each with its `Set` and its `Get`.
pub mod Stores
pub mod Loads
pub mod Raw
use adb_remote.Prelude.{
  ℕ, min, List, ltb, length, u32, not_enough_space, M, pure, get_state, ◌>>=◌, ◌>>◌, reject_if,
}
use adb_remote.Protocol.Message.{TransporterMessage}
use adb_remote.Protocol.Fields.{
  store, write_int, write_string, read_int, read_string, update_payload_metadata,
}

pub record PayloadError : Type 0 where
  pub error_code : ℕ
  pub error_message : List ℕ

pub record PayloadConnect : Type 0 where
  pub protocol_version : ℕ

pub record PayloadConnectResponse : Type 0 where
  pub client_id : List ℕ

pub record PayloadCreateRoomResponse : Type 0 where
  pub room_id : List ℕ

pub record PayloadConnectRoom : Type 0 where
  pub room_id : List ℕ
  pub client_id : List ℕ
  pub public_key : List ℕ

pub record PayloadConnectRoomResult : Type 0 where
  pub accepted : ℕ
  pub client_id : List ℕ
  pub public_key : List ℕ

unfoldable pub get_error_payload : M TransporterMessage PayloadError
get_error_payload = do
  (offset, code) ← read_int 0
  (_, text) ← read_string offset
  pure (record { error_code = code; error_message = text })

unfoldable pub set_error_payload : PayloadError → M TransporterMessage (Unit {0})
set_error_payload p = do
  offset ← write_int 0 p.error_code
  len ← write_string offset p.error_message
  update_payload_metadata len

unfoldable pub get_payload_connect : M TransporterMessage PayloadConnect
get_payload_connect = do (_, version) ← read_int 0; pure (record { protocol_version = u32 version })

unfoldable pub set_payload_connect : PayloadConnect → M TransporterMessage (Unit {0})
set_payload_connect p = do len ← write_int 0 p.protocol_version; update_payload_metadata len

unfoldable pub get_payload_connect_response : M TransporterMessage PayloadConnectResponse
get_payload_connect_response = do (_, id) ← read_string 0; pure (record { client_id = id })

unfoldable pub set_payload_connect_response :
    PayloadConnectResponse → M TransporterMessage (Unit {0})
set_payload_connect_response p = do len ← write_string 0 p.client_id; update_payload_metadata len

unfoldable pub get_payload_create_room_response : M TransporterMessage PayloadCreateRoomResponse
get_payload_create_room_response = do (_, id) ← read_string 0; pure (record { room_id = id })

unfoldable pub set_payload_create_room_response :
    PayloadCreateRoomResponse → M TransporterMessage (Unit {0})
set_payload_create_room_response p = do len ← write_string 0 p.room_id; update_payload_metadata len

unfoldable pub get_payload_connect_room : M TransporterMessage PayloadConnectRoom
get_payload_connect_room = do
  (offset, room) ← read_string 0
  (offset', client) ← read_string offset
  (_, key) ← read_string offset'
  pure (record { room_id = room; client_id = client; public_key = key })

unfoldable pub set_payload_connect_room : PayloadConnectRoom → M TransporterMessage (Unit {0})
set_payload_connect_room p = do
  offset ← write_string 0 p.room_id
  offset' ← write_string offset p.client_id
  len ← write_string offset' p.public_key
  update_payload_metadata len

unfoldable pub get_payload_connect_room_response : M TransporterMessage PayloadConnectRoomResult
get_payload_connect_room_response = do
  (offset, flag) ← read_int 0
  (offset', client) ← read_string offset
  (_, key) ← read_string offset'
  pure (record { accepted = flag; client_id = client; public_key = key })

unfoldable pub set_payload_connect_room_result :
    PayloadConnectRoomResult → M TransporterMessage (Unit {0})
set_payload_connect_room_result p = do
  offset ← write_int 0 p.accepted
  offset' ← write_string offset p.client_id
  len ← write_string offset' p.public_key
  update_payload_metadata len

unfoldable pub set_raw_payload : List ℕ → M TransporterMessage (Unit {0})
unfolding store
set_raw_payload bs = do
  m ← get_state
  reject_if (ltb (u32 (length m.payload_buffer)) (u32 (length bs)))
      (not_enough_space (length m.payload_buffer) (length bs))
  store 0 (min (length bs) (length m.payload_buffer)) bs
  update_payload_metadata (u32 (length bs))
