-- ===== src/Protocol/Payload/Stores.antt =====
-- Each `Set` of payload.definition.go stores the fields of its payload.
use adb_remote.Prelude.{List, [], ◌∷◌, bind_assoc}
use adb_remote.Protocol.Fields.Sequence.{Field, int, text, Sets, Sets-cong, write_payload-Sets}
use adb_remote.Protocol.Payload.{
  PayloadError, PayloadConnect, PayloadConnectResponse, PayloadCreateRoomResponse,
  PayloadConnectRoom, PayloadConnectRoomResult, set_error_payload, set_payload_connect,
  set_payload_connect_response, set_payload_create_room_response, set_payload_connect_room,
  set_payload_connect_room_result,
}

abbrev pub fields_error : PayloadError → List Field
fields_error p = int p.error_code ∷ text p.error_message ∷ []

abbrev pub fields_connect : PayloadConnect → List Field
fields_connect p = int p.protocol_version ∷ []

abbrev pub fields_connect_response : PayloadConnectResponse → List Field
fields_connect_response p = text p.client_id ∷ []

abbrev pub fields_create_room_response : PayloadCreateRoomResponse → List Field
fields_create_room_response p = text p.room_id ∷ []

abbrev pub fields_connect_room : PayloadConnectRoom → List Field
fields_connect_room p = text p.room_id ∷ text p.client_id ∷ text p.public_key ∷ []

abbrev pub fields_connect_room_result : PayloadConnectRoomResult → List Field
fields_connect_room_result p = int p.accepted ∷ text p.client_id ∷ text p.public_key ∷ []

pub set_error_payload-Sets : (p : PayloadError) → Sets (set_error_payload p) (fields_error p)
unfolding set_error_payload
set_error_payload-Sets p =
    Sets-cong (set_error_payload p) _ (fields_error p) (λ m. simp bind_assoc)
      (write_payload-Sets (fields_error p))

pub set_payload_connect-Sets :
    (p : PayloadConnect) → Sets (set_payload_connect p) (fields_connect p)
unfolding set_payload_connect
set_payload_connect-Sets p =
    Sets-cong (set_payload_connect p) _ (fields_connect p) (λ m. simp bind_assoc)
      (write_payload-Sets (fields_connect p))

pub set_payload_connect_response-Sets :
    (p : PayloadConnectResponse) → Sets (set_payload_connect_response p) (fields_connect_response p)
unfolding set_payload_connect_response
set_payload_connect_response-Sets p =
    Sets-cong (set_payload_connect_response p) _ (fields_connect_response p) (λ m. simp bind_assoc)
      (write_payload-Sets (fields_connect_response p))

pub set_payload_create_room_response-Sets :
    (p : PayloadCreateRoomResponse)
    → Sets (set_payload_create_room_response p) (fields_create_room_response p)
unfolding set_payload_create_room_response
set_payload_create_room_response-Sets p =
    Sets-cong (set_payload_create_room_response p) _ (fields_create_room_response p)
      (λ m. simp bind_assoc) (write_payload-Sets (fields_create_room_response p))

pub set_payload_connect_room-Sets :
    (p : PayloadConnectRoom) → Sets (set_payload_connect_room p) (fields_connect_room p)
unfolding set_payload_connect_room
set_payload_connect_room-Sets p =
    Sets-cong (set_payload_connect_room p) _ (fields_connect_room p) (λ m. simp bind_assoc)
      (write_payload-Sets (fields_connect_room p))

pub set_payload_connect_room_result-Sets :
    (p : PayloadConnectRoomResult)
    → Sets (set_payload_connect_room_result p) (fields_connect_room_result p)
unfolding set_payload_connect_room_result
set_payload_connect_room_result-Sets p =
    Sets-cong (set_payload_connect_room_result p) _ (fields_connect_room_result p)
      (λ m. simp bind_assoc) (write_payload-Sets (fields_connect_room_result p))
