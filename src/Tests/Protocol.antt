-- ===== src/Tests/Protocol.antt =====
-- The wire protocol at concrete messages.
use adb_remote.Prelude.{
  ◌≡◌, [], ◌∷◌, ◌++◌, uint32, ok, err, put_uint32, payload_too_large, ascii, arith,
}
use adb_remote.Protocol.Message.{
  TransporterMessage, create_transporter_message, read, payload_length,
}
use adb_remote.Protocol.Payload.{
  PayloadError, PayloadConnectRoom, PayloadConnectRoomResult, get_payload_connect_room,
  set_payload_connect_room,
}
use adb_remote.Protocol.Payload.Loads.{gets-Unharmed}
use adb_remote.Protocol.Fields.Safety.{Fits, Unharmed}
use adb_remote.Protocol.Wire.Read.{IsMessage, create_transporter_message-IsMessage}
use adb_remote.Protocol.Wire.Safety.{ReadSafely, read-ReadSafely, read_oversized}
use adb_remote.Protocol.Exchange.{exchange, exchange_connect_room}

abbrev fresh : TransporterMessage
fresh = create_transporter_message

abbrev valid : IsMessage fresh
valid = create_transporter_message-IsMessage

abbrev request : PayloadConnectRoom
request = record { room_id = ascii "QNZQ5630"; client_id = []; public_key = 7 ∷ 8 ∷ [] }

abbrev decision : PayloadConnectRoomResult
decision = record { accepted = 1; client_id = ascii "MVJK1457"; public_key = 9 ∷ [] }

abbrev refusal : PayloadError
refusal = record { error_code = 4; error_message = ascii "full" }

exchange_connect_room_example :
    exchange (set_payload_connect_room request) get_payload_connect_room 4 fresh fresh
    ≡ ok (4, request)
exchange_connect_room_example =
    exchange_connect_room 4 fresh fresh (omega arith) valid valid request (omega arith)

fresh-Fits : Fits fresh
unfolding create_transporter_message uint32
fresh-Fits = record { buffer_size = valid.buffer_size; within = omega arith }

gets-Unharmed_example : Unharmed fresh (get_payload_connect_room fresh)
gets-Unharmed_example = (gets-Unharmed fresh fresh-Fits).4

read-ReadSafely_example : ReadSafely (read (record { message = fresh; input = 1 ∷ 2 ∷ 3 ∷ [] }))
read-ReadSafely_example = read-ReadSafely fresh (1 ∷ 2 ∷ 3 ∷ []) valid

read_oversized_example :
    (m' : TransporterMessage) × (read (record {
      message = fresh;
      input = put_uint32 6 ++ put_uint32 4294967295 ++ put_uint32 0 ++ [];
    })
      ≡ (record { message = m'; input = [] }, err payload_too_large))
    × (payload_length m' ≡ 4294967295)
    × IsMessage m'
read_oversized_example = read_oversized fresh 6 4294967295 0 [] valid (omega arith) (omega arith)
