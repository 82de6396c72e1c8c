-- ===== src/Client/OwnerController/Decisions.antt =====
-- How the owner of a room answers a join request in client/controller/ownerController.go.
use adb_remote.Prelude.{
  ℕ, ◌+◌, ◌≤◌, ◌≡◌, refl, Bool, true, false, List, [], ◌∷◌, length, if◌then◌else◌, Error, ascii,
  Result, ok, err, arith,
}
use adb_remote.Protocol.Fields.Sequence.{Field, encode}
use adb_remote.Protocol.Message.{set_response_command, set_error_response_command}
use adb_remote.Protocol.Payload.{
  PayloadError, PayloadConnectRoomResult, set_payload_connect_room_result, set_error_payload,
}
use adb_remote.Protocol.Payload.Stores.{
  fields_error, fields_connect_room_result, set_payload_connect_room_result-Sets,
  set_error_payload-Sets,
}
use adb_remote.Protocol.Wire.Frames.{after_write}
use adb_remote.Transporter.Connection.Sending.{AllMessages}
use adb_remote.Client.Transport.{send_join_room_response, send_error}
use adb_remote.Client.Controller.Answers.{send_typed}
use adb_remote.Client.OwnerEvent.{OwnerEvent, join_decided, join_failed}
use adb_remote.Client.OwnerController.{OwnerSession, handle_join_request, report_decision}

abbrev pub flag : Bool → ℕ
flag accepted = if accepted then 1 else 0

abbrev pub answer : List ℕ → Bool → PayloadConnectRoomResult
answer key accepted = record { accepted = flag accepted; client_id = []; public_key = key }

pub flag-word : (accepted : Bool) → flag accepted ≤ 1
flag-word true = omega arith
flag-word false = omega arith

-- One message was written and one event reported, and the handler returned.
abbrev pub Sends :
    OwnerSession → ℕ → List Field → OwnerEvent → OwnerSession × Result (Unit {0}) → Type 0
Sends s c fs event (s', r) =
    (r ≡ ok tt)
    × (s'.events ≡ event ∷ s.events)
    × (s'.client.writer ≡ after_write c (encode [] fs) s.client.writer)

decision_sent :
    (own_key guest key : List ℕ) (accepted : Bool) (s : OwnerSession)
    → AllMessages s.client.pool
    → 12 + length own_key ≤ 61440
    → 24 + length own_key ≤ s.client.writer.room
    → Sends s 0x1004
        (fields_connect_room_result (answer own_key accepted))
        (join_decided guest key accepted)
        (handle_join_request own_key (ok accepted) guest key s)
unfolding handle_join_request report_decision send_join_room_response set_response_command
decision_sent own_key guest key accepted s all small room =
    let p = answer own_key accepted in
    let bit = flag-word accepted in
    let (_, _, sent) =
      send_typed 0x1004 (set_payload_connect_room_result p) (fields_connect_room_result p) s.client
        (set_payload_connect_room_result-Sets p) all
        (omega (arith, bit), (omega arith, (omega arith, tt))) (omega arith) (omega arith) in
    rw sent (refl, refl, refl)

abbrev pub failure : PayloadError
failure = record {
  error_code = 1;
  error_message = ascii "Client side error, connection will be closed";
}

error_sent :
    (own_key guest key : List ℕ) (e : Error) (s : OwnerSession)
    → AllMessages s.client.pool
    → 64 ≤ s.client.writer.room
    → Sends s 0x2004
        (fields_error failure)
        (join_failed guest e)
        (handle_join_request own_key (err e) guest key s)
unfolding handle_join_request send_error set_error_response_command
error_sent own_key guest key e s all room =
    let (_, _, sent) =
      send_typed 0x2004 (set_error_payload failure) (fields_error failure) s.client
        (set_error_payload-Sets failure) all (omega arith, (omega arith, tt)) (omega arith)
        (omega arith) in
    rw sent (refl, refl, refl)

-- What a join request comes to, if the connection takes the answer: for a decision, the response with the flag
-- and the owner's key is written and the decision reported; for an error of the prompt,
-- the error message is written and the failure reported.
pub join_request_answered :
    (own_key guest key : List ℕ) (s : OwnerSession)
    → AllMessages s.client.pool
    → 12 + length own_key ≤ 61440
    → 64 + length own_key ≤ s.client.writer.room
    → ((accepted : Bool)
        → Sends s 0x1004
            (fields_connect_room_result (answer own_key accepted))
            (join_decided guest key accepted)
            (handle_join_request own_key (ok accepted) guest key s))
      × ((e : Error)
          → Sends s 0x2004
              (fields_error failure)
              (join_failed guest e)
              (handle_join_request own_key (err e) guest key s))
join_request_answered own_key guest key s all small room = (
  λ accepted. decision_sent own_key guest key accepted s all small (omega arith),
  λ e. error_sent own_key guest key e s all (omega arith),
)
