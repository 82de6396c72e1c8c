-- ===== src/Client/OwnerController.antt =====
-- client/controller/ownerController.go: the session of a room's owner, over the client of
-- client/transportLayer and the multiplexer of client/relay. What the multiplexer asks of the client is in its
-- own trace. `requests` are the join requests that a goroutine decides, the latest first, and what the
-- operator decided is a parameter of `handle_join_request`.
pub mod Decisions
use Prim.Native.Nat.{bit_or}
use adb_remote.Prelude.{
  ℕ, Bool, true, false, List, [], ◌∷◌, ◌==◌, if◌then◌else◌, Option, none, some, Error,
  transport_closed, other, ascii, Result, ok, err, panic, M,
}
use adb_remote.Protocol.Constants.{
  command_join_room, command_adb_transport, command_guest_left, error_invalid_payload,
  error_unknown,
}
use adb_remote.Protocol.Message.{TransporterMessage, command, payload}
use adb_remote.Protocol.Payload.{PayloadConnectRoom, get_payload_connect_room}
use adb_remote.Pool.{contents_of}
use adb_remote.Client.AdbMessage.{AdbMessage, decode_message}
use adb_remote.Client.Multiplexer.{
  OwnerMultiplexer, new_owner_multiplexer, dispatch, close_all_streams,
}
use adb_remote.Client.Transport.{Client, dispose_message, send_error, send_join_room_response}
use adb_remote.Client.Controller.{create_room}
use adb_remote.Client.OwnerEvent.{
  OwnerEvent, room_created, join_requested, join_decided, join_failed, guest_left,
}

pub record OwnerSession : Type 0 where
  pub client : Client
  pub multiplexer : OwnerMultiplexer
  pub events : List OwnerEvent
  pub requests : List (List ℕ × List ℕ)

abbrev pub emit_owner : OwnerEvent → OwnerSession → OwnerSession
emit_owner e s = record s { events = e ∷ s.events }

-- A failure that is only logged.
abbrev pub logged : OwnerSession → Client × Result (Unit {0}) → OwnerSession × Result (Unit {0})
logged s (c, ok _) = (record s { client = c }, ok tt)
logged s (c, err _) = (record s { client = c }, ok tt)
logged s (c, panic) = (record s { client = c }, panic)

abbrev pub attempt : M Client (Unit {0}) → M OwnerSession (Unit {0})
attempt m s = logged s (m s.client)

-- What is returned is disposed of first.
abbrev pub disposing : ℕ → OwnerSession × Result (Unit {0}) → OwnerSession × Result (Unit {0})
disposing r (s, res) = (record s { client = (dispose_message r (s.client, tt)).0 }, res)

unfoldable pub request_read : Result PayloadConnectRoom → M OwnerSession (Unit {0})
unfolding send_error
request_read (ok p) s = (
  record s {
    events = join_requested p.client_id p.public_key ∷ s.events;
    requests = (p.client_id, p.public_key) ∷ s.requests;
  },
  ok tt,
)
request_read (err e) s =
    attempt
      (send_error command_join_room error_invalid_payload
        (ascii "Invalid join room request payload"))
      s
request_read panic s = (s, panic)

module _ (fails : ℕ → Bool) where
  unfoldable pub dispatch_decoded : Result AdbMessage → M OwnerSession (Unit {0})
  unfolding dispatch
  dispatch_decoded (ok a) s =
      let (mx, fine) = dispatch fails a s.multiplexer in
      (record s { multiplexer = mx }, if fine then ok tt else panic)
  dispatch_decoded (err e) s = (s, ok tt)
  dispatch_decoded panic s = (s, panic)

  unfoldable pub dispatch_payload : Result (List ℕ) → M OwnerSession (Unit {0})
  unfolding dispatch_decoded
  dispatch_payload (ok bs) s = dispatch_decoded (decode_message bs) s
  dispatch_payload (err e) s = (s, ok tt)
  dispatch_payload panic s = (s, panic)

  unfoldable pub route_message : TransporterMessage → M OwnerSession (Unit {0})
  unfolding dispatch_payload request_read close_all_streams
  route_message m s =
      if command m == command_adb_transport
      then dispatch_payload (payload m) s
      else if command m == command_join_room
      then request_read (get_payload_connect_room m).1 s
      else if command m == command_guest_left
      then (
        emit_owner guest_left (record s { multiplexer = close_all_streams fails s.multiplexer }),
        ok tt,
      )
      else (s, ok tt)

  unfoldable pub dispatch_owner_message : ℕ → M OwnerSession (Unit {0})
  unfolding contents_of dispose_message route_message
  dispatch_owner_message r s = elim (contents_of r s.client.pool) [
    | ok m ↦ disposing r (route_message m s)
    | err e ↦ disposing r (s, ok tt)
    | panic ↦ (s, panic)
  ]

-- What was told to the guest, if it could be sent.
unfoldable pub report_decision :
    List ℕ → List ℕ → Bool → OwnerSession × Result (Unit {0}) → OwnerSession × Result (Unit {0})
report_decision guest key accepted (s, ok _) =
    (emit_owner (join_decided guest key accepted) s, ok tt)
report_decision guest key accepted (s, err e) = (emit_owner (join_failed guest e) s, ok tt)
report_decision guest key accepted (s, panic) = (s, panic)

unfoldable pub handle_join_request :
    List ℕ → Result Bool → List ℕ → List ℕ → M OwnerSession (Unit {0})
unfolding report_decision
handle_join_request own_key (ok accepted) guest key s =
    let (c, r) = send_join_room_response (if accepted then 1 else 0) own_key s.client in
    report_decision guest key accepted (record s { client = c }, r)
handle_join_request own_key (err e) guest key s =
    attempt
      (send_error command_join_room error_unknown
        (ascii "Client side error, connection will be closed"))
      (emit_owner (join_failed guest e) s)
handle_join_request own_key panic guest key s = (s, panic)

-- What the loop's select returned.
pub data OwnerWait : Type 0 where
  cancelled channel_closed : OwnerWait
  message_received : ℕ → OwnerWait

-- The session, and how it ended: an error to return, or a panic; it still waits if neither is there.
unfoldable pub owner_loop :
    (ℕ → Bool) → List OwnerWait → OwnerSession → OwnerSession × Option (Result (Unit {0}))
unfolding dispatch_owner_message
owner_loop fails [] s = (s, none)
owner_loop fails (cancelled ∷ ws) s = (s, some (err (other (ascii "context canceled"))))
owner_loop fails (channel_closed ∷ ws) s = (s, some (err transport_closed))
owner_loop fails (message_received r ∷ ws) s =
    let (s', res) = dispatch_owner_message fails r s in
    let rest = owner_loop fails ws s' in
    elim res [ ok _ ↦ rest | err e ↦ rest | panic ↦ (s', some panic) ]

-- The deferred `multiplexer.Close()`, which a panic runs too.
unfoldable pub when_over :
    (ℕ → Bool)
    → OwnerSession × Option (Result (Unit {0}))
    → OwnerSession × Option (Result (Unit {0}))
unfolding close_all_streams
when_over fails (s, none) = (s, none)
when_over fails (s, some r) =
    (record s { multiplexer = close_all_streams fails s.multiplexer }, some r)

unfoldable pub join_as_room_owner :
    (ℕ → Bool) → List OwnerWait → OwnerSession → OwnerSession × Option (Result (Unit {0}))
unfolding create_room owner_loop when_over
join_as_room_owner fails waits s = elim (create_room s.client).1 [
  | ok id ↦ when_over fails (
      owner_loop fails waits (
        emit_owner (room_created id)
          (record s { client = (create_room s.client).0; multiplexer = new_owner_multiplexer })))
  | err e ↦ (record s { client = (create_room s.client).0 }, some (err e))
  | panic ↦ (record s { client = (create_room s.client).0 }, some panic)
]
