-- ===== src/Client/Controller.antt =====
-- client/controller/baseController.go, events.go and guestController.go: the handshake, and a guest's
-- session, and `createRoom` of ownerController.go. The client's reader hands over one message at a time, so a receive from `Messages` is a round of
-- the reader; when the reader stops, the channel is closed. `events` is what `onEvent` got, the latest first.
pub mod Answers
pub mod Meeting
pub mod Cleanup
use Prim.Native.Nat.{bit_or}
use adb_remote.Prelude.{
  ℕ, ◌+◌, Bool, true, false, not, List, [], ◌∷◌, ◌==◌, if◌then◌else◌, Option, none, some, Error,
  remote_error, transport_closed, join_room_denied, other, ascii, Result, ok, err, panic, M, bind,
  pure, fail, lift, ◌>>=◌, ◌>>◌,
}
use adb_remote.Protocol.Constants.{
  command_connect, command_create_room, command_join_room, command_adb_transport,
  command_guest_left, command_response_mask, error_invalid_payload, error_unknown,
}
use adb_remote.Protocol.Message.{TransporterMessage, command, is_error, expect_command}
use adb_remote.Protocol.Payload.{
  PayloadError, PayloadConnectResponse, PayloadCreateRoomResponse, PayloadConnectRoom,
  PayloadConnectRoomResult, get_error_payload, get_payload_connect_response,
  get_payload_create_room_response, get_payload_connect_room, get_payload_connect_room_response,
}
use adb_remote.Pool.{contents_of}
use adb_remote.Client.Transport.{
  Client, dispose_message, read_round, send_error, send_connect, send_create_room, send_join_room,
  send_join_room_response,
}

abbrev pub or_closed : {S A : Type 0} → S × Result A → S × Result A
or_closed (c, ok a) = (c, ok a)
or_closed (c, err e) = (c, err transport_closed)
or_closed (c, panic) = (c, panic)

-- `<-client.Messages()`, which is `ErrTransportClosed` once the channel is closed.
unfoldable pub next_message : M Client ℕ
unfolding read_round
next_message c = or_closed (read_round false c)

-- What is read from the message of container `r`, which is disposed in any case.
unfoldable pub with_answer : {A : Type 0} → (TransporterMessage → Result A) → ℕ → M Client A
unfolding contents_of dispose_message
with_answer use_message r c = elim (contents_of r c.pool) [
  | ok m ↦ dispose_message r (c, use_message m)
  | err e ↦ dispose_message r (c, err e)
  | panic ↦ dispose_message r (c, panic)
]

abbrev pub map_result : {A B : Type 0} → (A → B) → Result A → Result B
map_result f (ok a) = ok (f a)
map_result f (err e) = err e
map_result f panic = panic

-- The error that an error message reports.
abbrev pub reported : {A : Type 0} → Result PayloadError → Result A
reported (ok p) = err (remote_error p.error_code p.error_message)
reported (err e) = err e
reported panic = panic

unfoldable pub read_connect_response : TransporterMessage → Result (List ℕ)
read_connect_response m =
    if is_error m
    then reported (get_error_payload m).1
    else map_result (λ (p : PayloadConnectResponse). p.client_id) (get_payload_connect_response m).1

unfoldable pub handshake : M Client (List ℕ)
unfolding next_message with_answer read_connect_response
handshake = do u ← send_connect; r ← next_message; with_answer read_connect_response r

-- What `ExpectCommand` lets through.
abbrev pub expecting : {A : Type 0} → Result (Unit {0}) → Result A → Result A
expecting (ok _) r = r
expecting (err e) r = err e
expecting panic r = panic

unfoldable pub read_create_room_response : TransporterMessage → Result (List ℕ)
read_create_room_response m =
    if is_error m
    then reported (get_error_payload m).1
    else expecting (expect_command m (bit_or command_create_room command_response_mask)) (
        map_result (λ (p : PayloadCreateRoomResponse). p.room_id)
          (get_payload_create_room_response m).1)

unfoldable pub create_room : M Client (List ℕ)
unfolding next_message with_answer read_create_room_response
create_room = do u ← send_create_room; r ← next_message; with_answer read_create_room_response r

unfoldable pub read_join_response : TransporterMessage → Result PayloadConnectRoomResult
read_join_response m =
    if is_error m
    then reported (get_error_payload m).1
    else expecting (expect_command m (bit_or command_join_room command_response_mask))
        (get_payload_connect_room_response m).1

pub data GuestEvent : Type 0 where
  join_decided : Bool → List ℕ → List ℕ → GuestEvent
  proxy_ready : List ℕ → GuestEvent
  local_adb_connected adb_connected transport_lost : GuestEvent
  adb_connect_failed : Error → GuestEvent
  relay_stopped : Error → GuestEvent

-- The client with what a guest's session has reported and done: how often it issued "adb disconnect" and
-- stopped the proxy.
pub record GuestSession : Type 0 where
  pub client : Client
  pub events : List GuestEvent
  pub disconnects : ℕ
  pub proxy_stops : ℕ

abbrev pub emit : GuestEvent → GuestSession → GuestSession
emit e s = record s { events = e ∷ s.events }

abbrev pub on_client : {A : Type 0} → M Client A → M GuestSession A
on_client m s = let (c, r) = m s.client in (record s { client = c }, r)

unfoldable pub decide_join : PayloadConnectRoomResult → M GuestSession (Unit {0})
decide_join p s =
    let accepted = not (p.accepted == 0) in
    (
      emit (join_decided accepted p.client_id p.public_key) s,
      if accepted then ok tt else err join_room_denied,
    )

unfoldable pub room_join_step : List ℕ → List ℕ → M GuestSession (Unit {0})
unfolding next_message with_answer read_join_response decide_join
room_join_step room_id key = do
  u ← on_client (send_join_room room_id key)
  r ← on_client next_message
  p ← on_client (with_answer read_join_response r)
  decide_join p

-- What ends a wait of the guest's loop: the context is cancelled, a message or the closing of the channel, or
-- a local connection with the error that its relay ended with.
pub data GuestWait : Type 0 where
  cancelled channel_closed : GuestWait
  message_received : ℕ → GuestWait
  local_connection : Error → GuestWait

abbrev pub is_transport_closed : Error → Bool
is_transport_closed transport_closed = true
is_transport_closed _ = false

-- One round of the loop: the session, and the error to return, if the loop ends.
unfoldable pub guest_round : GuestWait → GuestSession → GuestSession × Option Error
unfolding dispose_message
guest_round cancelled s = (s, some (other (ascii "context canceled")))
guest_round channel_closed s = (emit transport_lost s, some transport_closed)
guest_round (message_received r) s =
    (record s { client = (dispose_message r (s.client, tt)).0 }, none)
guest_round (local_connection e) s =
    let s' = emit (relay_stopped e) (emit local_adb_connected s) in
    if is_transport_closed e then (emit transport_lost s', some e) else (s', none)

-- The loop over what it meets; it still waits when there is nothing more.
unfoldable pub guest_loop : List GuestWait → GuestSession → GuestSession × Option Error
unfolding guest_round
guest_loop [] s = (s, none)
guest_loop (w ∷ ws) s =
    let (s', ended) = guest_round w s in
    let rest = guest_loop ws s' in elim ended [ none ↦ rest | some e ↦ (s', some e) ]

abbrev pub when_ended :
    (GuestSession → GuestSession) → GuestSession × Option Error → GuestSession × Option Error
when_ended f (s, none) = (s, none)
when_ended f (s, some e) = (f s, some e)

abbrev pub disconnect_adb : GuestSession → GuestSession
disconnect_adb s = record s { disconnects = s.disconnects + 1 }

abbrev pub stop_proxy : GuestSession → GuestSession
stop_proxy s = record s { proxy_stops = s.proxy_stops + 1 }

-- Behind the start of the proxy: "adb connect", the loop, and the deferred calls.
unfoldable pub serve_guest :
    List ℕ → Result (Unit {0}) → List GuestWait → GuestSession → GuestSession × Option Error
unfolding guest_loop
serve_guest port (ok _) waits s =
    when_ended stop_proxy (
      when_ended disconnect_adb (guest_loop waits (emit adb_connected (emit (proxy_ready port) s))))
serve_guest port (err e) waits s =
    when_ended stop_proxy
      (guest_loop waits (emit (adb_connect_failed e) (emit (proxy_ready port) s)))
serve_guest port panic waits s = (stop_proxy s, none)

unfoldable pub start_proxy :
    List ℕ
    → Result (Unit {0})
    → Result (Unit {0})
    → List GuestWait
    → GuestSession
    → GuestSession × Option Error
unfolding serve_guest
start_proxy port (ok _) connected waits s = serve_guest port connected waits s
start_proxy port (err e) connected waits s = (s, some e)
start_proxy port panic connected waits s = (s, none)

abbrev pub after_join :
    GuestSession × Result (Unit {0})
    → (GuestSession → GuestSession × Option Error)
    → GuestSession × Option Error
after_join (s, ok _) f = f s
after_join (s, err e) f = (s, some e)
after_join (s, panic) f = (s, none)

-- `JoinAsGuest`, with the outcomes of `proxy.Start` and of `smartSocket.Connect`.
unfoldable pub join_as_guest :
    List ℕ
    → List ℕ
    → List ℕ
    → Result (Unit {0})
    → Result (Unit {0})
    → List GuestWait
    → GuestSession
    → GuestSession × Option Error
unfolding room_join_step start_proxy
join_as_guest room_id key port started connected waits s =
    after_join (room_join_step room_id key s) (start_proxy port started connected waits)
