-- ===== src/Client/Controller/Meeting.antt =====
-- The handshake and the join of client/controller, against what the transporter answers.
use adb_remote.Prelude.{
  ℕ, ◌+◌, ◌≤◌, ◌<◌, ◌≡◌, refl, ap, ◌∙◌, true, not, List, [], ◌∷◌, ◌++◌, length, ok, err, arith,
  uint32-put, ◌==◌, if◌then◌else◌, put_uint32, append-nil, join_room_denied, Result, M, bind, ◌>>=◌,
  bind_assoc, panic,
}
use adb_remote.Protocol.Message.{command, is_error, expect_command}
use adb_remote.Protocol.Fields.Sequence.{encode, length-encode}
use adb_remote.Protocol.Payload.{
  PayloadConnect, PayloadConnectResponse, PayloadConnectRoom, PayloadConnectRoomResult,
  set_payload_connect, set_payload_connect_room,
}
use adb_remote.Protocol.Payload.Stores.{
  fields_connect, fields_connect_response, fields_connect_room, fields_connect_room_result,
  set_payload_connect-Sets, set_payload_connect_room-Sets,
}
use adb_remote.Protocol.Payload.Loads.{
  get_payload_connect_response-Gets, get_payload_connect_room_response-Gets,
}
use adb_remote.Protocol.Wire.Frames.{framed, wire, after_write}
use adb_remote.Transporter.Connection.{Connection}
use adb_remote.Transporter.Connection.Sending.{AllMessages}
use adb_remote.Transporter.Connection.Handshake.{perform_handshake}
use adb_remote.Transporter.Connection.Handshake.Answers.{handshake_accepted}
use adb_remote.Client.Transport.{Client, send_connect, send_join_room}
use adb_remote.Client.Controller.{
  GuestSession, join_decided, read_connect_response, read_join_response, handshake, decide_join,
  room_join_step, on_client, next_message, with_answer,
}
use adb_remote.Client.Controller.Answers.{framed-Holds, send_typed, request, request_lem}

command-framed : (c : ℕ) (bs rest : List ℕ) → c < 4294967296 → command (framed c bs rest) ≡ c
command-framed c bs rest h = uint32-put c h

reads_connect :
    (id rest : List ℕ)
    → 4 + length id ≤ 61440
    → let bs = encode [] (fields_connect_response (record { client_id = id })) in
      read_connect_response (framed 0x1001 bs rest) ≡ ok id
unfolding read_connect_response is_error
reads_connect id rest fits =
    let answer : PayloadConnectResponse = record { client_id = id } in
    let fs = fields_connect_response answer in
    let bs = encode [] fs in
    let held = framed-Holds 0x1001 bs rest (omega (arith, length-encode [] fs)) in
    rw
      (
        command-framed 0x1001 bs rest (omega arith),
        get_payload_connect_response-Gets answer (framed 0x1001 bs rest) held,
      )
      refl

pub connect_written :
    (cl : Client)
    → AllMessages cl.pool
    → 16 ≤ cl.writer.room
    → (send_connect cl).0.writer ≡ after_write 1 (put_uint32 1) cl.writer
unfolding send_connect
connect_written cl all room =
    let hello : PayloadConnect = record { protocol_version = 1 } in
    let (_, _, sent) =
      send_typed 1 (set_payload_connect hello) (fields_connect hello) cl
        (set_payload_connect-Sets hello) all (omega arith, tt) (omega arith) (omega arith) in
    rw sent refl

-- A client with an unused connection and a transporter with an unused connection to it, each reading what the
-- other writes: if the two frames and the id fit, both handshakes succeed, the client is told
-- the id that the transporter keeps for it, and nothing is left unread on either side.
pub handshakes_meet :
    (cl : Client) (cc : Connection) (id : List ℕ)
    → AllMessages cl.pool
    → AllMessages cc.pool
    → cl.writer.out ≡ []
    → cc.writer.out ≡ []
    → 16 ≤ cl.writer.room
    → 4 + length id ≤ 61440
    → 16 + length id ≤ cc.writer.room
    → cc.input ≡ (send_connect cl).0.writer.out
    → cl.input ≡ (perform_handshake id cc).0.writer.out
    → let (cl', r) = handshake cl in
      let (cc', r') = perform_handshake id cc in
      (r ≡ ok id) × (r' ≡ ok true) × (cc'.client_id ≡ id) × (cl'.input ≡ []) × (cc'.input ≡ [])
unfolding handshake send_connect
handshakes_meet cl cc id all all' new new' room fits room' hears hears' =
    let hello : PayloadConnect = record { protocol_version = 1 } in
    let bs = put_uint32 1 in
    let answer : PayloadConnectResponse = record { client_id = id } in
    let fs = fields_connect_response answer in
    let wrote = connect_written cl all room in
    let heard : cc.input ≡ wire 1 bs ++ [] = rw (hears, wrote, new, append-nil (wire 1 bs)) refl in
    let (accepted, identified, _, unread, told) =
      handshake_accepted cc all' [] 1 (omega arith) heard id refl fits room' in
    let heard' : cl.input ≡ wire 0x1001 (encode [] fs) ++ [] =
      rw (hears', told, new', append-nil (wire 0x1001 (encode [] fs))) refl in
    let (known, read, _) =
      request_lem 1 (set_payload_connect hello) (fields_connect hello) read_connect_response (ok id)
        0x1001 (encode [] fs) [] cl (set_payload_connect-Sets hello) all (omega arith, tt)
        (omega arith) (omega arith) heard' (omega (arith, length-encode [] fs))
        (λ rest. reads_connect id rest fits) in
    (known, accepted, identified, read, unread)

reads_join :
    (p : PayloadConnectRoomResult) (rest : List ℕ)
    → p.accepted < 4294967296
    → 12 + (length p.client_id + length p.public_key) ≤ 61440
    → read_join_response (framed 0x1004 (encode [] (fields_connect_room_result p)) rest) ≡ ok p
unfolding read_join_response is_error expect_command
reads_join p rest word fits =
    let fs = fields_connect_room_result p in
    let bs = encode [] fs in
    let held = framed-Holds 0x1004 bs rest (omega (arith, length-encode [] fs)) in
    rw
      (
        command-framed 0x1004 bs rest (omega arith),
        get_payload_connect_room_response-Gets p word (framed 0x1004 bs rest) held,
      )
      refl

abbrev pub over : {A : Type 0} → GuestSession → Client × Result A → GuestSession × Result A
over s (c, r) = (record s { client = c }, r)

over-bind :
    {A B C : Type 0} (s : GuestSession) (x : Client × Result A) (f : A → M Client B)
    (g : B → M GuestSession C)
    → bind (over s x) (λ a. on_client (f a) >>= g) ≡ bind (over s (bind x f)) g
over-bind s (c, ok a) f g = refl
over-bind s (c, err e) f g = refl
over-bind s (c, panic) f g = refl

over-decided :
    (p : PayloadConnectRoomResult) (s : GuestSession) (x : Client × Result PayloadConnectRoomResult)
    → x.1 ≡ ok p
    → bind (over s x) decide_join ≡ decide_join p (record s { client = x.0 })
over-decided p s (c, r) e = rw e refl

-- The step is a request over the session's client, and the decision.
pub join_is_request :
    (room_id key : List ℕ) (s : GuestSession)
    → let payload : PayloadConnectRoom = record {
      room_id = room_id;
      client_id = [];
      public_key = key;
    } in
      room_join_step room_id key s
      ≡ bind
          (over s (request 4 (set_payload_connect_room payload) read_join_response s.client))
          decide_join
unfolding room_join_step send_join_room
join_is_request room_id key s =
    let sent = send_join_room room_id key s.client in
    over-bind s sent (λ _. next_message)
      (λ r. on_client (with_answer read_join_response r) >>= decide_join)
    ∙ over-bind s (bind sent (λ _. next_message)) (with_answer read_join_response) decide_join
    ∙ ap (λ x. bind (over s x) decide_join)
        (bind_assoc sent (λ _. next_message) (with_answer read_join_response))

module _ (room_id key : List ℕ) (s : GuestSession) (more : List ℕ) where
  abbrev payload : PayloadConnectRoom
  payload = record { room_id = room_id; client_id = []; public_key = key }

  requested :
      (answer : Result PayloadConnectRoomResult) (c : ℕ) (bs : List ℕ)
      → AllMessages s.client.pool
      → 12 + (length room_id + length key) ≤ 61440
      → 24 + (length room_id + length key) ≤ s.client.writer.room
      → s.client.input ≡ wire c bs ++ more
      → length bs ≤ 61440
      → ((rest : List ℕ) → read_join_response (framed c bs rest) ≡ answer)
      → let (cl', r) = request 4 (set_payload_connect_room payload) read_join_response s.client in
        (r ≡ answer)
        × (cl'.input ≡ more)
        × (cl'.writer ≡ after_write 4 (encode [] (fields_connect_room payload)) s.client.writer)
  requested answer c bs all small room input fits reads =
      request_lem 4 (set_payload_connect_room payload) (fields_connect_room payload)
        read_join_response answer c bs more s.client (set_payload_connect_room-Sets payload) all
        (omega arith, (omega arith, (omega arith, tt))) (omega arith) (omega arith) input fits reads

  -- A guest that asks to join, and is answered with the owner's decision, reports that decision with the owner's
  -- id and key, and goes on exactly if the flag is not zero; otherwise the step fails with the denial.
  -- Its request, with the room and its key, is all it has written, and it has read no more than the answer.
  pub room_join_step_answered :
      (p : PayloadConnectRoomResult)
      → AllMessages s.client.pool
      → 12 + (length room_id + length key) ≤ 61440
      → 24 + (length room_id + length key) ≤ s.client.writer.room
      → p.accepted < 4294967296
      → 12 + (length p.client_id + length p.public_key) ≤ 61440
      → s.client.input ≡ wire 0x1004 (encode [] (fields_connect_room_result p)) ++ more
      → let (s', r) = room_join_step room_id key s in
        (r ≡ (if p.accepted == 0 then err join_room_denied else ok tt))
        × (s'.events ≡ join_decided (not (p.accepted == 0)) p.client_id p.public_key ∷ s.events)
        × (s'.client.input ≡ more)
        × (s'.client.writer
            ≡ after_write 4 (encode [] (fields_connect_room payload)) s.client.writer)
  room_join_step_answered p all small room word fits input =
      let fs = fields_connect_room_result p in
      let x = request 4 (set_payload_connect_room payload) read_join_response s.client in
      let (decision, read, written) =
        requested (ok p) 0x1004 (encode [] fs) all small room input
          (omega (arith, length-encode [] fs)) (λ rest. reads_join p rest word fits) in
      rw (join_is_request room_id key s, over-decided p s x decision)
        (unfold decide_join in ground (arith, read, written))
