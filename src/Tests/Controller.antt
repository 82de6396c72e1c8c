-- ===== src/Tests/Controller.antt =====
-- Sessions of client/controller and of the user interfaces at concrete inputs.
use adb_remote.Prelude.{
  ℕ, ◌+◌, ◌*◌, append-nil, ◌≡◌, refl, sym, ap, true, false, List, [], ◌∷◌, ◌++◌, ascii, arith, ok,
  some, transport_closed, Error, put_uint32, Option, other, Result,
}
use adb_remote.Protocol.Message.{create_transporter_message, Writer}
use adb_remote.Protocol.Payload.{PayloadConnectRoomResult}
use adb_remote.Protocol.Payload.Stores.{fields_connect_response, fields_connect_room_result}
use adb_remote.Protocol.Fields.Sequence.{encode}
use adb_remote.Protocol.Wire.Frames.{wire}
use adb_remote.Protocol.Wire.Read.{create_transporter_message-IsMessage}
use adb_remote.Transporter.Connection.{Connection}
use adb_remote.Transporter.Connection.Sending.{AllMessages}
use adb_remote.Transporter.Connection.Handshake.{perform_handshake}
use adb_remote.Transporter.Connection.Handshake.Answers.{handshake_accepted}
use adb_remote.Client.Transport.{Client}
use adb_remote.Client.Controller.{
  after_join, start_proxy, serve_guest, guest_round, GuestSession, GuestWait, cancelled, handshake,
  room_join_step, join_as_guest, guest_loop, local_connection,
}
use adb_remote.Client.Controller.Meeting.{connect_written, handshakes_meet, room_join_step_answered}
use adb_remote.Client.Controller.Cleanup.{count, join_as_guest_cleans}
use adb_remote.Client.Connect.{new_connect_model, ready}
use adb_remote.Client.Connect.Screen.{served, shown_stage, screen, screen_follows_loop}
use adb_remote.Client.Multiplexer.{new_owner_multiplexer}
use adb_remote.Client.OwnerController.{OwnerSession}

abbrev client : List ℕ → Client
client input = record {
  pool = record {
    free = [];
    next_ref = 0;
    store = λ r. record { contents = create_transporter_message; current = 0; target = 1 };
  };
  input = input;
  writer = record { out = []; room = 1000 };
  bytes_sent = 0;
  bytes_received = 0;
  captured = [];
}

abbrev connection : Connection
connection = record {
  pool = (client []).pool;
  input = wire 1 (put_uint32 1);
  writer = record { out = []; room = 1000 };
  client_id = [];
  closed = false;
}

clean : AllMessages (client []).pool
clean r = create_transporter_message-IsMessage

abbrev welcome : List ℕ
welcome =
    wire 0x1001 (encode [] (fields_connect_response (record { client_id = ascii "MVJK1457" })))

handshakes_meet_example :
    ((handshake (client welcome)).1 ≡ ok (ascii "MVJK1457"))
    × ((perform_handshake (ascii "MVJK1457") connection).1 ≡ ok true)
    × ((perform_handshake (ascii "MVJK1457") connection).0.client_id ≡ ascii "MVJK1457")
    × ((handshake (client welcome)).0.input ≡ [])
    × ((perform_handshake (ascii "MVJK1457") connection).0.input ≡ [])
handshakes_meet_example =
    let id = ascii "MVJK1457" in
    let heard =
      sym (ap (λ (w : Writer). w.out) (connect_written (client welcome) clean (omega arith))) in
    let (_, _, _, _, told) =
      handshake_accepted connection clean [] 1 (omega arith)
        (sym (append-nil (wire 1 (put_uint32 1)))) id refl (omega arith) (omega arith) in
    handshakes_meet (client welcome) connection id clean clean refl refl (omega arith) (omega arith)
      (omega arith) heard (sym (ap (λ (w : Writer). w.out) told))

abbrev refusal : PayloadConnectRoomResult
refusal = record { accepted = 0; client_id = ascii "QNZQ5630"; public_key = 9 ∷ [] }

abbrev session : GuestSession
session = record {
  client = client (wire 0x1004 (encode [] (fields_connect_room_result refusal)) ++ []);
  events = [];
  disconnects = 0;
  proxy_stops = 0;
}

-- A session that the owner accepted, with two relays, the second of which loses the transporter.
abbrev accepted_session : GuestSession
accepted_session = record session {
  client = client (
      wire 0x1004 (encode [] (fields_connect_room_result (record refusal { accepted = 1 }))) ++ []);
}

joined : (room_join_step (ascii "ABCD1234") (7 ∷ []) accepted_session).1 ≡ ok tt
joined =
    let (decided, _, _, _) =
      room_join_step_answered (ascii "ABCD1234") (7 ∷ []) accepted_session []
        (record refusal { accepted = 1 }) clean (omega arith) (omega arith) (omega arith)
        (omega arith) refl in
    decided

abbrev waits : List GuestWait
waits = local_connection (other (ascii "EOF")) ∷ local_connection transport_closed ∷ []

after_joined :
    (x : GuestSession × Result Unit) (f : GuestSession → GuestSession × Option Error)
    → x.1 ≡ ok tt
    → after_join x f ≡ f x.0
after_joined (s, r) f e = rw e refl

cancelled_session :
    (join_as_guest
      (ascii "ABCD1234")
      (7 ∷ [])
      (ascii "5038")
      (ok tt)
      (ok tt)
      (cancelled ∷ [])
      accepted_session).1
    ≡ some (other (ascii "context canceled"))
unfolding join_as_guest start_proxy serve_guest guest_loop guest_round
cancelled_session =
    ap (λ (y : GuestSession × Option Error). y.1)
      (after_joined (room_join_step (ascii "ABCD1234") (7 ∷ []) accepted_session)
        (start_proxy (ascii "5038") (ok tt) (ok tt) (cancelled ∷ [])) joined)

join_as_guest_cleans_example :
    let (s', ended) =
      join_as_guest
        (ascii "ABCD1234")
        (7 ∷ [])
        (ascii "5038")
        (ok tt)
        (ok tt)
        (cancelled ∷ [])
        accepted_session in
    (s'.proxy_stops ≡ 0 + count (room_join_step (ascii "ABCD1234") (7 ∷ []) accepted_session).1 * 1)
    × (s'.disconnects
        ≡ 0 + count (room_join_step (ascii "ABCD1234") (7 ∷ []) accepted_session).1 * (1 * 1))
join_as_guest_cleans_example =
    join_as_guest_cleans (ascii "ABCD1234") (7 ∷ []) (ascii "5038") (ok tt) (ok tt) (cancelled ∷ [])
      accepted_session (other (ascii "context canceled")) cancelled_session

screen_follows_loop_example :
    let m = record (new_connect_model (ascii "ABCD1234") (ascii "5038") []) { stage = ready } in
    let (s', ended) = guest_loop waits session in
    ((screen (λ k. k) s'.events m).stage ≡ shown_stage ended)
    × ((screen (λ k. k) s'.events m).relay_count
        ≡ (screen (λ k. k) [] m).relay_count + served waits)
screen_follows_loop_example =
    screen_follows_loop (λ k. k) waits session
      (record (new_connect_model (ascii "ABCD1234") (ascii "5038") []) { stage = ready }) refl

abbrev owner : OwnerSession
owner = record {
  client = client [];
  multiplexer = new_owner_multiplexer;
  events = [];
  requests = [];
}
