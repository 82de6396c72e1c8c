-- ===== src/Tests/Sharing.antt =====
-- A join from the guest's request to its end, at concrete inputs.
use adb_remote.Prelude.{
  ℕ, ◌≡◌, refl, Bool, true, false, List, [], ◌∷◌, ascii, arith, ok, err, none, some,
  join_room_denied, Option,
}
use adb_remote.Protocol.Message.{TransporterMessage, create_transporter_message}
use adb_remote.Protocol.Wire.Read.{create_transporter_message-IsMessage}
use adb_remote.Pool.{contents_of}
use adb_remote.Transporter.Connection.{Connection, read_next_message}
use adb_remote.Transporter.Connection.Sending.{AllMessages}
use adb_remote.Transporter.Rooms.{
  RoomManager, Room, sent, join_room_request, join_room_response, find_room_by_owner,
  find_room_by_id, dispatch_message_safely,
}
use adb_remote.Client.Transport.{Client, send_join_room, read_round}
use adb_remote.Client.Controller.{GuestSession, room_join_step, join_decided}
use adb_remote.Client.OwnerEvent as OwnerEvent
use adb_remote.Client.Multiplexer.{new_owner_multiplexer}
use adb_remote.Client.OwnerController.{OwnerSession, handle_join_request, dispatch_owner_message}
use adb_remote.Sharing.{perform}
use adb_remote.Sharing.Decision.{decision_reaches_guest}
use adb_remote.Sharing.Request.{request_reaches_owner}

abbrev client : List ℕ → Client
client input = record {
  pool = record {
    free = [];
    next_ref = 0;
    store = λ r. record { contents = create_transporter_message; current = 0; target = 1 };
  };
  input = input;
  writer = record { out = []; room = 1000 };
  bytes_sent = 0;
  bytes_received = 0;
  captured = [];
}

abbrev connection : List ℕ → Connection
connection input = record {
  pool = (client []).pool;
  input = input;
  writer = record { out = []; room = 1000 };
  client_id = [];
  closed = false;
}

clean : AllMessages (client []).pool
clean r = create_transporter_message-IsMessage

abbrev steady : ℕ → Bool
steady n = false

-- Every client has the same name here.
abbrev name_of : ℕ → List ℕ
name_of n = ascii "QNZQ5630"

abbrev room : Option ℕ → Room
room guest = record { ref = 0; room_id = ascii "ABCD1234"; owner = 1; guest = guest }

abbrev rooms : Option ℕ → RoomManager
rooms guest = record { rooms = room guest ∷ []; next_ref = 1; sends = 0; trace = [] }

abbrev owner_session : List ℕ → OwnerSession
owner_session input = record {
  client = client input;
  multiplexer = new_owner_multiplexer;
  events = [];
  requests = [];
}

abbrev answer : List ℕ
answer =
    (handle_join_request (9 ∷ []) (ok false) (ascii "MVJK1457") (7 ∷ [])
      (owner_session [])).0.client.writer.out

abbrev pending : GuestSession
pending = record {
  client =
      client
        ((perform (join_room_response 0 (ascii "QNZQ5630") (9 ∷ [])) (connection [])).0.writer.out);
  events = [];
  disconnects = 0;
  proxy_stops = 0;
}

decision_reaches_guest_example :
    let response = join_room_response 0 (ascii "QNZQ5630") (9 ∷ []) in
    let (t', r) = room_join_step (ascii "ABCD1234") (7 ∷ []) pending in
    (c : ℕ) × (m : TransporterMessage) × ((read_next_message (connection answer)).1 ≡ ok c)
    × (contents_of c (read_next_message (connection answer)).0.pool ≡ ok m)
    × ((dispatch_message_safely steady name_of 1 m [] (rooms (some 2))).trace
        ≡ sent 2 response ∷ [])
    × (r ≡ err join_room_denied)
    × (t'.events ≡ join_decided false (ascii "QNZQ5630") (9 ∷ []) ∷ [])
unfolding find_room_by_owner
decision_reaches_guest_example =
    decision_reaches_guest steady name_of (owner_session []) (connection answer) (connection [])
      (rooms (some 2)) (room (some 2)) pending 1 2 false (9 ∷ []) (ascii "MVJK1457") (7 ∷ [])
      (ascii "ABCD1234") (7 ∷ []) [] clean clean clean clean (omega arith) (omega arith)
      (omega arith) (omega arith) (omega arith) refl refl refl refl refl refl refl

abbrev asked : List ℕ
asked = (send_join_room (ascii "ABCD1234") (7 ∷ []) (client [])).0.writer.out

abbrev owner_asked : OwnerSession
owner_asked = owner_session (
    (perform (join_room_request (ascii "ABCD1234") (ascii "QNZQ5630") (7 ∷ []))
      (connection [])).0.writer.out)

request_reaches_owner_example :
    let request = join_room_request (ascii "ABCD1234") (ascii "QNZQ5630") (7 ∷ []) in
    (c : ℕ) × (m : TransporterMessage) × (d : ℕ) × ((read_next_message (connection asked)).1 ≡ ok c)
    × (contents_of c (read_next_message (connection asked)).0.pool ≡ ok m)
    × ((dispatch_message_safely steady name_of 2 m [] (rooms none)).trace ≡ sent 1 request ∷ [])
    × ((read_round false owner_asked.client).1 ≡ ok d)
    × (let (s', r) =
          dispatch_owner_message steady d
            (record owner_asked { client = (read_round false owner_asked.client).0 }) in
        (r ≡ ok tt)
        × (s'.events ≡ OwnerEvent.join_requested (ascii "QNZQ5630") (7 ∷ []) ∷ [])
        × (s'.requests ≡ (ascii "QNZQ5630", 7 ∷ []) ∷ []))
unfolding find_room_by_id adb_remote.Prelude.bytes_eq
request_reaches_owner_example =
    request_reaches_owner steady steady name_of (client []) (connection asked) (connection [])
      (rooms none) (room none) owner_asked 2 (ascii "ABCD1234") (7 ∷ []) [] clean clean clean clean
      (omega arith) (omega arith) (omega arith) refl refl refl refl refl refl refl
