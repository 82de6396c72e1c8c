-- ===== src/Tests/Connection.antt =====
-- A connection with a small pool at concrete messages.
use adb_remote.Prelude.{
  ℕ, ◌≡◌, refl, true, false, [], ◌∷◌, ◌++◌, List, ascii, arith, ok, panic, put_uint32, Bool, leb,
}
use adb_remote.Protocol.Message.{TransporterMessage, create_transporter_message}
use adb_remote.Protocol.Payload.{PayloadError, PayloadConnectRoomResult, PayloadConnectResponse}
use adb_remote.Protocol.Payload.Stores.{fields_error}
use adb_remote.Protocol.Fields.Sequence.{encode}
use adb_remote.Protocol.Wire.Frames.{framed, wire, after_write}
use adb_remote.Protocol.Wire.Read.{create_transporter_message-IsMessage}
use adb_remote.Pool.{ObjectPool}
use adb_remote.Transporter.Connection.{Connection, send_guest_left, read_next_message}
use adb_remote.Transporter.Connection.Sending.{AllMessages, send_guest_left_stale}
use adb_remote.Transporter.Connection.Oversized.{oversized_then_guest_left}
use adb_remote.Transporter.Connection.Handshake.{perform_handshake, mismatch_text}
use adb_remote.Transporter.Connection.Handshake.Answers.{handshake_refused}

abbrev with_contents : TransporterMessage → ObjectPool TransporterMessage
with_contents m = record {
  free = 0 ∷ [];
  next_ref = 1;
  store = λ r. record { contents = m; current = 1; target = 1 };
}

abbrev connection : TransporterMessage → List ℕ → Connection
connection m input = record {
  pool = with_contents m;
  input = input;
  writer = record { out = []; room = 1000 };
  client_id = ascii "MVJK1457";
  closed = false;
}

abbrev idle : Connection
idle = connection create_transporter_message []

idle-AllMessages : (input : List ℕ) → AllMessages (connection create_transporter_message input).pool
idle-AllMessages input r = create_transporter_message-IsMessage

abbrev notice : PayloadError
notice = record { error_code = 4; error_message = ascii "full" }

abbrev decision : PayloadConnectRoomResult
decision = record { accepted = 1; client_id = ascii "QNZQ5630"; public_key = 9 ∷ [] }

abbrev packet : TransporterMessage
packet = framed 6 (1 ∷ 2 ∷ 3 ∷ []) []

send_guest_left_stale_example :
    ((send_guest_left (connection packet [])).1 ≡ ok tt)
    × ((send_guest_left (connection packet [])).0.writer.out ≡ [] ++ wire 7 (1 ∷ 2 ∷ 3 ∷ []))
send_guest_left_stale_example =
    send_guest_left_stale (connection packet []) 0 [] 6 (1 ∷ 2 ∷ 3 ∷ []) [] refl refl (omega arith)
      (omega arith)

abbrev hostile : Connection
hostile =
    connection create_transporter_message
      (put_uint32 6 ++ put_uint32 4294967295 ++ put_uint32 0 ++ [])

oversized_then_guest_left_example :
    ((read_next_message hostile).0.closed ≡ true)
    × ((send_guest_left (record idle { pool = (read_next_message hostile).0.pool })).1 ≡ panic)
oversized_then_guest_left_example =
    oversized_then_guest_left hostile (idle-AllMessages hostile.input) (omega arith) 6 4294967295 0
      [] (omega arith) (omega arith) refl idle (omega arith)

abbrev client : ℕ → Connection
client version = connection create_transporter_message (wire 1 (put_uint32 version) ++ [])

abbrev granted : PayloadConnectResponse
granted = record { client_id = ascii "ABCD1234" }

abbrev refusal : PayloadError
refusal = record { error_code = 1; error_message = mismatch_text 2 }

handshake_refused_example :
    ((perform_handshake (ascii "ABCD1234") (client 2)).1 ≡ ok false)
    × ((perform_handshake (ascii "ABCD1234") (client 2)).0.closed ≡ true)
    × ((perform_handshake (ascii "ABCD1234") (client 2)).0.writer
        ≡ after_write 0x2001 (encode [] (fields_error refusal)) idle.writer)
handshake_refused_example =
    handshake_refused (client 2) (idle-AllMessages (client 2).input) [] 2 (omega arith) refl
      (ascii "ABCD1234") (omega arith) (omega arith)

-- A handshake, a message, and half a header.
abbrev session : Connection
session =
    connection create_transporter_message
      (wire 1 (put_uint32 1) ++ wire 6 (1 ∷ 2 ∷ 3 ∷ []) ++ 7 ∷ 0 ∷ [])

abbrev untouched : ℕ → ObjectPool TransporterMessage → ObjectPool TransporterMessage
untouched n p = p

-- The first message is taken, the next one would not be.
abbrev first_taken : ℕ → Bool
first_taken n = leb 3 n
