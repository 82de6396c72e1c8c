-- ===== src/Protocol/Exchange.antt =====
-- A message from end to end: one side sets a command and a payload and writes, the other side reads
-- into a message that it has used before and gets the payload.
use adb_remote.Prelude.{
  ℕ, ◌+◌, ◌≤◌, ◌<◌, ◌≡◌, refl, List, [], length, drop, ok, err, panic, Result, M, arith, uint32-put,
  append-nil,
}
use adb_remote.Protocol.Message.{
  TransporterMessage, Writer, command, set_direct_command, write, read,
}
use adb_remote.Protocol.Fields.Sequence.{Field, encode, AreWords, Sets, length-encode}
use adb_remote.Protocol.Payload.{
  PayloadError, PayloadConnect, PayloadConnectResponse, PayloadCreateRoomResponse,
  PayloadConnectRoom, PayloadConnectRoomResult, get_error_payload, set_error_payload,
  get_payload_connect, set_payload_connect, get_payload_connect_response,
  set_payload_connect_response, get_payload_create_room_response, set_payload_create_room_response,
  get_payload_connect_room, set_payload_connect_room, get_payload_connect_room_response,
  set_payload_connect_room_result,
}
use adb_remote.Protocol.Payload.Stores.{
  fields_error, fields_connect, fields_connect_response, fields_create_room_response,
  fields_connect_room, fields_connect_room_result, set_error_payload-Sets, set_payload_connect-Sets,
  set_payload_connect_response-Sets, set_payload_create_room_response-Sets,
  set_payload_connect_room-Sets, set_payload_connect_room_result-Sets,
}
use adb_remote.Protocol.Payload.Loads.{
  Holds, Gets, get_error_payload-Gets, get_payload_connect-Gets, get_payload_connect_response-Gets,
  get_payload_create_room_response-Gets, get_payload_connect_room-Gets,
  get_payload_connect_room_response-Gets,
}
use adb_remote.Protocol.Wire.Frames.{framed, wire, write_lem}
use adb_remote.Protocol.Wire.Read.{IsMessage, read_lem}

-- The next step, unless this one failed.
abbrev pub after : {S A B : Type 0} → S × Result A → (S → A → Result B) → Result B
after (s, ok a) f = f s a
after (s, err e) f = err e
after (s, panic) f = panic

-- What the receiver reads: the command and the payload. The connection takes 65536 bytes.
unfoldable pub exchange :
    {A : Type 0}
    → M TransporterMessage (Unit {0})
    → M TransporterMessage A
    → ℕ
    → TransporterMessage
    → TransporterMessage
    → Result (ℕ × A)
exchange set get c sender receiver = after (set (set_direct_command c sender)) λ m _.
    after (write m (record { out = []; room = 65536 })) λ w _.
      after (read (record { message = receiver; input = w.out }))
        λ s _. after (get s.message) λ m' a. ok (command m', a)

exchange_lem :
    {A : Type 0} (set : M TransporterMessage (Unit {0})) (get : M TransporterMessage A)
    (fs : List Field) (a : A) (c : ℕ) (sender receiver : TransporterMessage)
    → Sets set fs
    → Gets get (encode [] fs) a
    → c < 4294967296
    → IsMessage sender
    → IsMessage receiver
    → AreWords fs
    → length (encode [] fs) ≤ 61440
    → exchange set get c sender receiver ≡ ok (c, a)
unfolding exchange set_direct_command
exchange_lem set get fs a c sender receiver sets gets word v v' w fits =
    let bs = encode [] fs in
    let (rest, e, _) = (sets (set_direct_command c sender) v.buffer_size w).0 fits in
    let out : Writer = record { out = []; room = 65536 } in
    let rest' = drop (length bs) receiver.payload_buffer in
    let reads = read_lem receiver c bs [] v' fits in
    let held : Holds (framed c bs rest') bs = record {
      rest = rest';
      buffer = refl;
      declared = uint32-put (length bs) (omega arith);
      fits = fits;
    } in
    rw (e, write_lem c bs rest out fits (omega arith), ← append-nil (wire c bs), reads)
      (rw (gets (framed c bs rest') held, uint32-put c word))

module _ (c : ℕ) (sender receiver : TransporterMessage) (word : c < 4294967296)
    (v : IsMessage sender) (v' : IsMessage receiver) where
  -- Any 32-bit error code and a text that fit in 61440 bytes arrive as they were sent, with their
  -- 32-bit command, whatever the messages on both sides held before.
  pub exchange_error :
      (p : PayloadError)
      → p.error_code < 4294967296
      → 8 + length p.error_message ≤ 61440
      → exchange (set_error_payload p) get_error_payload c sender receiver ≡ ok (c, p)
  exchange_error p code fits =
      exchange_lem (set_error_payload p) get_error_payload (fields_error p) p c sender receiver
        (set_error_payload-Sets p) (get_error_payload-Gets p code) word v v'
        (code, (omega arith, tt)) (omega (arith, length-encode [] (fields_error p)))

  pub exchange_connect :
      (p : PayloadConnect)
      → p.protocol_version < 4294967296
      → exchange (set_payload_connect p) get_payload_connect c sender receiver ≡ ok (c, p)
  exchange_connect p version =
      exchange_lem (set_payload_connect p) get_payload_connect (fields_connect p) p c sender
        receiver (set_payload_connect-Sets p) (get_payload_connect-Gets p version) word v v'
        (version, tt) (omega (arith, length-encode [] (fields_connect p)))

  pub exchange_connect_response :
      (p : PayloadConnectResponse)
      → 4 + length p.client_id ≤ 61440
      → exchange (set_payload_connect_response p) get_payload_connect_response c sender receiver
        ≡ ok (c, p)
  exchange_connect_response p fits =
      exchange_lem (set_payload_connect_response p) get_payload_connect_response
        (fields_connect_response p) p c sender receiver (set_payload_connect_response-Sets p)
        (get_payload_connect_response-Gets p) word v v' (omega arith, tt)
        (omega (arith, length-encode [] (fields_connect_response p)))

  pub exchange_create_room_response :
      (p : PayloadCreateRoomResponse)
      → 4 + length p.room_id ≤ 61440
      → exchange
          (set_payload_create_room_response p)
          get_payload_create_room_response
          c
          sender
          receiver
        ≡ ok (c, p)
  exchange_create_room_response p fits =
      exchange_lem (set_payload_create_room_response p) get_payload_create_room_response
        (fields_create_room_response p) p c sender receiver
        (set_payload_create_room_response-Sets p) (get_payload_create_room_response-Gets p) word v
        v' (omega arith, tt) (omega (arith, length-encode [] (fields_create_room_response p)))

  -- Any join request whose fields fit in 61440 bytes arrives as it was sent, with its 32-bit
  -- command, whatever the messages on both sides held before.
  pub exchange_connect_room :
      (p : PayloadConnectRoom)
      → 12 + length p.room_id + length p.client_id + length p.public_key ≤ 61440
      → exchange (set_payload_connect_room p) get_payload_connect_room c sender receiver ≡ ok (c, p)
  exchange_connect_room p fits =
      exchange_lem (set_payload_connect_room p) get_payload_connect_room (fields_connect_room p) p c
        sender receiver (set_payload_connect_room-Sets p) (get_payload_connect_room-Gets p) word v
        v' (omega arith, (omega arith, (omega arith, tt)))
        (omega (arith, length-encode [] (fields_connect_room p)))

  -- Any decision on a join request, of a 32-bit flag and fields that fit in 61440 bytes, arrives
  -- as it was sent, with its 32-bit command, whatever the messages on both sides held before.
  pub exchange_connect_room_result :
      (p : PayloadConnectRoomResult)
      → p.accepted < 4294967296
      → 12 + length p.client_id + length p.public_key ≤ 61440
      → exchange
          (set_payload_connect_room_result p)
          get_payload_connect_room_response
          c
          sender
          receiver
        ≡ ok (c, p)
  exchange_connect_room_result p flag fits =
      exchange_lem (set_payload_connect_room_result p) get_payload_connect_room_response
        (fields_connect_room_result p) p c sender receiver (set_payload_connect_room_result-Sets p)
        (get_payload_connect_room_response-Gets p flag) word v v'
        (flag, (omega arith, (omega arith, tt)))
        (omega (arith, length-encode [] (fields_connect_room_result p)))
