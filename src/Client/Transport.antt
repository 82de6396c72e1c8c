-- ===== src/Client/Transport.antt =====
-- client/transportLayer/client.go: the client's connection to the transporter, with its message pool, its
-- unread input, what was written to it and its byte counters. `captured` is what `recordCapture` was given,
-- the latest first.
pub mod Sending
pub mod Relaying
pub mod Reader
use adb_remote.Prelude.{
  ℕ, ◌+◌, Bool, true, false, List, [], ◌∷◌, u64, Result, ok, err, panic, M, ◌>>◌, fail, lift,
  transport_closed, if◌then◌else◌,
}
use adb_remote.Protocol.Constants.{
  protocol_version, command_connect, command_create_room, command_join_room, command_adb_transport,
}
use adb_remote.Protocol.Message.{
  TransporterMessage, Writer, create_transporter_message, bytes, wire_size, read, write,
  set_direct_command, set_response_command, set_error_response_command,
}
use adb_remote.Protocol.Payload.{
  set_error_payload, set_payload_connect, set_payload_connect_room, set_payload_connect_room_result,
  set_raw_payload,
}
use adb_remote.Pool.{ObjectPool, obtain, contents_of, dispose}
use adb_remote.Transporter.Connection.{put_contents, set}
use adb_remote.Client.AdbMessage as Adb
use adb_remote.Client.AdbMessage.{AdbMessage}

pub data Direction : Type 0 where
  outgoing incoming : Direction

pub record Client : Type 0 where
  pub pool : ObjectPool TransporterMessage
  pub input : List ℕ
  pub writer : Writer
  pub bytes_sent : ℕ
  pub bytes_received : ℕ
  pub captured : List (Direction × List ℕ)

-- `recordCapture(direction, m.Bytes())`: the bytes are sliced first.
unfoldable pub record_capture :
    {A : Type 0} → Direction → Result (List ℕ) → A → Client → Client × Result A
record_capture d (ok bs) a c = (record c { captured = (d, bs) ∷ c.captured }, ok a)
record_capture d (err e) a c = (c, err e)
record_capture d panic a c = (c, panic)

unfoldable pub written :
    TransporterMessage → Writer × Result (Unit {0}) → Client → Client × Result (Unit {0})
unfolding record_capture
written m (w, ok _) c =
    record_capture outgoing (bytes m) tt
      (record c { writer = w; bytes_sent = u64 (c.bytes_sent + wire_size m) })
written m (w, err e) c = (record c { writer = w }, err e)
written m (w, panic) c = (record c { writer = w }, panic)

unfoldable pub write_message : TransporterMessage → M Client (Unit {0})
write_message m c = written m (write m c.writer) c

unfoldable pub dispose_message : {A : Type 0} → ℕ → Client × A → Client × A
dispose_message r (c, a) = (record c { pool = (dispose r c.pool).0 }, a)

unfoldable pub write_if_built :
    TransporterMessage → Result (Unit {0}) → Client → Client × Result (Unit {0})
write_if_built m (ok _) c = write_message m c
write_if_built m (err e) c = (c, err e)
write_if_built m panic c = (c, panic)

unfoldable pub apply_message :
    M TransporterMessage (Unit {0})
    → ℕ
    → Result TransporterMessage
    → Client
    → Client × Result (Unit {0})
apply_message build r (ok m) c =
    let (m', built) = build m in
    write_if_built m' built (record c { pool = put_contents r m' c.pool })
apply_message build r (err e) c = (c, err e)
apply_message build r panic c = (c, panic)

-- `withMessage`, whose argument builds the message and ends with `writeMessage`.
unfoldable pub with_message : M TransporterMessage (Unit {0}) → M Client (Unit {0})
with_message build c =
    let (p, r) = obtain create_transporter_message c.pool in
    dispose_message r (apply_message build r (contents_of r p) (record c { pool = p }))

unfoldable pub send_error : ℕ → ℕ → List ℕ → M Client (Unit {0})
send_error command code text = with_message (
    set (set_error_response_command command)
    >> set_error_payload (record { error_code = code; error_message = text }))

unfoldable pub send_connect : M Client (Unit {0})
send_connect = with_message (
    set (set_direct_command command_connect)
    >> set_payload_connect (record { protocol_version = protocol_version }))

unfoldable pub send_create_room : M Client (Unit {0})
send_create_room = with_message (set (set_direct_command command_create_room))

unfoldable pub send_join_room : List ℕ → List ℕ → M Client (Unit {0})
send_join_room id key = with_message (
    set (set_direct_command command_join_room)
    >> set_payload_connect_room (record { room_id = id; client_id = []; public_key = key }))

unfoldable pub send_join_room_response : ℕ → List ℕ → M Client (Unit {0})
send_join_room_response flag key = with_message (
    set (set_response_command command_join_room)
    >> set_payload_connect_room_result
        (record { accepted = flag; client_id = []; public_key = key }))

-- `m.SetRawPayload(message.Bytes())`.
unfoldable pub set_adb_bytes : Result (List ℕ) → M TransporterMessage (Unit {0})
set_adb_bytes (ok bs) m = set_raw_payload bs m
set_adb_bytes (err e) m = (m, err e)
set_adb_bytes panic m = (m, panic)

unfoldable pub send_adb_message : AdbMessage → M Client (Unit {0})
send_adb_message a =
    with_message (set (set_direct_command command_adb_transport) >> set_adb_bytes (Adb.bytes a))

-- What `startReader` does with a message that it read, once its select goes on: the container for which someone
-- received from the channel or, if the cancellation came first, none, and the container is disposed. A select that
-- waits for good is in Reader.
unfoldable pub deliver : Bool → ℕ → Client × Result (Unit {0}) → Client × Result ℕ
unfolding dispose_message
deliver true r (c, ok _) = dispose_message r (c, err transport_closed)
deliver false r (c, ok _) = (c, ok r)
deliver _ r (c, err e) = (c, err e)
deliver _ r (c, panic) = (c, panic)

unfoldable pub received : Bool → ℕ → Client × Result (Unit {0}) → Client × Result ℕ
unfolding dispose_message record_capture deliver
received cancelled r (c, ok _) =
    let m = (c.pool.store r).contents in
    deliver cancelled r (
      record_capture incoming (bytes m) tt
        (record c { bytes_received = u64 (c.bytes_received + wire_size m) }))
received cancelled r (c, err e) = dispose_message r (c, err e)
received cancelled r (c, panic) = (c, panic)

unfoldable pub read_contents : Bool → ℕ → Result TransporterMessage → Client → Client × Result ℕ
unfolding received
read_contents cancelled r (ok m) c =
    let (s, res) = read (record { message = m; input = c.input }) in
    received cancelled r (record c { pool = put_contents r s.message c.pool; input = s.input }, res)
read_contents cancelled r (err e) c = dispose_message r (c, err e)
read_contents cancelled r panic c = (c, panic)

-- One round of `startReader`'s loop: the container delivered, or why the reader stops.
unfoldable pub read_round : Bool → M Client ℕ
read_round cancelled c =
    let (p, r) = obtain create_transporter_message c.pool in
    read_contents cancelled r (contents_of r p) (record c { pool = p })
