-- ===== src/Transporter/Connection.antt =====
-- transporter/manager/connectionManager/clientConnection.go: one client's connection, with the message
-- pool that all connections share, what the client has sent and not yet been read, and what has been
-- written to it. `closed` is what `closeOnce` guards; a closed connection is out of the manager's list.
pub mod Sending
pub mod Oversized
pub mod Reading
pub mod Handshake
pub mod Run
use Prim.Native.Nat.{bit_or}
use adb_remote.Prelude.{
  ℕ, ◌+◌, Bool, true, false, List, [], ◌∷◌, ◌++◌, ◌==◌, if◌then◌else◌, Result, ok, err, panic, M,
  ◌>>=◌, ◌>>◌, ascii, decimal_digits,
}
use adb_remote.Protocol.Constants.{
  protocol_version, command_connect, command_create_room, command_join_room, command_guest_left,
  error_protocol_not_supported, error_invalid_payload,
}
use adb_remote.Protocol.Message.{
  TransporterMessage, create_transporter_message, command, set_direct_command, set_response_command,
  set_error_response_command, read, write, Writer,
}
use adb_remote.Protocol.Payload.{
  set_error_payload, set_payload_create_room_response, set_payload_connect_room,
  set_payload_connect_room_result, set_payload_connect_response, get_payload_connect,
}
use adb_remote.Pool.{ObjectPool, Container, update, obtain, contents_of, dispose}

pub record Connection : Type 0 where
  pub pool : ObjectPool TransporterMessage
  pub input : List ℕ
  pub writer : Writer
  pub client_id : List ℕ
  pub closed : Bool

-- The message of a container, as the methods on it leave it.
abbrev pub put_contents :
    ℕ → TransporterMessage → ObjectPool TransporterMessage → ObjectPool TransporterMessage
put_contents r m p = record p { store = update p.store r (record (p.store r) { contents = m }) }

-- `defer container.Dispose()`, on every way out.
unfoldable pub finish : {A : Type 0} → ℕ → Connection × A → Connection × A
finish r (cc, a) = (record cc { pool = (dispose r cc.pool).0 }, a)

-- `return message.Write(cc.connection)`, if the message could be built.
unfoldable pub write_built :
    TransporterMessage → Result (Unit {0}) → Connection → Connection × Result (Unit {0})
write_built m (ok _) cc = let (w, r) = write m cc.writer in (record cc { writer = w }, r)
write_built m (err e) cc = (cc, err e)
write_built m panic cc = (cc, panic)

unfoldable pub build_and_write :
    M TransporterMessage (Unit {0})
    → ℕ
    → Result TransporterMessage
    → Connection
    → Connection × Result (Unit {0})
build_and_write build r (ok m) cc =
    let (m', built) = build m in
    write_built m' built (record cc { pool = put_contents r m' cc.pool })
build_and_write build r (err e) cc = (cc, err e)
build_and_write build r panic cc = (cc, panic)

-- The common form of the `Send` methods: obtain a pooled message, build, write, dispose.
unfoldable pub send_built : M TransporterMessage (Unit {0}) → M Connection (Unit {0})
send_built build cc =
    let (p, r) = obtain create_transporter_message cc.pool in
    finish r (build_and_write build r (contents_of r p) (record cc { pool = p }))

abbrev pub set : (TransporterMessage → TransporterMessage) → M TransporterMessage (Unit {0})
set f m = (f m, ok tt)

unfoldable pub send_error_response : ℕ → ℕ → List ℕ → M Connection (Unit {0})
send_error_response c code text = send_built (do
  set (set_error_response_command c)
  set_error_payload (record { error_code = code; error_message = text }))

unfoldable pub send_room_create_response : List ℕ → M Connection (Unit {0})
send_room_create_response id = send_built (do
  set (set_response_command command_create_room)
  set_payload_create_room_response (record { room_id = id }))

unfoldable pub send_join_room_request : List ℕ → List ℕ → List ℕ → M Connection (Unit {0})
send_join_room_request id client key = send_built (do
  set (set_direct_command command_join_room)
  set_payload_connect_room (record { room_id = id; client_id = client; public_key = key }))

unfoldable pub send_join_room_response : ℕ → List ℕ → List ℕ → M Connection (Unit {0})
send_join_room_response flag client key = send_built (do
  set (set_response_command command_join_room)
  set_payload_connect_room_result
      (record { accepted = flag; client_id = client; public_key = key }))

unfoldable pub send_guest_left : M Connection (Unit {0})
send_guest_left = send_built (set (set_direct_command command_guest_left))

-- The send on ClientDisconnectedChannel that ends it is in Run, and what is registered is in ConnectionManager.
unfoldable pub internal_close : Connection → Connection
internal_close cc = record cc { closed = true }

-- `message.Read(cc.connection)` into the container `r`.
unfoldable pub read_into : ℕ → TransporterMessage → M Connection (Unit {0})
read_into r m cc =
    let (s, res) = read (record { message = m; input = cc.input }) in
    (record cc { pool = put_contents r s.message cc.pool; input = s.input }, res)

-- `readNextMessage`: the container to deliver, or none on an error.
unfoldable pub after_read : ℕ → Connection × Result (Unit {0}) → Connection × Result ℕ
unfolding internal_close finish
after_read r (cc, ok _) = (cc, ok r)
after_read r (cc, err e) = (internal_close (finish r (cc, e)).0, err e)
after_read r (cc, panic) = (internal_close cc, panic)

unfoldable pub read_obtained : ℕ → Result TransporterMessage → Connection → Connection × Result ℕ
unfolding internal_close finish
read_obtained r (ok m) cc = after_read r (read_into r m cc)
read_obtained r (err e) cc = (internal_close (finish r (cc, e)).0, err e)
read_obtained r panic cc = (internal_close cc, panic)

unfoldable pub read_next_message : M Connection ℕ
read_next_message cc =
    let (p, r) = obtain create_transporter_message cc.pool in
    read_obtained r (contents_of r p) (record cc { pool = p })
