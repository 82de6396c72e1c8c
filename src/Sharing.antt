-- ===== src/Sharing.antt =====
-- The room manager (transporter/manager/roomManager/roomManager.go) over the connections of
-- transporter/manager/connectionManager/clientConnection.go, between a guest and the owner of a device.
pub mod Decision
pub mod Request
use adb_remote.Prelude.{Result, M}
use adb_remote.Protocol.Message.{TransporterMessage, write}
use adb_remote.Transporter.Connection.{
  Connection, send_error_response, send_room_create_response, send_join_room_request,
  send_join_room_response, send_guest_left,
}
use adb_remote.Transporter.Rooms.{
  Outgoing, error_response, room_create_response, join_room_request, join_room_response, guest_left,
  forwarded,
}

-- `Send`.
unfoldable pub send_message : TransporterMessage → M Connection (Unit {0})
send_message m cc = let (w, r) = write m cc.writer in (record cc { writer = w }, r)

-- The call on a connection that a room manager's effect stands for.
unfoldable pub perform : Outgoing → M Connection (Unit {0})
unfolding send_message
perform (error_response c code text) = send_error_response c code text
perform (room_create_response id) = send_room_create_response id
perform (join_room_request id client key) = send_join_room_request id client key
perform (join_room_response flag client key) = send_join_room_response flag client key
perform guest_left = send_guest_left
perform (forwarded m) = send_message m
