-- ===== src/Transporter/Connection/Handshake.antt =====
-- The handshake of clientConnection.go: `performHandshake` and what it calls. It returns whether to go
-- on with the connection. The random id that the client would be given is a parameter.
pub mod Answers
use adb_remote.Prelude.{
  ℕ, Bool, true, false, List, ◌++◌, ◌==◌, if◌then◌else◌, Result, ok, err, panic, M, ◌>>◌, ascii,
  decimal_digits,
}
use adb_remote.Protocol.Constants.{protocol_version, command_connect, error_protocol_not_supported}
use adb_remote.Protocol.Message.{
  TransporterMessage, create_transporter_message, command, set_response_command,
}
use adb_remote.Protocol.Payload.{PayloadConnect, get_payload_connect, set_payload_connect_response}
use adb_remote.Pool.{obtain, contents_of}
use adb_remote.Transporter.Connection.{
  Connection, finish, build_and_write, send_error_response, internal_close, read_into, set,
}

abbrev pub mismatch_text : ℕ → List ℕ
mismatch_text version =
    ascii "Protocol version mismatch, transporter: "
    ++ decimal_digits 10 protocol_version
    ++ ascii ", client: "
    ++ decimal_digits 10 version

-- Closes the connection after the attempt to tell the client, whether or not it could be told.
unfoldable pub closed_after : Connection × Result (Unit {0}) → Connection × Result Bool
unfolding internal_close
closed_after (cc, panic) = (cc, panic)
closed_after (cc, ok _) = (internal_close cc, ok false)
closed_after (cc, err _) = (internal_close cc, ok false)

unfoldable pub handle_protocol_mismatch_error : ℕ → M Connection Bool
unfolding closed_after
handle_protocol_mismatch_error version cc =
    closed_after
      (send_error_response command_connect error_protocol_not_supported (mismatch_text version) cc)

unfoldable pub answered : Connection × Result (Unit {0}) → Connection × Result Bool
unfolding internal_close
answered (cc, ok _) = (cc, ok true)
answered (cc, err e) = (internal_close cc, ok false)
answered (cc, panic) = (cc, panic)

abbrev pub connect_response : List ℕ → M TransporterMessage (Unit {0})
connect_response id =
    set (set_response_command command_connect)
    >> set_payload_connect_response (record { client_id = id })

unfoldable pub handle_connect_payload :
    List ℕ → ℕ → TransporterMessage → Result PayloadConnect → M Connection Bool
unfolding internal_close
handle_connect_payload id r m (ok p) cc =
    if p.protocol_version == protocol_version
    then answered (build_and_write (connect_response id) r (ok m) (record cc { client_id = id }))
    else handle_protocol_mismatch_error p.protocol_version cc
handle_connect_payload id r m (err e) cc = (internal_close cc, ok false)
handle_connect_payload id r m panic cc = (cc, panic)

unfoldable pub handle_connect_handshake : List ℕ → ℕ → TransporterMessage → M Connection Bool
handle_connect_handshake id r m cc = handle_connect_payload id r m (get_payload_connect m).1 cc

unfoldable pub handshake_read :
    List ℕ → ℕ → Connection × Result (Unit {0}) → Connection × Result Bool
unfolding internal_close
handshake_read id r (cc, ok _) =
    let m = (cc.pool.store r).contents in
    if command m == command_connect
    then handle_connect_handshake id r m cc
    else (internal_close cc, ok false)
handshake_read id r (cc, err e) = (internal_close cc, ok false)
handshake_read id r (cc, panic) = (cc, panic)

unfoldable pub handshake_obtained : List ℕ → ℕ → Result TransporterMessage → M Connection Bool
unfolding internal_close
handshake_obtained id r (ok m) cc = handshake_read id r (read_into r m cc)
handshake_obtained id r (err e) cc = (internal_close cc, ok false)
handshake_obtained id r panic cc = (cc, panic)

unfoldable pub perform_handshake : List ℕ → M Connection Bool
perform_handshake id cc =
    let (p, r) = obtain create_transporter_message cc.pool in
    finish r (handshake_obtained id r (contents_of r p) (record cc { pool = p }))
