-- ===== src/Client/SmartSocket/Requests.antt =====
-- Whole requests of client/adb/smartSocket.go against an adb server that answers.
use adb_remote.Prelude.{
  ℕ, ◌+◌, ◌-◌, ◌≤◌, ◌<◌, ◌≡◌, refl, List, [], ◌++◌, length, length-append, ascii, arith, ok, err,
  some, bytes_eq, other, ge→ltb,
}
use adb_remote.Protocol.Wire.Read.{read_full_lem}
use adb_remote.Protocol.Wire.Frames.{write_bytes_lem}
use adb_remote.Client.NetConn.{NetConn, receive, transmit, close_conn}
use adb_remote.Client.SmartSocket.{
  Device, format_length, send_command, read_body, read_response, check_status, check_result,
  request_response, execute_command, device_list, select_transport, open_service, open_stream,
}
use adb_remote.Client.SmartSocket.Numbers.{parse_int-format_length}
use adb_remote.Client.SmartSocket.Devices.{render, IsPrintable, parse_devices-render}

-- The connection with its input advanced, or with more sent.
abbrev pub reading : List ℕ → NetConn → NetConn
reading rest conn = record conn { input = rest }

abbrev pub sending : List ℕ → NetConn → NetConn
sending bs conn = record conn {
  writer = record { out = conn.writer.out ++ bs; room = conn.writer.room - length bs };
}

receive_lem :
    (xs ys : List ℕ) (n : ℕ) (conn : NetConn)
    → length xs ≡ n
    → receive n (reading (xs ++ ys) conn) ≡ (reading ys conn, ok xs)
unfolding receive
receive_lem xs ys n conn e = rw (read_full_lem n xs ys e)

-- What a request looks like on the wire.
abbrev pub request : List ℕ → List ℕ
request command = format_length (length command) ++ command

length-request :
    (command : List ℕ) → length command < 65536 → length (request command) ≡ 4 + length command
length-request command h = omega (
  arith,
  length-append (format_length (length command)) command,
  (parse_int-format_length (length command) h).0,
)

send_command_lem :
    (command : List ℕ) (conn : NetConn)
    → length command < 65536
    → 4 + length command ≤ conn.writer.room
    → send_command command conn ≡ (sending (request command) conn, ok (length (request command)))
unfolding send_command transmit
send_command_lem command conn h room =
    rw (write_bytes_lem (request command) conn.writer (omega (arith, length-request command h)))

read_response_lem :
    (body more : List ℕ) (conn : NetConn)
    → length body < 65536
    → read_response (reading (format_length (length body) ++ (body ++ more)) conn)
      ≡ (reading more conn, ok body)
unfolding read_response read_body
read_response_lem body more conn h =
    let (four, parsed) = parse_int-format_length (length body) h in
    rw
      (
        receive_lem (format_length (length body)) (body ++ more) 4 conn four,
        parsed,
        ge→ltb 1048576 (length body) (omega arith),
      )
      (receive_lem body more (length body) conn refl)

check_result_okay :
    (more : List ℕ) (conn : NetConn)
    → check_result (reading (ascii "OKAY" ++ more) conn) ≡ (reading more conn, ok tt)
unfolding check_result check_status bytes_eq
check_result_okay more conn = rw (receive_lem (ascii "OKAY") more 4 conn refl) refl

check_result_fail :
    (body more : List ℕ) (conn : NetConn)
    → length body < 65536
    → check_result (reading (ascii "FAIL" ++ (format_length (length body) ++ (body ++ more))) conn)
      ≡ (reading more conn, err (other body))
unfolding check_result check_status bytes_eq
check_result_fail body more conn h =
    rw
      (
        receive_lem (ascii "FAIL") (format_length (length body) ++ (body ++ more)) 4 conn refl,
        read_response_lem body more conn h,
      )
      refl

-- When the dial succeeds, the server answers OKAY and a list of printable devices whose text is shorter than
-- 65536 bytes, and the connection takes the 16 bytes of the request, then `DeviceList` sends
-- `000Chost:devices`, takes exactly the answer off the connection, returns the devices that the answer lists
-- and closes the connection.
pub device_list_lem :
    (conn : NetConn) (ds : List Device) (more : List ℕ)
    → IsPrintable ds
    → length (render ds []) < 65536
    → 16 ≤ conn.writer.room
    → let body = render ds [] in
      device_list
        (ok (reading (ascii "OKAY" ++ (format_length (length body) ++ (body ++ more))) conn))
      ≡ (some (close_conn (reading more (sending (ascii "000Chost:devices") conn))), ok ds)
unfolding device_list execute_command request_response
device_list_lem conn ds more w h room =
    let body = render ds [] in
    let answer = ascii "OKAY" ++ (format_length (length body) ++ (body ++ more)) in
    let asked = sending (ascii "000Chost:devices") conn in
    let sent : send_command (ascii "host:devices") (reading answer conn)
        ≡ (reading answer asked, ok 16) =
      unfold format_length in
      send_command_lem (ascii "host:devices") (reading answer conn) (omega arith) (omega arith) in
    rw
      (
        sent,
        check_result_okay (format_length (length body) ++ (body ++ more)) asked,
        read_response_lem body more asked h,
        parse_devices-render ds w,
      )
      refl

-- `OpenStream` selects the device, requests the service, and hands out the connection right behind the
-- second status, not closed.
pub open_stream_lem :
    (conn : NetConn) (serial service more : List ℕ)
    → 15 + length serial < 65536
    → length service < 65536
    → 23 + length serial + length service ≤ conn.writer.room
    → open_stream serial service (ok (reading (ascii "OKAY" ++ (ascii "OKAY" ++ more)) conn)) ≡ (
      some (
          reading more (
            sending
              (request service)
              (sending (request (ascii "host:transport:" ++ serial)) conn))),
      ok tt,
    )
unfolding open_stream open_service select_transport
open_stream_lem conn serial service more h k room =
    let command = ascii "host:transport:" ++ serial in
    let size =
      length-request command (omega (arith, length-append (ascii "host:transport:") serial)) in
    let selected = sending (request command) conn in
    rw
      (
        send_command_lem command (reading (ascii "OKAY" ++ (ascii "OKAY" ++ more)) conn)
            (omega arith) (omega arith),
        check_result_okay (ascii "OKAY" ++ more) selected,
        send_command_lem service (reading (ascii "OKAY" ++ more) selected) k (omega (arith, size)),
        check_result_okay more (sending (request service) selected),
      )
      refl
