-- ===== src/Client/SmartSocket.antt =====
-- client/adb/smartSocket.go and device.go: requests to the local adb server. A dialled connection is a
-- parameter, as is whether the dial succeeded.
pub mod Numbers
pub mod Devices
pub mod Requests
use adb_remote.Prelude.{
  ℕ, zero, suc, ◌+◌, ◌-◌, ◌*◌, ◌/◌, ◌%◌, Bool, true, false, not, ◌&&◌, ◌||◌, List, [], ◌∷◌, ◌++◌,
  ltb, leb, ◌==◌, if◌then◌else◌, length, drop, replicate, bytes_eq, ascii, Option, none, some,
  other, invalid_number, data_too_long, Result, ok, err, panic, M, pure, fail, lift, ◌>>=◌,
  reject_if,
}
use adb_remote.Client.NetConn.{NetConn, receive, transmit, close_conn}

abbrev pub response_okay : List ℕ
response_okay = ascii "OKAY"

abbrev pub max_smart_socket_response_size : ℕ
max_smart_socket_response_size = 1048576

pub record Device : Type 0 where
  pub id : List ℕ
  pub kind : List ℕ

abbrev pub hex_digit : ℕ → ℕ
hex_digit n = if ltb n 10 then n + 48 else n + 55

-- `%X`, for numbers of at most `fuel` digits.
unfoldable pub hex_digits : ℕ → ℕ → List ℕ
hex_digits zero n = []
hex_digits (suc fuel) n =
    let rest = hex_digits fuel (n / 16) in
    if ltb n 16 then hex_digit n ∷ [] else rest ++ hex_digit (n % 16) ∷ []

-- `%04X`, of a length of 64 bits.
unfoldable pub format_length : ℕ → List ℕ
unfolding hex_digits
format_length n = let digits = hex_digits 16 n in replicate (4 - length digits) 48 ++ digits

abbrev pub digit_value : ℕ → Option ℕ
digit_value c =
    if leb 48 c && leb c 57
    then some (c - 48)
    else if leb 65 c && leb c 70
    then some (c - 55)
    else if leb 97 c && leb c 102
    then some (c - 87)
    else none

-- The digits that follow a number.
unfoldable pub hex_value : ℕ → List ℕ → Option ℕ
hex_value n [] = some n
hex_value n (c ∷ cs) = elim (digit_value c) [ none ↦ none | some d ↦ hex_value (n * 16 + d) cs ]

unfoldable pub hex_number : List ℕ → Option ℕ
unfolding hex_value
hex_number [] = none
hex_number (c ∷ cs) = hex_value 0 (c ∷ cs)

-- strconv.ParseInt(s, 16, 0) of at most four bytes: an optional sign, and digits. With a minus sign the
-- number is the opposite of the one given.
pub record Signed : Type 0 where
  pub negative : Bool
  pub magnitude : ℕ

abbrev pub signed : Bool → Option ℕ → Option Signed
signed minus none = none
signed minus (some n) = some (record { negative = minus; magnitude = n })

unfoldable pub parse_int : List ℕ → Option Signed
unfolding hex_number
parse_int [] = none
parse_int (c ∷ cs) =
    if c == 45
    then signed true (hex_number cs)
    else if c == 43
    then signed false (hex_number cs)
    else signed false (hex_number (c ∷ cs))

-- The part before the first `b`, and the rest from it on.
unfoldable pub span_to : ℕ → List ℕ → List ℕ × List ℕ
span_to b [] = ([], [])
span_to b (c ∷ cs) =
    let (before, rest) = span_to b cs in if c == b then ([], c ∷ cs) else (c ∷ before, rest)

abbrev pub add_device : Device → Result (List Device) → Result (List Device)
add_device d (ok ds) = ok (d ∷ ds)
add_device d (err e) = err e
add_device d panic = panic

-- One entry, with the bytes from its tab on. Without a tab both its ends lie beyond the body, and the
-- second slice panics.
unfoldable pub device_entry : List ℕ → Device → Result (List Device) → Result (List Device)
device_entry [] d others = panic
device_entry (_ ∷ _) d others = add_device d others

-- The loop of `DeviceList`, of at most `fuel` rounds, from the byte at `lastIndex` on. An entry ends at a
-- newline or with the body.
unfoldable pub parse_devices : ℕ → List ℕ → Result (List Device)
unfolding device_entry
parse_devices zero body = ok []
parse_devices (suc fuel) [] = ok []
parse_devices (suc fuel) (c ∷ cs) =
    let (id, after_id) = span_to 9 (c ∷ cs) in
    let (kind, after_kind) = span_to 10 (drop 1 after_id) in
    device_entry after_id (record { id = id; kind = kind }) (parse_devices fuel (drop 1 after_kind))

unfoldable pub send_command : List ℕ → M NetConn ℕ
unfolding format_length
send_command command = transmit (format_length (length command) ++ command)

-- `make([]byte, responseLength)` panics on a negative length.
unfoldable pub read_body : Option Signed → M NetConn (List ℕ)
read_body none = fail invalid_number
read_body (some n) =
    if n.negative && not (n.magnitude == 0)
    then lift panic
    else if ltb max_smart_socket_response_size n.magnitude
    then fail (data_too_long n.magnitude max_smart_socket_response_size)
    else receive n.magnitude

unfoldable pub read_response : M NetConn (List ℕ)
unfolding parse_int read_body
read_response = do digits ← receive 4; read_body (parse_int digits)

unfoldable pub check_status : List ℕ → M NetConn (Unit {0})
unfolding read_response
check_status status =
    if bytes_eq status response_okay then pure tt else do body ← read_response; fail (other body)

unfoldable pub check_result : M NetConn (Unit {0})
unfolding check_status
check_result = do status ← receive 4; check_status status

unfoldable pub request_response : List ℕ → M NetConn (List ℕ)
unfolding send_command check_result read_response
request_response command = do n ← send_command command; u ← check_result; read_response

-- What is left of the connection, if there was one, and the result.
abbrev pub Outcome : Type 0 → Type 0
Outcome A = Option NetConn × Result A

-- `defer conn.Close()`.
abbrev pub close_always : {A : Type 0} → NetConn × Result A → Outcome A
close_always (conn, r) = (some (close_conn conn), r)

unfoldable pub execute_command : List ℕ → Result NetConn → Outcome (List ℕ)
unfolding request_response close_conn
execute_command command (ok conn) = close_always (request_response command conn)
execute_command command (err e) = (none, err e)
execute_command command panic = (none, panic)

abbrev pub then_devices : Outcome (List ℕ) → Outcome (List Device)
then_devices (c, ok body) = (c, parse_devices (length body) body)
then_devices (c, err e) = (c, err e)
then_devices (c, panic) = (c, panic)

unfoldable pub device_list : Result NetConn → Outcome (List Device)
unfolding execute_command
device_list dialled = then_devices (execute_command (ascii "host:devices") dialled)

abbrev pub only_error : Outcome (List ℕ) → Outcome (Unit {0})
only_error (c, ok _) = (c, ok tt)
only_error (c, err e) = (c, err e)
only_error (c, panic) = (c, panic)

unfoldable pub connect : List ℕ → Result NetConn → Outcome (Unit {0})
unfolding execute_command
connect serial dialled = only_error (execute_command (ascii "host:connect:" ++ serial) dialled)

unfoldable pub disconnect : List ℕ → Result NetConn → Outcome (Unit {0})
unfolding execute_command
disconnect serial dialled =
    only_error (execute_command (ascii "host:disconnect:" ++ serial) dialled)

unfoldable pub select_transport : List ℕ → M NetConn (Unit {0})
unfolding send_command check_result
select_transport serial = do n ← send_command (ascii "host:transport:" ++ serial); check_result

-- The connection is closed on an error, and handed out open on success.
abbrev pub close_on_error : NetConn × Result (Unit {0}) → Outcome (Unit {0})
close_on_error (conn, ok u) = (some conn, ok u)
close_on_error (conn, err e) = (some (close_conn conn), err e)
close_on_error (conn, panic) = (some conn, panic)

unfoldable pub transport : List ℕ → Result NetConn → Outcome (Unit {0})
unfolding select_transport close_conn
transport serial (ok conn) = close_on_error (select_transport serial conn)
transport serial (err e) = (none, err e)
transport serial panic = (none, panic)

unfoldable pub open_service : List ℕ → List ℕ → M NetConn (Unit {0})
unfolding select_transport send_command check_result
open_service serial service = do u ← select_transport serial; n ← send_command service; check_result

unfoldable pub open_stream : List ℕ → List ℕ → Result NetConn → Outcome (Unit {0})
unfolding open_service close_conn
open_stream serial service (ok conn) = close_on_error (open_service serial service conn)
open_stream serial service (err e) = (none, err e)
open_stream serial service panic = (none, panic)
