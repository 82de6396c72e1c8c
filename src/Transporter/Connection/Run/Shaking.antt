-- ===== src/Transporter/Connection/Run/Shaking.antt =====
-- How much the handshake of clientConnection.go reads, and what it leaves of the connection.
use adb_remote.Prelude.{
  ℕ, ◌+◌, ◌≤◌, ◌≡◌, refl, ap, Bool, true, false, List, length, Result, ok, err, panic, M,
  if◌then◌else◌, ◌==◌, arith,
}
use adb_remote.Protocol.Constants.{command_connect, protocol_version}
use adb_remote.Protocol.Message.{TransporterMessage, create_transporter_message, command}
use adb_remote.Protocol.Payload.{PayloadConnect, get_payload_connect}
use adb_remote.Protocol.Wire.Progress.{read_takes}
use adb_remote.Pool.{obtain, contents_of}
use adb_remote.Transporter.Connection.{
  Connection, internal_close, finish, build_and_write, write_built, send_built, send_error_response,
  put_contents, read_into,
}
use adb_remote.Transporter.Connection.Handshake.{
  perform_handshake, handshake_obtained, handshake_read, handle_connect_handshake,
  handle_connect_payload, handle_protocol_mismatch_error, closed_after, answered, connect_response,
}

-- A handshake that fails has closed the connection, but for a panic.
abbrev pub Shakes : ℕ → Connection × Result Bool → Type 0
Shakes n (cc, ok true) = 12 + length cc.input ≤ n
Shakes n (cc, ok false) = (length cc.input ≤ n) × (cc.closed ≡ true)
Shakes n (cc, err e) = ⊥
Shakes n (cc, panic) = length cc.input ≤ n

-- Writing leaves the input as it was.
write_built-input :
    (m : TransporterMessage) (r : Result (Unit {0})) (cc : Connection)
    → (write_built m r cc).0.input ≡ cc.input
unfolding write_built
write_built-input m (ok u) cc = refl
write_built-input m (err e) cc = refl
write_built-input m panic cc = refl

build_and_write-input :
    (build : M TransporterMessage (Unit {0})) (r : ℕ) (m : Result TransporterMessage)
    (cc : Connection)
    → (build_and_write build r m cc).0.input ≡ cc.input
unfolding build_and_write
build_and_write-input build r (ok m) cc =
    let (m', built) = build m in
    write_built-input m' built (record cc { pool = put_contents r m' cc.pool })
build_and_write-input build r (err e) cc = refl
build_and_write-input build r panic cc = refl

send_error_response-input :
    (c code : ℕ) (text : List ℕ) (cc : Connection)
    → (send_error_response c code text cc).0.input ≡ cc.input
unfolding send_error_response send_built finish
send_error_response-input c code text cc =
    let (p, r) = obtain create_transporter_message cc.pool in
    build_and_write-input _ r (contents_of r p) (record cc { pool = p })

closed_after-Shakes :
    (n : ℕ) (x : Connection × Result (Unit {0})) → length x.0.input ≤ n → Shakes n (closed_after x)
unfolding closed_after internal_close
closed_after-Shakes n (cc, ok u) h = (h, refl)
closed_after-Shakes n (cc, err e) h = (h, refl)
closed_after-Shakes n (cc, panic) h = h

answered-Shakes :
    (n : ℕ) (x : Connection × Result (Unit {0})) → 12 + length x.0.input ≤ n → Shakes n (answered x)
unfolding answered internal_close
answered-Shakes n (cc, ok u) h = h
answered-Shakes n (cc, err e) h = (omega arith, refl)
answered-Shakes n (cc, panic) h = omega arith

either-Shakes :
    (n : ℕ) (b : Bool) (x y : Connection × Result Bool)
    → Shakes n x
    → Shakes n y
    → Shakes n (if b then x else y)
either-Shakes n true x y h k = h
either-Shakes n false x y h k = k

handle_connect_payload-Shakes :
    (id : List ℕ) (n r : ℕ) (m : TransporterMessage) (p : Result PayloadConnect) (cc : Connection)
    → 12 + length cc.input ≤ n
    → Shakes n (handle_connect_payload id r m p cc)
unfolding handle_connect_payload handle_protocol_mismatch_error internal_close
handle_connect_payload-Shakes id n r m (ok p) cc h =
    let cc' : Connection = record cc { client_id = id } in
    either-Shakes n (p.protocol_version == protocol_version) _ _
      (answered-Shakes n (build_and_write (connect_response id) r (ok m) cc')
        (omega (arith, h, ap length (build_and_write-input (connect_response id) r (ok m) cc'))))
      (closed_after-Shakes n _ (omega (arith, h, ap length (send_error_response-input _ _ _ cc))))
handle_connect_payload-Shakes id n r m (err e) cc h = (omega arith, refl)
handle_connect_payload-Shakes id n r m panic cc h = omega arith

handshake_read-Shakes :
    (id : List ℕ) (n r : ℕ) (x : Connection × Result (Unit {0}))
    → length x.0.input ≤ n
    → (x.1 ≡ ok tt → 12 + length x.0.input ≤ n)
    → Shakes n (handshake_read id r x)
unfolding handshake_read handle_connect_handshake internal_close
handshake_read-Shakes id n r (cc, ok u) h k =
    let m = (cc.pool.store r).contents in
    either-Shakes n (command m == command_connect) _ _
      (handle_connect_payload-Shakes id n r m (get_payload_connect m).1 cc (k refl)) (h, refl)
handshake_read-Shakes id n r (cc, err e) h k = (h, refl)
handshake_read-Shakes id n r (cc, panic) h k = h

handshake_obtained-Shakes :
    (id : List ℕ) (r : ℕ) (m : Result TransporterMessage) (cc : Connection)
    → Shakes (length cc.input) (handshake_obtained id r m cc)
unfolding handshake_obtained read_into internal_close
handshake_obtained-Shakes id r (ok m) cc =
    let (takes, took) = read_takes (record { message = m; input = cc.input }) in
    handshake_read-Shakes id (length cc.input) r (read_into r m cc) takes took
handshake_obtained-Shakes id r (err e) cc = (omega arith, refl)
handshake_obtained-Shakes id r panic cc = omega arith

finish-Shakes : (n r : ℕ) (x : Connection × Result Bool) → Shakes n x → Shakes n (finish r x)
unfolding finish
finish-Shakes n r (cc, ok true) h = h
finish-Shakes n r (cc, ok false) h = h
finish-Shakes n r (cc, err e) h = h
finish-Shakes n r (cc, panic) h = h

pub perform_handshake-Shakes :
    (id : List ℕ) (cc : Connection) → Shakes (length cc.input) (perform_handshake id cc)
unfolding perform_handshake
perform_handshake-Shakes id cc =
    let (p, r) = obtain create_transporter_message cc.pool in
    finish-Shakes (length cc.input) r _
      (handshake_obtained-Shakes id r (contents_of r p) (record cc { pool = p }))
