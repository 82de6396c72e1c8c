-- ===== src/Transporter/Connection/Handshake/Answers.antt =====
-- How the handshake of clientConnection.go answers a client that connects, by its version.
use Prim.Native.Nat.{zero, suc, ◌/◌, ◌%◌}
use adb_remote.Prelude.{
  length-append, decimal_digits, ascii, ℕ, ◌+◌, ◌≤◌, ◌<◌, ◌≡◌, refl, ◌≢◌, Bool, true, false, List,
  [], ◌∷◌, ◌++◌, length, drop, length-drop, ok, err, panic, arith, ==_refl, uint32-put, M, Result,
  ◌>>◌, put_uint32,
}
use adb_remote.Protocol.Constants.{command_connect, error_protocol_not_supported}
use adb_remote.Protocol.Message.{
  TransporterMessage, create_transporter_message, command, set_response_command,
}
use adb_remote.Protocol.Payload.{
  PayloadError, get_payload_connect, PayloadConnectResponse, set_payload_connect_response,
}
use adb_remote.Protocol.Payload.Stores.{
  fields_error, fields_connect_response, set_payload_connect_response-Sets,
}
use adb_remote.Protocol.Payload.Loads.{get_payload_connect-Gets}
use adb_remote.Protocol.Fields.Sequence.{encode, length-encode}
use adb_remote.Protocol.Wire.Frames.{framed, wire, after_write}
use adb_remote.Protocol.Wire.Read.{IsMessage, read_lem}
use adb_remote.Pool.{obtain}
use adb_remote.Transporter.Connection.{
  Connection, send_error_response, internal_close, finish, build_and_write, put_contents, read_into,
}
use adb_remote.Transporter.Connection.Sending.{
  obtain-AllMessages, put_contents-AllMessages, send_error_response_lem, obtained,
  contents_of-obtain, AllMessages, build_and_write_lem, obtained-IsMessage, typed_framed,
}
use adb_remote.Transporter.Connection.Handshake.{
  handle_connect_handshake, handle_connect_payload, handshake_read, handshake_obtained,
  perform_handshake, answered, connect_response, mismatch_text, closed_after,
  handle_protocol_mismatch_error,
}

payload_accepted :
    (id : List ℕ) (r : ℕ) (m : TransporterMessage) (version : ℕ) (cc : Connection)
    → version ≡ 1
    → handle_connect_payload id r m (ok (record { protocol_version = version })) cc
      ≡ answered (build_and_write (connect_response id) r (ok m) (record cc { client_id = id }))
unfolding handle_connect_payload
payload_accepted id r m version cc same = rw same refl

payload_refused :
    (id : List ℕ) (r : ℕ) (m : TransporterMessage) (version : ℕ) (cc : Connection)
    → version ≢ 1
    → handle_connect_payload id r m (ok (record { protocol_version = version })) cc
      ≡ handle_protocol_mismatch_error version cc
unfolding handle_connect_payload
payload_refused id r m version cc other = ground arith

mismatch_closes :
    (version : ℕ) (cc : Connection)
    → let (cc', done) =
        send_error_response command_connect error_protocol_not_supported
          (mismatch_text version)
          cc in
      done ≡ ok tt
      → handle_protocol_mismatch_error version cc ≡ (record cc' { closed = true }, ok false)
unfolding handle_protocol_mismatch_error closed_after internal_close
mismatch_closes version cc done = rw done refl

length-decimal_digits : (fuel n : ℕ) → length (decimal_digits fuel n) ≤ fuel
length-decimal_digits zero n = omega arith
length-decimal_digits (suc fuel) n = ground (
  arith,
  length-decimal_digits fuel (n / 10),
  length-append (decimal_digits fuel (n / 10)) ((n % 10 + 48) ∷ []),
)

pub length-mismatch_text : (version : ℕ) → length (mismatch_text version) ≤ 61
length-mismatch_text version = omega (
  arith,
  length-decimal_digits 10 version,
  length-append (ascii ", client: ") (decimal_digits 10 version),
)

module _ (cc : Connection) (all : AllMessages cc.pool) (more : List ℕ) (version : ℕ)
    (word : version < 4294967296) (input : cc.input ≡ wire 1 (put_uint32 version) ++ more) where
  abbrev held : TransporterMessage
  held = framed 1 (put_uint32 version) (drop 4 (obtained cc.pool).payload_buffer)

  abbrev reference : ℕ
  reference = (obtain create_transporter_message cc.pool).1

  abbrev received : Connection
  received = record cc {
    pool = put_contents reference held (obtain create_transporter_message cc.pool).0;
    input = more;
  }

  put-contents : (received.pool.store reference).contents ≡ held
  put-contents = ground (arith, ==_refl reference)

  held_size : length held.payload_buffer ≡ 61440
  unfolding put_uint32
  held_size = omega (
    arith,
    length-drop 4 (obtained cc.pool).payload_buffer,
    (obtained-IsMessage cc.pool all).buffer_size,
  )

  is_connect : command held ≡ 1
  is_connect = uint32-put 1 (omega arith)

  payload_of : get_payload_connect held ≡ (held, ok (record { protocol_version = version }))
  unfolding put_uint32 adb_remote.Prelude.uint32
  payload_of =
      get_payload_connect-Gets (record { protocol_version = version }) word held
        (record {
          rest = drop 4 (obtained cc.pool).payload_buffer;
          buffer = refl;
          declared = refl;
          fits = omega arith;
        })

  -- The handshake comes down to the handling of the version.
  handshake_received :
      (id : List ℕ)
      → perform_handshake id cc
        ≡ finish reference (
            handle_connect_payload id reference held
              (ok (record { protocol_version = version }))
              received)
  unfolding perform_handshake handshake_obtained handshake_read read_into handle_connect_handshake
      put_uint32
  handshake_received id =
      let reads =
        read_lem (obtained cc.pool) 1 (put_uint32 version) more (obtained-IsMessage cc.pool all)
          (omega arith) in
      rw (contents_of-obtain cc.pool, handshake_obtained, input, reads)
        (rw (put-contents, is_connect, payload_of))

  -- A client that connects with the transporter's version gets its id in the response, if the id
  -- fits in the message and on the connection. The connection has the id, is no more closed than
  -- before, and the rest of its input is unread.
  pub handshake_accepted :
      (id : List ℕ)
      → version ≡ 1
      → 4 + length id ≤ 61440
      → 16 + length id ≤ cc.writer.room
      → let (cc', r) = perform_handshake id cc in
        let answer : PayloadConnectResponse = record { client_id = id } in
        (r ≡ ok true)
        × (cc'.client_id ≡ id)
        × (cc'.closed ≡ cc.closed)
        × (cc'.input ≡ more)
        × (cc'.writer ≡ after_write 0x1001 (encode [] (fields_connect_response answer)) cc.writer)
  unfolding answered finish set_response_command
  handshake_accepted id same fits room =
      let answer : PayloadConnectResponse = record { client_id = id } in
      let fs = fields_connect_response answer in
      let long = length-encode [] fs in
      let (rest, built, _) =
        typed_framed (set_payload_connect_response answer) fs 0x1001 held
          (set_payload_connect_response-Sets answer) held_size (omega arith, tt) (omega arith) in
      let r = reference in
      let opened : Connection = record received { client_id = id } in
      let written =
        build_and_write_lem (connect_response id) 0x1001 (encode [] fs) rest r held opened built
          (omega (arith, long)) (omega (arith, long)) in
      rw (handshake_received id, payload_accepted id r held version received same, written)
        (refl, refl, refl, refl, refl)

  -- A client that connects with any other 32-bit version is sent an error with the two versions,
  -- if the connection takes 81 bytes, and is closed.
  pub handshake_refused :
      (id : List ℕ)
      → version ≢ 1
      → 81 ≤ cc.writer.room
      → let (cc', r) = perform_handshake id cc in
        let answer : PayloadError = record {
          error_code = 1;
          error_message = mismatch_text version;
        } in
        (r ≡ ok false)
        × (cc'.closed ≡ true)
        × (cc'.writer ≡ after_write 0x2001 (encode [] (fields_error answer)) cc.writer)
  unfolding finish
  handshake_refused id other room =
      let r = reference in
      let text = mismatch_text version in
      let short = length-mismatch_text version in
      let valid : IsMessage held = record {
        header_size = unfold put_uint32 in refl;
        buffer_size = held_size;
      } in
      let all' =
        put_contents-AllMessages r held (obtain create_transporter_message cc.pool).0 valid
          (obtain-AllMessages cc.pool all) in
      let (sent, bytes) =
        send_error_response_lem received all' 1 1 text (omega arith) (omega (arith, short))
          (omega (arith, short)) in
      rw
        (
          handshake_received id,
          payload_refused id r held version received other,
          mismatch_closes version received sent,
        )
        (refl, refl, bytes)
