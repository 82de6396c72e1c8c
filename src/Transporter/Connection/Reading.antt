-- ===== src/Transporter/Connection/Reading.antt =====
-- What readNextMessage of clientConnection.go takes off a connection on which a message arrives.
use adb_remote.Prelude.{ℕ, ◌≤◌, ◌≡◌, refl, List, ◌++◌, length, drop, ok, arith, ==_refl}
use adb_remote.Protocol.Message.{TransporterMessage, create_transporter_message}
use adb_remote.Protocol.Wire.Frames.{framed, wire}
use adb_remote.Protocol.Wire.Read.{read_lem}
use adb_remote.Pool.{ObjectPool, obtain, contents_of}
use adb_remote.Transporter.Connection.{
  Connection, put_contents, read_into, after_read, read_obtained, read_next_message,
}
use adb_remote.Transporter.Connection.Sending.{
  obtained, contents_of-obtain, AllMessages, obtained-IsMessage,
}

pub contents_of-put :
    (r : ℕ) (m x : TransporterMessage) (p : ObjectPool TransporterMessage)
    → contents_of r p ≡ ok x
    → contents_of r (put_contents r m p) ≡ ok m
unfolding contents_of
contents_of-put r m x p h = ground (arith, ==_refl r)

-- The container that is delivered, and the message in it.
pub read_next_message_lem :
    (c : ℕ) (bs more : List ℕ) (cc : Connection)
    → AllMessages cc.pool
    → cc.input ≡ wire c bs ++ more
    → length bs ≤ 61440
    → let (p, r) = obtain create_transporter_message cc.pool in
      let m = framed c bs (drop (length bs) (obtained cc.pool).payload_buffer) in
      (read_next_message cc ≡ (record cc { pool = put_contents r m p; input = more }, ok r))
      × (contents_of r (put_contents r m p) ≡ ok m)
unfolding read_next_message read_obtained read_into after_read
read_next_message_lem c bs more cc all input fits =
    let (p, r) = obtain create_transporter_message cc.pool in
    let m = framed c bs (drop (length bs) (obtained cc.pool).payload_buffer) in
    let opened = contents_of-obtain cc.pool in
    let reads = read_lem (obtained cc.pool) c bs more (obtained-IsMessage cc.pool all) fits in
    (rw (opened, input, reads) refl, contents_of-put r m (obtained cc.pool) p opened)
