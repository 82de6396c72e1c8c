-- ===== src/Client/Relay/Verbatim.antt =====
-- An ADB message that one side of client/relay/relay.go takes from its local connection reaches the other's.
use adb_remote.Prelude.{
  ℕ, ◌+◌, ◌≤◌, ◌≡◌, refl, true, List, ◌++◌, length, drop, ok, arith, uint32-put, slice_at, [],
  append-nil,
}
use adb_remote.Protocol.Message.{payload}
use adb_remote.Protocol.Wire.Frames.{framed, wire, after_write, write_bytes_lem}
use adb_remote.Transporter.Connection.Sending.{obtained, AllMessages}
use adb_remote.Client.AdbMessage as Adb
use adb_remote.Client.AdbMessage.{is_command}
use adb_remote.Client.AdbMessage.Frames as Frames
use adb_remote.Client.AdbMessage.Exchange.{read_lem, decode_lem, length-packet}
use adb_remote.Client.Transport.Sending.{read_round_lem}
use adb_remote.Client.Transport.Relaying.{send_adb_message_lem}
use adb_remote.Client.Controller.{next_message}
use adb_remote.Client.Relay.{
  RelayState, dispose_container, after_local, forward_local, decode_payload, handle_incoming,
  remote_round, local_round,
}

payload-framed : (c : ℕ) (bs rest : List ℕ) → length bs ≤ 61440 → payload (framed c bs rest) ≡ ok bs
unfolding payload
payload-framed c bs rest fits =
    rw (uint32-put (length bs) (omega arith)) (slice_at [] bs rest 0 (length bs) refl (omega arith))

-- The round that takes the message from the transporter.
remote_round_lem :
    (s : RelayState) (c a b sum : ℕ) (bs more : List ℕ)
    → AllMessages s.client.pool
    → is_command c ≡ true
    → length bs ≤ 32768
    → 24 + length bs ≤ s.conn.writer.room
    → s.client.input ≡ wire 6 (Frames.packet c a b sum bs) ++ more
    → let s' = (remote_round s).0 in
      (s'.conn.writer.out ≡ s.conn.writer.out ++ Frames.packet c a b sum bs)
      × (s'.client.input ≡ more)
unfolding remote_round handle_incoming forward_local decode_payload after_local dispose_container
    next_message Adb.write
remote_round_lem s c a b sum bs more all valid fits room input =
    let packet = Frames.packet c a b sum bs in
    let long = length-packet c a b sum bs in
    let (round, opened) = read_round_lem 6 packet more s.client all input (omega (arith, long)) in
    let behind = drop (length packet) (obtained s.client.pool).payload_buffer in
    rw
      (
        round,
        handle_incoming,
        opened,
        uint32-put 6 (omega arith),
        payload-framed 6 packet behind (omega (arith, long)),
        decode_lem c a b sum bs valid fits,
        Frames.bytes_lem c a b sum bs [] fits,
        write_bytes_lem packet s.conn.writer (omega (arith, long)),
      )
      (refl, refl)

-- The round that takes the message from the local connection.
pub local_round_lem :
    (s : RelayState) (c a b sum : ℕ) (bs more : List ℕ)
    → AllMessages s.client.pool
    → Frames.IsAdbMessage s.message
    → is_command c ≡ true
    → length bs ≤ 32768
    → 36 + length bs ≤ s.client.writer.room
    → s.conn.input ≡ Frames.packet c a b sum bs ++ more
    → let (s', r) = local_round s in
      (r ≡ ok tt)
      × (s'.conn.input ≡ more)
      × (s'.client.writer ≡ after_write 6 (Frames.packet c a b sum bs) s.client.writer)
unfolding local_round
local_round_lem s c a b sum bs more all v valid fits room input =
    let behind = drop (length bs) s.message.data_buffer in
    let (sent, written, _, _) = send_adb_message_lem s.client c a b sum bs behind all fits room in
    rw (input, read_lem c a b sum bs more s.message v valid fits) (sent, refl, written)

-- A complete ADB message of one of the six commands, with the command's magic number, any word in the place of its
-- checksum and at most 32768 bytes of data, that a pump takes from its local connection is sent in one
-- message, and the pump that reads this from the transporter writes the same bytes to its own local
-- connection; both have read the message and no more. The connections take what is written, and nothing
-- was on the way to the transporter.
pub relayed_verbatim :
    (s t : RelayState) (c a b sum : ℕ) (bs more : List ℕ)
    → AllMessages s.client.pool
    → AllMessages t.client.pool
    → Frames.IsAdbMessage s.message
    → is_command c ≡ true
    → length bs ≤ 32768
    → s.client.writer.out ≡ []
    → 36 + length bs ≤ s.client.writer.room
    → 24 + length bs ≤ t.conn.writer.room
    → s.conn.input ≡ Frames.packet c a b sum bs ++ more
    → t.client.input ≡ (local_round s).0.client.writer.out
    → let (s', r) = local_round s in
      let t' = (remote_round t).0 in
      (r ≡ ok tt)
      × (s'.conn.input ≡ more)
      × (t'.conn.writer.out ≡ t.conn.writer.out ++ Frames.packet c a b sum bs)
      × (t'.client.input ≡ [])
relayed_verbatim s t c a b sum bs more all all' v valid fits new room room' input hears =
    let (sent, read, written) = local_round_lem s c a b sum bs more all v valid fits room input in
    let packet = Frames.packet c a b sum bs in
    let heard : t.client.input ≡ wire 6 packet ++ [] =
      rw (hears, written, new, append-nil (wire 6 packet)) refl in
    let (delivered, rest) = remote_round_lem t c a b sum bs [] all' valid fits room' heard in
    (sent, read, delivered, rest)
