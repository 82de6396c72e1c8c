-- ===== src/Client/Transport/Relaying.antt =====
-- An ADB message on its way to the other participant (client/transportLayer/client.go).
use adb_remote.Prelude.{◌>>◌, ap, ℕ, ◌+◌, ◌≤◌, ◌≡◌, refl, List, ◌∷◌, length, drop, ok, arith, u64}
use adb_remote.Protocol.Message.{set_direct_command}
use adb_remote.Protocol.Payload.Raw.{set_raw_payload_lem}
use adb_remote.Protocol.Wire.Frames.{framed, wire, after_write}
use adb_remote.Transporter.Connection.{set}
use adb_remote.Transporter.Connection.Sending.{obtained, AllMessages, obtained-IsMessage}
use adb_remote.Client.AdbMessage.Exchange.{length-packet}
use adb_remote.Client.AdbMessage.Frames as Adb
use adb_remote.Client.AdbMessage
use adb_remote.Client.Transport.Sending.{with_message_lem}
use adb_remote.Client.Transport.{Client, outgoing, set_adb_bytes, send_adb_message}

-- An ADB message whose data has at most 32768 bytes is written as the payload of one
-- CommandAdbTransport message, if there is room for it, whatever the pooled message held before. The counter
-- of sent bytes grows by the length of the frame, and the frame is captured.
pub send_adb_message_lem :
    (cl : Client) (c a b sum : ℕ) (bs rest : List ℕ)
    → AllMessages cl.pool
    → length bs ≤ 32768
    → 36 + length bs ≤ cl.writer.room
    → let (cl', r) = send_adb_message (Adb.received c a b sum bs rest) cl in
      let payload = Adb.packet c a b sum bs in
      (r ≡ ok tt)
      × (cl'.writer ≡ after_write 6 payload cl.writer)
      × (cl'.bytes_sent ≡ u64 (cl.bytes_sent + (36 + length bs)))
      × (cl'.captured ≡ (outgoing, wire 6 payload) ∷ cl.captured)
unfolding send_adb_message set_adb_bytes set_direct_command
send_adb_message_lem cl c a b sum bs rest all fits room =
    let payload = Adb.packet c a b sum bs in
    let long = length-packet c a b sum bs in
    let m = obtained cl.pool in
    let build =
      set (set_direct_command 6)
      >> set_adb_bytes (AdbMessage.bytes (Adb.received c a b sum bs rest)) in
    let behind = drop (length payload) m.payload_buffer in
    let size = (obtained-IsMessage cl.pool all).buffer_size in
    let stored = set_raw_payload_lem (set_direct_command 6 m) payload size (omega (arith, long)) in
    let built : build m ≡ (framed 6 payload behind, ok tt) =
      rw (Adb.bytes_lem c a b sum bs rest fits, stored) refl in
    let sent =
      with_message_lem build 6 payload behind cl built (omega (arith, long))
        (omega (arith, long)) in
    let grown : 12 + length payload ≡ 36 + length bs = omega (arith, long) in
    rw sent (refl, refl, ap (λ n. u64 (cl.bytes_sent + n)) grown, refl)
