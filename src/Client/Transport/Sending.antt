-- ===== src/Client/Transport/Sending.antt =====
-- What the requests of client/transportLayer/client.go put on the wire, and what its reader takes off it.
use adb_remote.Prelude.{
  ap, ℕ, ◌+◌, ◌%◌, ◌≤◌, ◌≡◌, refl, false, List, [], ◌∷◌, ◌++◌, length, drop, ok, arith, u64,
  put_uint32, uint32-put, slice_at, ◌==◌, ==_refl, ==_iff, Bool-cases, inl, inr, M,
}
use adb_remote.Protocol.Message.{TransporterMessage, create_transporter_message, bytes, wire_size}
use adb_remote.Protocol.Wire.Frames.{framed, wire, after_write, write_lem}
use adb_remote.Protocol.Wire.Read.{IsMessage, read_lem}
use adb_remote.Pool.{ObjectPool, obtain, contents_of, dispose}
use adb_remote.Transporter.Connection.{put_contents}
use adb_remote.Transporter.Connection.Sending.{
  obtained, contents_of-obtain, AllMessages, obtained-IsMessage, put_contents-AllMessages,
  obtain-AllMessages,
}
use adb_remote.Transporter.Connection.Reading.{contents_of-put}
use adb_remote.Client.Transport.{
  Client, outgoing, incoming, record_capture, written, write_message, dispose_message,
  write_if_built, apply_message, with_message, read_contents, received, deliver, read_round,
}

bytes_lem :
    (c : ℕ) (bs rest : List ℕ) → length bs ≤ 61440 → bytes (framed c bs rest) ≡ ok (wire c bs)
unfolding bytes put_uint32
bytes_lem c bs rest fits =
    rw (uint32-put (length bs) (omega arith))
      (slice_at [] (wire c bs) rest 0 ((12 + length bs) % 4294967296) refl (omega arith))

wire_size_lem :
    (c : ℕ) (bs rest : List ℕ) → length bs ≤ 61440 → wire_size (framed c bs rest) ≡ 12 + length bs
unfolding wire_size
wire_size_lem c bs rest fits = rw (uint32-put (length bs) (omega arith)) (omega arith)

write_message_lem :
    (c : ℕ) (bs rest : List ℕ) (cl : Client)
    → length bs ≤ 61440
    → 12 + length bs ≤ cl.writer.room
    → write_message (framed c bs rest) cl ≡ (
      record cl {
        writer = after_write c bs cl.writer;
        bytes_sent = u64 (cl.bytes_sent + (12 + length bs));
        captured = (outgoing, wire c bs) ∷ cl.captured;
      },
      ok tt,
    )
unfolding write_message written record_capture
write_message_lem c bs rest cl fits room =
    rw
      (
        write_lem c bs rest cl.writer fits room,
        bytes_lem c bs rest fits,
        wire_size_lem c bs rest fits,
      )
      refl

dispose-contents :
    (r : ℕ) (p : ObjectPool TransporterMessage) (q : ℕ)
    → ((dispose r p).0.store q).contents ≡ (p.store q).contents
unfolding dispose
dispose-contents r p q = elim (Bool-cases (q == r)) [
  | inl e ↦
      let same = (==_iff q r).0 e in
      ground (arith, same, e, ap (λ (k : ℕ). (p.store k).contents) same)
  | inr e ↦ ground (arith, e)
]

-- Disposing a container changes no message.
pub dispose-AllMessages :
    (r : ℕ) (p : ObjectPool TransporterMessage) → AllMessages p → AllMessages (dispose r p).0
dispose-AllMessages r p all q = rw (dispose-contents r p q) (all q)

-- The pool after a message was obtained, filled and disposed.
abbrev pub used : TransporterMessage → ObjectPool TransporterMessage → ObjectPool TransporterMessage
used m p = let (q, r) = obtain create_transporter_message p in (dispose r (put_contents r m q)).0

pub used-AllMessages :
    (m : TransporterMessage) (p : ObjectPool TransporterMessage)
    → IsMessage m
    → AllMessages p
    → AllMessages (used m p)
used-AllMessages m p v all =
    let (q, r) = obtain create_transporter_message p in
    dispose-AllMessages r (put_contents r m q)
      (put_contents-AllMessages r m q v (obtain-AllMessages p all))

-- A request whose message is built, and has room on the connection.
pub with_message_lem :
    (build : M TransporterMessage (Unit {0})) (c : ℕ) (bs rest : List ℕ) (cl : Client)
    → build (obtained cl.pool) ≡ (framed c bs rest, ok tt)
    → length bs ≤ 61440
    → 12 + length bs ≤ cl.writer.room
    → with_message build cl ≡ (
      record cl {
        pool = used (framed c bs rest) cl.pool;
        writer = after_write c bs cl.writer;
        bytes_sent = u64 (cl.bytes_sent + (12 + length bs));
        captured = (outgoing, wire c bs) ∷ cl.captured;
      },
      ok tt,
    )
unfolding with_message apply_message write_if_built dispose_message
with_message_lem build c bs rest cl e fits room =
    let (p, r) = obtain create_transporter_message cl.pool in
    let sent =
      write_message_lem c bs rest (record cl { pool = put_contents r (framed c bs rest) p }) fits
        room in
    rw (contents_of-obtain cl.pool, apply_message, e, sent) refl

-- The container that a round of the reader delivers, and the message in it.
pub read_round_lem :
    (c : ℕ) (bs more : List ℕ) (cl : Client)
    → AllMessages cl.pool
    → cl.input ≡ wire c bs ++ more
    → length bs ≤ 61440
    → let (p, r) = obtain create_transporter_message cl.pool in
      let m = framed c bs (drop (length bs) (obtained cl.pool).payload_buffer) in
      (read_round false cl ≡ (
        record cl {
          pool = put_contents r m p;
          input = more;
          bytes_received = u64 (cl.bytes_received + (12 + length bs));
          captured = (incoming, wire c bs) ∷ cl.captured;
        },
        ok r,
      ))
      × (contents_of r (put_contents r m p) ≡ ok m)
unfolding read_round read_contents received deliver record_capture
read_round_lem c bs more cl all input fits =
    let (p, r) = obtain create_transporter_message cl.pool in
    let m = framed c bs (drop (length bs) (obtained cl.pool).payload_buffer) in
    let opened = contents_of-obtain cl.pool in
    let reads = read_lem (obtained cl.pool) c bs more (obtained-IsMessage cl.pool all) fits in
    let behind = drop (length bs) (obtained cl.pool).payload_buffer in
    let same : ((put_contents r m p).store r).contents ≡ m = ground (arith, ==_refl r) in
    (
      rw (opened, input, reads, same, wire_size_lem c bs behind fits, bytes_lem c bs behind fits)
          refl,
      contents_of-put r m (obtained cl.pool) p opened,
    )
