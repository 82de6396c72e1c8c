-- ===== src/Protocol/Wire/Frames.antt =====
-- What `Write` puts on the wire (message.definition.go).
use adb_remote.Prelude.{
  ℕ, ◌<◌, ◌+◌, ◌-◌, ◌≤◌, ◌≡◌, refl, List, [], ◌∷◌, ◌++◌, length, put_uint32, ok, panic, slice,
  arith, append_assoc, append-nil, uint32-put, slice_at,
}
use adb_remote.Protocol.Crc.{checksum_ieee}
use adb_remote.Protocol.Message.{
  header_buffer, payload_length, TransporterMessage, Writer, write, write_body, write_bytes,
}

-- A message with command `c` and payload `bs`, and the bytes that stand behind it in the buffer.
abbrev pub framed : ℕ → List ℕ → List ℕ → TransporterMessage
framed c bs rest = record {
  command_buffer = put_uint32 c;
  payload_length_buffer = put_uint32 (length bs);
  payload_crc32_buffer = put_uint32 (checksum_ieee bs);
  payload_buffer = bs ++ rest;
}

abbrev pub wire_header : ℕ → List ℕ → List ℕ
wire_header c bs = put_uint32 c ++ put_uint32 (length bs) ++ put_uint32 (checksum_ieee bs)

-- The bytes of such a message.
abbrev pub wire : ℕ → List ℕ → List ℕ
wire c bs = wire_header c bs ++ bs

pub length-wire_header : (c : ℕ) (bs : List ℕ) → length (wire_header c bs) ≡ 12
unfolding put_uint32
length-wire_header c bs = refl

pub write_bytes_lem :
    (bs : List ℕ) (w : Writer)
    → length bs ≤ w.room
    → write_bytes bs w ≡ (record { out = w.out ++ bs; room = w.room - length bs }, ok (length bs))
unfolding write_bytes
write_bytes_lem bs w h = ground arith

write_body_lem :
    (c : ℕ) (bs rest : List ℕ) (w : Writer)
    → length bs ≤ w.room
    → write_body (length bs) (framed c bs rest) w
      ≡ (record { out = w.out ++ bs; room = w.room - length bs }, ok tt)
unfolding write_body
write_body_lem c bs rest w h =
    rw (slice_at [] bs rest 0 (length bs) refl (omega arith), write_bytes_lem bs w h) (ground arith)

abbrev pub after_write : ℕ → List ℕ → Writer → Writer
after_write c bs w = record { out = w.out ++ wire c bs; room = w.room - 12 - length bs }

-- `Write` with room for it puts exactly the header and the payload out.
pub write_lem :
    (c : ℕ) (bs rest : List ℕ) (w : Writer)
    → length bs ≤ 61440
    → 12 + length bs ≤ w.room
    → write (framed c bs rest) w ≡ (after_write c bs w, ok tt)
unfolding write
write_lem c [] rest w h k =
    rw (append-nil (wire_header c []))
      (ground (arith, length-wire_header c [], write_bytes_lem (wire_header c []) w, uint32-put 0))
write_lem c (b ∷ bs) rest w h k =
    let head = wire_header c (b ∷ bs) in
    rw (← append_assoc w.out head (b ∷ bs)) (
      ground (
        arith,
        length-wire_header c (b ∷ bs),
        write_bytes_lem head w,
        uint32-put (length {A = ℕ} (b ∷ bs)),
        write_body_lem c (b ∷ bs) rest (record { out = w.out ++ head; room = w.room - 12 }),
      ))

-- A message that declares more than its buffer holds makes `Write` panic, once the header is out.
pub write_overlong :
    (m : TransporterMessage) (w : Writer)
    → length m.payload_buffer < payload_length m
    → length (header_buffer m) ≤ w.room
    → (write m w).1 ≡ panic
unfolding write write_body slice
write_overlong m w large room = ground (arith, write_bytes_lem (header_buffer m) w)
