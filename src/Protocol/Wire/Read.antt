-- ===== src/Protocol/Wire/Read.antt =====
-- `Read`: it takes a whole frame off the stream, and whatever the stream holds it stays within its
-- buffer and lets no payload through whose declared CRC is not that of the payload.
use adb_remote.Prelude.{
  ℕ, ◌≤◌, ◌≡◌, refl, List, [], ◌∷◌, ◌++◌, length, drop, put_uint32, ok, arith, append_assoc,
  append-nil, length-append, uint32-put, slice_at, slice_within, overwrite_all, length-replicate,
  take-append, drop-append, overwrite_at,
}
use adb_remote.Protocol.Constants.{max_payload_size}
use adb_remote.Protocol.Crc.{checksum_ieee, checksum_ieee-lt}
use adb_remote.Protocol.Message.{
  TransporterMessage, create_transporter_message, read_full, load_header, read_header, read_payload,
  read_body, read, header_buffer,
}
use adb_remote.Protocol.Wire.Frames.{framed, wire_header, wire}

pub read_full_lem :
    (n : ℕ) (xs ys : List ℕ) → length xs ≡ n → read_full n (xs ++ ys) ≡ (xs, ys, ok n)
unfolding read_full
read_full_lem n xs ys e =
    ground (arith, length-append xs ys, take-append xs ys n e, drop-append xs ys n e)

-- A message's parts have the sizes that its constructor gives them.
pub record IsMessage (m : TransporterMessage) : Type 0 where
  pub header_size : length (header_buffer m) ≡ 12
  pub buffer_size : length m.payload_buffer ≡ 61440

load_header_lem :
    (m : TransporterMessage) (c n crc : ℕ)
    → length (header_buffer m) ≡ 12
    → load_header (put_uint32 c ++ put_uint32 n ++ put_uint32 crc) m ≡ record m {
      command_buffer = put_uint32 c;
      payload_length_buffer = put_uint32 n;
      payload_crc32_buffer = put_uint32 crc;
    }
unfolding load_header put_uint32
load_header_lem m c n crc h =
    rw (
      overwrite_all (put_uint32 c ++ put_uint32 n ++ put_uint32 crc) (header_buffer m)
        (omega arith))

pub read_header_lem :
    (m : TransporterMessage) (c n crc : ℕ) (more : List ℕ)
    → length (header_buffer m) ≡ 12
    → read_header
        (record { message = m; input = put_uint32 c ++ put_uint32 n ++ put_uint32 crc ++ more })
      ≡ (
        record {
          message = record m {
            command_buffer = put_uint32 c;
            payload_length_buffer = put_uint32 n;
            payload_crc32_buffer = put_uint32 crc;
          };
          input = more;
        },
        ok 12,
      )
unfolding read_header
read_header_lem m c n crc more h = rw (
  read_full_lem 12 (put_uint32 c ++ put_uint32 n ++ put_uint32 crc) more
      (unfold put_uint32 in refl),
  load_header_lem m c n crc h,
)

-- A frame of another message's command and payload, read into `m`.
pub read_body_lem :
    (c : ℕ) (bs old more : List ℕ)
    → length bs ≤ length old
    → read_body
        (length bs)
        (record { message = record (framed c bs []) { payload_buffer = old }; input = bs ++ more })
      ≡ (record { message = framed c bs (drop (length bs) old); input = more }, ok tt)
unfolding read_body read_payload
read_body_lem c bs old more h =
    rw
      (
        slice_within 0 (length bs) old (omega arith) h,
        read_full_lem (length bs) bs more refl,
        overwrite_at [] bs old 0 refl,
      )
      (ground (
        arith,
        slice_at [] bs (drop (length bs) old) 0 (length bs) refl,
        uint32-put (checksum_ieee bs) (checksum_ieee-lt bs),
      ))

-- `Read` takes exactly one frame, and leaves what was in the payload buffer behind the payload.
pub read_lem :
    (m : TransporterMessage) (c : ℕ) (bs more : List ℕ)
    → IsMessage m
    → length bs ≤ 61440
    → read (record { message = m; input = wire c bs ++ more })
      ≡ (record { message = framed c bs (drop (length bs) m.payload_buffer); input = more }, ok tt)
unfolding read
read_lem m c [] more v h =
    rw (append-nil (wire_header c []), read_header_lem m c 0 (checksum_ieee []) more v.header_size)
      (ground (arith, uint32-put 0))
read_lem m c (b ∷ bs) more v h =
    rw
      (
        append_assoc (wire_header c (b ∷ bs)) (b ∷ bs) more,
        read_header_lem m c (length {A = ℕ} (b ∷ bs)) (checksum_ieee (b ∷ bs)) (b ∷ bs ++ more)
            v.header_size,
      )
      (ground (
        arith,
        v.buffer_size,
        uint32-put (length {A = ℕ} (b ∷ bs)),
        read_body_lem c (b ∷ bs) m.payload_buffer more,
      ))

-- A new message has buffers of these sizes.
pub create_transporter_message-IsMessage : IsMessage create_transporter_message
unfolding create_transporter_message
create_transporter_message-IsMessage = record {
  header_size = refl;
  buffer_size = length-replicate {A = ℕ} max_payload_size 0;
}
