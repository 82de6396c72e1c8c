-- ===== src/Client/AdbMessage/Exchange.antt =====
-- An ADB message from end to end: written to a connection and read on the other side, and embedded in
-- another message as bytes and decoded there (client/adb/adbMessage.go).
use Prim.Native.Nat.{bit_xor}
use adb_remote.Prelude.{
  ◌%◌, ge→ltb, le→leb, ℕ, ◌+◌, ◌≤◌, ◌<◌, ◌≡◌, refl, true, List, [], ◌++◌, length, drop, put_uint32,
  uint32-put, ok, arith, Result, overwrite_all, overwrite_at, slice_within, append-nil,
  append_assoc, ==_refl,
}
use adb_remote.Protocol.Message.{Writer}
use adb_remote.Protocol.Exchange.{after}
use adb_remote.Protocol.Wire.Read.{read_full_lem}
use adb_remote.Protocol.Wire.Frames.{write_bytes_lem}
use adb_remote.Client.AdbMessage.{
  AdbMessage, is_command, command, arg1, arg2, message_data, header_buffer, set, bytes, write, read,
  load_header, read_header, read_data, checksum, decode_message, decode_buffer, check_decoded,
  new_message_from_buffer,
}
use adb_remote.Client.AdbMessage.Frames.{
  IsAdbMessage, packet_header, packet, received, wire, framed, command-word, set_lem, bytes_lem,
  message_data_lem,
}

-- A message that has the fields and the data.
pub record Carries (c a b : ℕ) (bs : List ℕ) (m : AdbMessage) : Type 0 where
  pub has_command : command m ≡ c
  pub has_arg1 : arg1 m ≡ a
  pub has_arg2 : arg2 m ≡ b
  pub has_data : message_data m ≡ ok bs

-- `Set` and `Write` on one side, `Read` on the other. The connection takes 65536 bytes.
unfoldable pub transfer : ℕ → ℕ → ℕ → List ℕ → AdbMessage → AdbMessage → Result AdbMessage
transfer c a b bs sender receiver = after (set c a b bs sender) λ m _.
    after (write m (record { out = []; room = 65536 }))
      λ w _. after (read (record { message = receiver; input = w.out })) λ s _. ok s.message

-- `Set` and `Bytes` on one side, `DecodeMessage` on the other.
unfoldable pub embed : ℕ → ℕ → ℕ → List ℕ → AdbMessage → Result AdbMessage
embed c a b bs sender =
    after (set c a b bs sender) λ m _. after (m, bytes m) λ _ raw. decode_message raw

load_header_lem :
    (c a b sum : ℕ) (bs : List ℕ) (m : AdbMessage)
    → length (header_buffer m) ≡ 24
    → load_header (packet_header c a b sum bs) m
      ≡ record (received c a b sum bs []) { data_buffer = m.data_buffer }
unfolding load_header put_uint32
load_header_lem c a b sum bs m h =
    rw (overwrite_all (packet_header c a b sum bs) (header_buffer m) (omega arith))

pub read_lem :
    (c a b sum : ℕ) (bs more : List ℕ) (m : AdbMessage)
    → IsAdbMessage m
    → is_command c ≡ true
    → length bs ≤ 32768
    → read (record { message = m; input = packet c a b sum bs ++ more }) ≡ (
      record { message = received c a b sum bs (drop (length bs) m.data_buffer); input = more },
      ok tt,
    )
unfolding read read_header read_data
read_lem c a b sum bs more m v valid fits =
    rw
      (
        append_assoc (packet_header c a b sum bs) bs more,
        read_full_lem 24 (packet_header c a b sum bs) (bs ++ more) (unfold put_uint32 in refl),
        load_header_lem c a b sum bs m v.header_size,
        uint32-put c (command-word c valid).0,
        valid,
        uint32-put (bit_xor c 0xffffffff) (command-word c valid).1,
        ==_refl (bit_xor c 0xffffffff),
        uint32-put (length bs) (omega arith),
        ge→ltb 32768 (length bs) fits,
        slice_within 0 (length bs) m.data_buffer (omega arith) (omega (arith, v.buffer_size)),
        read_full_lem (length bs) bs more refl,
        overwrite_at [] bs m.data_buffer 0 refl,
      )
      refl

new_message_lem :
    (c a b sum : ℕ) (bs : List ℕ)
    → new_message_from_buffer (packet c a b sum bs) ≡ ok (received c a b sum bs [])
unfolding new_message_from_buffer put_uint32
new_message_lem c a b sum bs =
    rw (le→leb 24 (length (packet c a b sum bs)) (omega arith), append-nil bs) refl

pub length-packet : (c a b sum : ℕ) (bs : List ℕ) → length (packet c a b sum bs) ≡ 24 + length bs
unfolding put_uint32
length-packet c a b sum bs = omega arith

pub decode_lem :
    (c a b sum : ℕ) (bs : List ℕ)
    → is_command c ≡ true
    → length bs ≤ 32768
    → decode_message (packet c a b sum bs) ≡ ok (received c a b sum bs [])
unfolding decode_message decode_buffer check_decoded
decode_lem c a b sum bs valid fits =
    rw
      (
        length-packet c a b sum bs,
        ge→ltb (24 + length bs) 24 (omega arith),
        new_message_lem c a b sum bs,
        decode_buffer,
        check_decoded,
        uint32-put c (command-word c valid).0,
        valid,
        uint32-put (bit_xor c 0xffffffff) (command-word c valid).1,
        ==_refl (bit_xor c 0xffffffff),
        uint32-put (length bs) (omega arith),
        ge→ltb (length (packet c a b sum bs) % 4294967296) ((24 + length bs) % 4294967296)
            (omega (arith, length-packet c a b sum bs)),
      )
      refl

module _ (c a b : ℕ) (bs : List ℕ) (valid : is_command c ≡ true) (w : a < 4294967296)
    (w' : b < 4294967296) (fits : length bs ≤ 32768) where
  framed-Carries : (rest : List ℕ) → Carries c a b bs (framed c a b bs rest)
  framed-Carries rest = record {
    has_command = uint32-put c (command-word c valid).0;
    has_arg1 = uint32-put a w;
    has_arg2 = uint32-put b w';
    has_data = message_data_lem c a b (checksum bs) bs rest fits;
  }

  -- A message of any command with 32-bit arguments and data of at most 32768 bytes, set, written
  -- to a connection that takes it and read on the other side, arrives with its command, arguments
  -- and data, whatever the messages on both sides held before.
  pub transfer_lem :
      (sender receiver : AdbMessage)
      → IsAdbMessage sender
      → IsAdbMessage receiver
      → (m : AdbMessage) × (transfer c a b bs sender receiver ≡ ok m) × Carries c a b bs m
  unfolding transfer write
  transfer_lem sender receiver v v' =
      let rest = drop (length bs) receiver.data_buffer in
      let out : Writer = record { out = []; room = 65536 } in
      let reads = read_lem c a b (checksum bs) bs [] receiver v' valid fits in
      (
        framed c a b bs rest,
        rw
            (
              set_lem c a b bs sender v.buffer_size fits,
              bytes_lem c a b (checksum bs) bs (drop (length bs) sender.data_buffer) fits,
              write_bytes_lem (wire c a b bs) out
                  (omega (arith, length-packet c a b (checksum bs) bs)),
              ← append-nil (wire c a b bs),
              reads,
            )
            refl,
        framed-Carries rest,
      )

  -- A message of any command with 32-bit arguments and data of at most 32768 bytes, set, taken as
  -- bytes and decoded from them, arrives with its command, arguments and data.
  pub embed_lem :
      (sender : AdbMessage)
      → IsAdbMessage sender
      → (m : AdbMessage) × (embed c a b bs sender ≡ ok m) × Carries c a b bs m
  unfolding embed
  embed_lem sender v = (
    framed c a b bs [],
    rw
        (
          set_lem c a b bs sender v.buffer_size fits,
          bytes_lem c a b (checksum bs) bs (drop (length bs) sender.data_buffer) fits,
          decode_lem c a b (checksum bs) bs valid fits,
        )
        refl,
    framed-Carries [],
  )
