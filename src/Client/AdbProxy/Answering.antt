-- ===== src/Client/AdbProxy/Answering.antt =====
-- How the local proxy of client/adb/proxy.go answers the first message of a connection.
use adb_remote.Prelude.{
  ℕ, ◌+◌, ◌≤◌, ◌≡◌, refl, List, ◌++◌, length, drop, ok, arith, length-append, le→leb, replicate,
  length-replicate, length-take, take, length-drop,
}
use adb_remote.Client.NetConn.{NetConn}
use adb_remote.Client.AdbMessage.{
  AdbMessage, header_buffer, create_message, new_message_from_buffer,
}
use adb_remote.Client.AdbMessage.Frames.{IsAdbMessage}

field : (k : ℕ) (buffer : List ℕ) → k + 4 ≤ length buffer → length (take 4 (drop k buffer)) ≡ 4
field k buffer inside = omega (arith, length-take 4 (drop k buffer), length-drop k buffer, inside)

-- Six fields of four bytes.
length-header :
    (m : AdbMessage)
    → length m.command_bytes ≡ 4
    → length m.arg1_bytes ≡ 4
    → length m.arg2_bytes ≡ 4
    → length m.length_bytes ≡ 4
    → length m.checksum_bytes ≡ 4
    → length m.magic_bytes ≡ 4
    → length (header_buffer m) ≡ 24
length-header m a b c d e f =
    let two = m.command_bytes ++ m.arg1_bytes in
    let three = two ++ m.arg2_bytes in
    let four = three ++ m.length_bytes in
    omega (
      arith,
      length-append m.command_bytes m.arg1_bytes,
      length-append two m.arg2_bytes,
      length-append three m.length_bytes,
      length-append four m.checksum_bytes,
      length-append (four ++ m.checksum_bytes) m.magic_bytes,
    )

abbrev pub message_over : List ℕ → AdbMessage
message_over buffer = record {
  command_bytes = take 4 buffer;
  arg1_bytes = take 4 (drop 4 buffer);
  arg2_bytes = take 4 (drop 8 buffer);
  length_bytes = take 4 (drop 12 buffer);
  checksum_bytes = take 4 (drop 16 buffer);
  magic_bytes = take 4 (drop 20 buffer);
  data_buffer = drop 24 buffer;
}

pub new_message-IsAdbMessage :
    (buffer : List ℕ)
    → length buffer ≡ 32792
    → (new_message_from_buffer buffer ≡ ok (message_over buffer))
      × IsAdbMessage (message_over buffer)
unfolding new_message_from_buffer
new_message-IsAdbMessage buffer long = (
  rw (le→leb 24 (length buffer) (omega (arith, long))) refl,
  record {
    header_size =
        length-header (message_over buffer) (omega (arith, length-take 4 buffer, long))
          (field 4 buffer (omega (arith, long))) (field 8 buffer (omega (arith, long)))
          (field 12 buffer (omega (arith, long))) (field 16 buffer (omega (arith, long)))
          (field 20 buffer (omega (arith, long)));
    buffer_size = omega (arith, long, length-drop 24 buffer);
  },
)

pub created : (m : AdbMessage) × (create_message ≡ ok m) × IsAdbMessage m
unfolding create_message
created =
    let (made, valid) =
      new_message-IsAdbMessage (replicate 32792 0) (length-replicate {A = ℕ} 32792 0) in
    (message_over (replicate 32792 0), made, valid)
