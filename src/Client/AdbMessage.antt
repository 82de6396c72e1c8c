-- ===== src/Client/AdbMessage.antt =====
-- client/adb/adbMessage.go: the messages of ADB's own protocol. The buffers are slices of one array:
-- the six header fields of four bytes, and the data behind them.
pub mod Frames
pub mod Exchange
pub mod Agreement
pub mod Decoding
use Prim.Native.Nat.{bit_xor}
use adb_remote.Prelude.{
  ℕ, ◌+◌, Bool, ◌||◌, List, [], ◌∷◌, ◌++◌, ltb, leb, ◌==◌, if◌then◌else◌, length, take, drop,
  replicate, u32, put_uint32, uint32, message_too_short, invalid_command, invalid_magic,
  data_too_long, Result, ok, err, panic, M, get_state, lift, pure, ◌>>=◌, ◌>>◌, reject_if, slice,
  overwrite,
}
use adb_remote.Protocol.Message.{read_full, Writer, write_bytes}

abbrev pub magic_constant : ℕ
magic_constant = 0xffffffff

abbrev pub max_payload_length : ℕ
max_payload_length = 0x8000

abbrev pub header_size : ℕ
header_size = 0x0018

abbrev pub command_connect : ℕ
command_connect = 0x4e584e43

abbrev pub command_sync : ℕ
command_sync = 0x434e5953

abbrev pub command_open : ℕ
command_open = 0x4e45504f

abbrev pub command_okay : ℕ
command_okay = 0x59414b4f

abbrev pub command_close : ℕ
command_close = 0x45534c43

abbrev pub command_write : ℕ
command_write = 0x45545257

abbrev pub is_command : ℕ → Bool
is_command c =
    c == command_connect
    || c == command_sync
    || c == command_open
    || c == command_okay
    || c == command_close
    || c == command_write

abbrev pub validate_command : ℕ → Result (Unit {0})
validate_command c = if is_command c then ok tt else err (invalid_command c)

abbrev pub validate_magic : ℕ → ℕ → Result (Unit {0})
validate_magic c magic =
    if bit_xor c magic_constant == magic
    then ok tt
    else err (invalid_magic (bit_xor c magic_constant) magic)

-- The loop of `checksum` from a sum on.
unfoldable pub checksum_from : ℕ → List ℕ → ℕ
checksum_from sum [] = sum
checksum_from sum (b ∷ bs) = checksum_from (u32 (sum + b)) bs

unfoldable pub checksum : List ℕ → ℕ
checksum = checksum_from 0

pub record AdbMessage : Type 0 where
  pub command_bytes : List ℕ
  pub arg1_bytes : List ℕ
  pub arg2_bytes : List ℕ
  pub length_bytes : List ℕ
  pub checksum_bytes : List ℕ
  pub magic_bytes : List ℕ
  pub data_buffer : List ℕ

abbrev pub command : AdbMessage → ℕ
command m = uint32 m.command_bytes

abbrev pub arg1 : AdbMessage → ℕ
arg1 m = uint32 m.arg1_bytes

abbrev pub arg2 : AdbMessage → ℕ
arg2 m = uint32 m.arg2_bytes

abbrev pub data_length : AdbMessage → ℕ
data_length m = uint32 m.length_bytes

abbrev pub data_checksum : AdbMessage → ℕ
data_checksum m = uint32 m.checksum_bytes

abbrev pub magic : AdbMessage → ℕ
magic m = uint32 m.magic_bytes

-- `Data`, and `DataString`.
unfoldable pub message_data : AdbMessage → Result (List ℕ)
unfolding slice
message_data m = slice 0 (data_length m) m.data_buffer

abbrev pub header_buffer : AdbMessage → List ℕ
header_buffer m =
    m.command_bytes ++ m.arg1_bytes ++ m.arg2_bytes ++ m.length_bytes ++ m.checksum_bytes
    ++ m.magic_bytes

unfoldable pub bytes : AdbMessage → Result (List ℕ)
bytes m = slice 0 (u32 (header_size + data_length m)) (header_buffer m ++ m.data_buffer)

-- Its six slices of the header panic on a shorter buffer.
unfoldable pub new_message_from_buffer : List ℕ → Result AdbMessage
new_message_from_buffer buffer =
    if leb header_size (length buffer)
    then ok (record {
      command_bytes = take 4 buffer;
      arg1_bytes = take 4 (drop 4 buffer);
      arg2_bytes = take 4 (drop 8 buffer);
      length_bytes = take 4 (drop 12 buffer);
      checksum_bytes = take 4 (drop 16 buffer);
      magic_bytes = take 4 (drop 20 buffer);
      data_buffer = drop header_size buffer;
    })
    else panic

unfoldable pub create_message : Result AdbMessage
unfolding new_message_from_buffer
create_message = new_message_from_buffer (replicate (header_size + max_payload_length) 0)

-- What `DecodeMessage` checks of a message over `size` bytes.
unfoldable pub check_decoded : ℕ → M AdbMessage AdbMessage
check_decoded size = do
  m ← get_state
  lift (validate_command (command m))
  lift (validate_magic (command m) (magic m))
  reject_if (ltb (u32 size) (u32 (header_size + data_length m)))
      (data_too_long (data_length m) size)
  get_state

unfoldable pub decode_buffer : ℕ → Result AdbMessage → Result AdbMessage
decode_buffer size (ok m) = (check_decoded size m).1
decode_buffer size (err e) = err e
decode_buffer size panic = panic

unfoldable pub decode_message : List ℕ → Result AdbMessage
decode_message buffer =
    if ltb (length buffer) header_size
    then err message_too_short
    else decode_buffer (length buffer) (new_message_from_buffer buffer)

pub record Reading : Type 0 where
  pub message : AdbMessage
  pub input : List ℕ

unfoldable pub load_header : List ℕ → AdbMessage → AdbMessage
load_header got m =
    let h = overwrite 0 got (header_buffer m) in
    record m {
      command_bytes = take 4 h;
      arg1_bytes = take 4 (drop 4 h);
      arg2_bytes = take 4 (drop 8 h);
      length_bytes = take 4 (drop 12 h);
      checksum_bytes = take 4 (drop 16 h);
      magic_bytes = take 4 (drop 20 h);
    }

unfoldable pub read_header : M Reading ℕ
read_header s =
    let (got, rest, r) = read_full header_size s.input in
    (record { message = load_header got s.message; input = rest }, r)

unfoldable pub read_data : ℕ → M Reading ℕ
read_data n s =
    let (got, rest, r) = read_full n s.input in
    let m = s.message in
    (record { message = record m { data_buffer = overwrite 0 got m.data_buffer }; input = rest }, r)

unfoldable pub read : M Reading (Unit {0})
read = do
  len ← read_header
  s ← get_state
  let m = s.message
  lift (validate_command (command m))
  lift (validate_magic (command m) (magic m))
  let n = data_length m
  reject_if (ltb max_payload_length n) (data_too_long n max_payload_length)
  target ← lift (slice 0 n m.data_buffer)
  len ← read_data n
  pure tt

unfoldable pub write : AdbMessage → M Writer (Unit {0})
write m = do bs ← lift (bytes m); len ← write_bytes bs; pure tt

unfoldable pub set : ℕ → ℕ → ℕ → List ℕ → M AdbMessage (Unit {0})
set c a b bs m =
    if ltb max_payload_length (u32 (length bs))
    then (m, err (data_too_long (length bs) max_payload_length))
    else (
      record {
        command_bytes = put_uint32 c;
        arg1_bytes = put_uint32 a;
        arg2_bytes = put_uint32 b;
        length_bytes = put_uint32 (u32 (length bs));
        checksum_bytes = put_uint32 (checksum bs);
        magic_bytes = put_uint32 (bit_xor c magic_constant);
        data_buffer = overwrite 0 (take (length m.data_buffer) bs) m.data_buffer;
      },
      ok tt,
    )
