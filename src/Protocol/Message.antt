-- ===== src/Protocol/Message.antt =====
-- shared/protocol/message.definition.go, utils.go and validation.go. The four buffers are disjoint
-- slices of one array: `header_buffer` is the first three, `message_buffer` all four. The payload
-- buffer is kept when a message is used again, as the pool does.
use Prim.Native.Nat.{bit_and, bit_or}
use adb_remote.Prelude.{
  ℕ, ◌+◌, ◌-◌, Bool, not, List, [], ◌++◌, ltb, leb, ◌==◌, if◌then◌else◌, length, take, drop,
  replicate, u32, put_uint32, uint32, eof, unexpected_eof, short_write, ensure_length_failed,
  payload_too_large, invalid_crc32, unexpected_command, Result, ok, err, M, pure, get_state, lift,
  ◌>>=◌, ◌>>◌, reject_if, slice, overwrite,
}
use adb_remote.Protocol.Constants.{
  max_payload_size, header_size, command_response_mask, command_error_response_mask,
}
use adb_remote.Protocol.Crc.{checksum_ieee}

pub record TransporterMessage : Type 0 where
  pub command_buffer : List ℕ
  pub payload_length_buffer : List ℕ
  pub payload_crc32_buffer : List ℕ
  pub payload_buffer : List ℕ

unfoldable pub create_transporter_message : TransporterMessage
create_transporter_message = record {
  command_buffer = replicate 4 0;
  payload_length_buffer = replicate 4 0;
  payload_crc32_buffer = replicate 4 0;
  payload_buffer = replicate max_payload_size 0;
}

abbrev pub header_buffer : TransporterMessage → List ℕ
header_buffer m = m.command_buffer ++ m.payload_length_buffer ++ m.payload_crc32_buffer

abbrev pub message_buffer : TransporterMessage → List ℕ
message_buffer m = header_buffer m ++ m.payload_buffer

abbrev pub command : TransporterMessage → ℕ
command m = uint32 m.command_buffer

abbrev pub payload_length : TransporterMessage → ℕ
payload_length m = uint32 m.payload_length_buffer

abbrev pub payload_crc32 : TransporterMessage → ℕ
payload_crc32 m = uint32 m.payload_crc32_buffer

unfoldable pub wire_size : TransporterMessage → ℕ
wire_size m = u32 (header_size + payload_length m)

unfoldable pub bytes : TransporterMessage → Result (List ℕ)
unfolding slice
bytes m = slice 0 (u32 (header_size + payload_length m)) (message_buffer m)

unfoldable pub payload : TransporterMessage → Result (List ℕ)
unfolding slice
payload m = slice 0 (payload_length m) m.payload_buffer

unfoldable pub set_direct_command : ℕ → TransporterMessage → TransporterMessage
set_direct_command c m = record m { command_buffer = put_uint32 c }

unfoldable pub set_response_command : ℕ → TransporterMessage → TransporterMessage
unfolding set_direct_command
set_response_command c = set_direct_command (bit_or c command_response_mask)

unfoldable pub set_error_response_command : ℕ → TransporterMessage → TransporterMessage
unfolding set_direct_command
set_error_response_command c = set_direct_command (bit_or c command_error_response_mask)

unfoldable pub set_header : ℕ → ℕ → ℕ → TransporterMessage → TransporterMessage
set_header c len crc m = record m {
  command_buffer = put_uint32 c;
  payload_length_buffer = put_uint32 len;
  payload_crc32_buffer = put_uint32 crc;
}

unfoldable pub is_error : TransporterMessage → Bool
is_error m = not (bit_and (command m) command_error_response_mask == 0)

abbrev pub ensure_length : {S : Type 0} → ℕ → ℕ → M S (Unit {0})
ensure_length expected actual =
    reject_if (not (expected == actual)) (ensure_length_failed expected actual)

unfoldable pub expect_command : TransporterMessage → ℕ → Result (Unit {0})
expect_command m expected =
    if command m == expected then ok tt else err (unexpected_command (command m) expected)

abbrev pub validate_payload_crc32 : {S : Type 0} → List ℕ → ℕ → M S (Unit {0})
validate_payload_crc32 bs expected =
    reject_if (not (checksum_ieee bs == expected)) (invalid_crc32 expected (checksum_ieee bs))

-- io.ReadFull of `n` bytes from a stream that ends after `input`: what was read, what is left, and
-- the result.
unfoldable pub read_full : ℕ → List ℕ → List ℕ × List ℕ × Result ℕ
read_full n input =
    if leb n (length input)
    then (take n input, drop n input, ok n)
    else (input, [], err (if length input == 0 then eof else unexpected_eof))

pub record Reading : Type 0 where
  pub message : TransporterMessage
  pub input : List ℕ

-- A read into `headerBuffer`, which may stop early, and so into its three parts.
unfoldable pub load_header : List ℕ → TransporterMessage → TransporterMessage
load_header got m =
    let h = overwrite 0 got (header_buffer m) in
    record m {
      command_buffer = take 4 h;
      payload_length_buffer = take 4 (drop 4 h);
      payload_crc32_buffer = take 4 (drop 8 h);
    }

unfoldable pub read_header : M Reading ℕ
unfolding read_full load_header
read_header s =
    let (got, rest, r) = read_full header_size s.input in
    (record { message = load_header got s.message; input = rest }, r)

-- A read into `payloadBuffer[:n]`.
unfoldable pub read_payload : ℕ → M Reading ℕ
unfolding read_full overwrite
read_payload n s =
    let (got, rest, r) = read_full n s.input in
    let m = s.message in
    (
      record {
        message = record m { payload_buffer = overwrite 0 got m.payload_buffer };
        input = rest;
      },
      r,
    )

unfoldable pub read_body : ℕ → M Reading (Unit {0})
read_body n = do
  s ← get_state
  target ← lift (slice 0 n s.message.payload_buffer)
  len ← read_payload n
  ensure_length n len
  t ← get_state
  received ← lift (slice 0 n t.message.payload_buffer)
  validate_payload_crc32 received (payload_crc32 t.message)

-- `Read`.
unfoldable pub read : M Reading (Unit {0})
read = do
  len ← read_header
  ensure_length header_size len
  s ← get_state
  let n = payload_length s.message
  reject_if (ltb max_payload_size n) payload_too_large
  if ltb 0 n then read_body n else pure tt

-- An io.Writer that takes `room` more bytes and then fails.
pub record Writer : Type 0 where
  pub out : List ℕ
  pub room : ℕ

unfoldable pub write_bytes : List ℕ → M Writer ℕ
write_bytes bs w =
    if leb (length bs) w.room
    then (record { out = w.out ++ bs; room = w.room - length bs }, ok (length bs))
    else (record { out = w.out ++ take w.room bs; room = 0 }, err short_write)

unfoldable pub write_body : ℕ → TransporterMessage → M Writer (Unit {0})
write_body n m = do
  body ← lift (slice 0 n m.payload_buffer)
  len ← write_bytes body
  ensure_length n len

-- `Write`.
unfoldable pub write : TransporterMessage → M Writer (Unit {0})
write m = do
  len ← write_bytes (header_buffer m)
  ensure_length (length (header_buffer m)) len
  let n = payload_length m
  if ltb 0 n then write_body n m else pure tt
