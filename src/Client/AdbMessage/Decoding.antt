-- ===== src/Client/AdbMessage/Decoding.antt =====
-- `DecodeMessage` on any bytes (client/adb/adbMessage.go), and the wrap-around of the length it checks.
use Prim.Native.Nat.{bit_xor}
use adb_remote.Client.AdbMessage.Frames.{command-word}
use adb_remote.Prelude.{
  put_uint32, uint32-put, ℕ, ◌+◌, ◌-◌, ◌%◌, ◌≤◌, ◌<◌, ◌≡◌, refl, true, List, ◌++◌, length, take,
  drop, ok, err, panic, Result, arith, ltb, le→leb, ltb→ge, ge→ltb, Bool-cases, inl, inr, slice,
  slice_within, length-slice_within, length-drop, ==_refl, ==_iff, ◌==◌,
}
use adb_remote.Client.AdbMessage.{
  AdbMessage, is_command, command, magic, data_length, message_data, decode_message, decode_buffer,
  check_decoded, new_message_from_buffer,
}

-- What a decoding of `size` bytes lets through: a known command with its magic number, and the data, unless
-- the declared length is so large that it wraps around together with the header's.
abbrev pub DecodesSafely : Result AdbMessage → Type 0
DecodesSafely (ok m) =
    (is_command (command m) ≡ true)
    × (bit_xor (command m) 0xffffffff ≡ magic m)
    × (data_length m < 4294967272
        → (bs : List ℕ) × (message_data m ≡ ok bs) × (length bs ≡ data_length m))
DecodesSafely (err e) = Unit
DecodesSafely panic = ⊥

check_decoded-Safe :
    (size : ℕ) (m : AdbMessage)
    → 24 + length m.data_buffer ≡ size
    → size < 4294967296
    → DecodesSafely (check_decoded size m).1
unfolding check_decoded message_data
check_decoded-Safe size m whole word =
    let n = data_length m in
    elim (Bool-cases (is_command (command m))) [
      | inr unknown ↦ rw unknown tt
      | inl known ↦ rw known (elim (Bool-cases (bit_xor (command m) 0xffffffff == magic m)) [
        | inr differs ↦ rw differs tt
        | inl same ↦ rw same (elim (Bool-cases (ltb (size % 4294967296) ((24 + n) % 4294967296))) [
          | inl large ↦ rw large tt
          | inr fits ↦
              let within = ltb→ge (size % 4294967296) ((24 + n) % 4294967296) fits in
              rw fits (
                known,
                (==_iff _ _).0 same,
                λ small.
                    let inside : n ≤ length m.data_buffer = omega arith in
                    (
                      take (n - 0) (drop 0 m.data_buffer),
                      slice_within 0 n m.data_buffer (omega arith) inside,
                      omega (arith, length-slice_within 0 n m.data_buffer (omega arith) inside),
                    ),
              )
        ])
      ])
    ]

-- On fewer than 2^32 bytes the decoding does not panic. A message that it lets through has a known command
-- and the command's magic number; if its declared length is below 2^32 - 24 it has data of that length.
pub decode_message-Safe :
    (raw : List ℕ) → length raw < 4294967296 → DecodesSafely (decode_message raw)
unfolding decode_message decode_buffer new_message_from_buffer
decode_message-Safe raw word = elim (Bool-cases (ltb (length raw) 24)) [
  | inl short ↦ rw short tt
  | inr long ↦
      let enough = ltb→ge (length raw) 24 long in
      rw (long, le→leb 24 (length raw) enough)
        (check_decoded-Safe (length raw) _ (omega (arith, length-drop 24 raw)) word)
]

abbrev raw_bytes : ℕ → ℕ → ℕ → ℕ → ℕ → List ℕ → List ℕ
raw_bytes c a b n sum bs =
    put_uint32 c
    ++ put_uint32 a
    ++ put_uint32 b
    ++ put_uint32 n
    ++ put_uint32 sum
    ++ put_uint32 (bit_xor c 0xffffffff)
    ++ bs

length-raw_bytes :
    (c a b n sum : ℕ) (bs : List ℕ) → length (raw_bytes c a b n sum bs) ≡ 24 + length bs
unfolding put_uint32
length-raw_bytes c a b n sum bs = omega arith

raw_message :
    (c a b n sum : ℕ) (bs : List ℕ)
    → new_message_from_buffer (raw_bytes c a b n sum bs)
      ≡ ok (record {
        command_bytes = put_uint32 c;
        arg1_bytes = put_uint32 a;
        arg2_bytes = put_uint32 b;
        length_bytes = put_uint32 n;
        checksum_bytes = put_uint32 sum;
        magic_bytes = put_uint32 (bit_xor c 0xffffffff);
        data_buffer = bs;
      })
unfolding new_message_from_buffer put_uint32
raw_message c a b n sum bs = rw (le→leb 24 (length (raw_bytes c a b n sum bs)) (omega arith)) refl

-- A declared length of 2^32 - 24 or more wraps around with the header's: the message is let through, and
-- its `Data` panics. It may have any command, ids and checksum, and any data shorter than that.
pub decode_overflow :
    (c a b n sum : ℕ) (bs : List ℕ)
    → is_command c ≡ true
    → 4294967272 ≤ n
    → n < 4294967296
    → length bs < 4294967272
    → (m : AdbMessage) × (decode_message (
          put_uint32 c
          ++ put_uint32 a
          ++ put_uint32 b
          ++ put_uint32 n
          ++ put_uint32 sum
          ++ put_uint32 (bit_xor c 0xffffffff)
          ++ bs)
        ≡ ok m)
      × (message_data m ≡ panic)
unfolding decode_message decode_buffer check_decoded message_data slice
decode_overflow c a b n sum bs valid wraps word short =
    let m : AdbMessage = record {
      command_bytes = put_uint32 c;
      arg1_bytes = put_uint32 a;
      arg2_bytes = put_uint32 b;
      length_bytes = put_uint32 n;
      checksum_bytes = put_uint32 sum;
      magic_bytes = put_uint32 (bit_xor c 0xffffffff);
      data_buffer = bs;
    } in
    let long = length-raw_bytes c a b n sum bs in
    let l = length (raw_bytes c a b n sum bs) in
    (
      m,
      rw
          (
            ge→ltb l 24 (omega (arith, long)),
            raw_message c a b n sum bs,
            decode_buffer,
            check_decoded,
            uint32-put c (command-word c valid).0,
            valid,
            uint32-put (bit_xor c 0xffffffff) (command-word c valid).1,
            ==_refl (bit_xor c 0xffffffff),
            uint32-put n word,
            ge→ltb (l % 4294967296) ((24 + n) % 4294967296) (omega (arith, long)),
          )
          refl,
      rw (uint32-put n word) (ground arith),
    )
