-- ===== src/Client/AdbMessage/Agreement.antt =====
-- `Read` and `DecodeMessage` of client/adb/adbMessage.go on the same bytes.
use Prim.Native.Nat.{bit_xor, zero, suc}
use adb_remote.Prelude.{
  ℕ, ◌+◌, ◌-◌, ◌≤◌, ◌<◌, ◌≡◌, refl, ap, sym, ◌∙◌, true, false, List, [], ◌∷◌, length, take, drop,
  ok, err, Result, Error, arith, ltb, leb, Bool-cases, inl, inr, ◌⊎◌, slice, slice_within, slice_at,
  u32, length-take, length-drop, drop-all, drop-add, append-nil, overwrite, ◌==◌, ltb→ge, M, ◌>>=◌,
  ◌>>◌, get_state, lift, reject_if, message_too_short, unexpected_eof, eof, data_too_long, pure,
  if◌then◌else◌,
}
use adb_remote.Protocol.Message.{read_full}
use adb_remote.Client.AdbMessage.{
  AdbMessage, Reading, is_command, validate_command, validate_magic, command, arg1, arg2, magic,
  data_length, message_data, decode_message, decode_buffer, check_decoded, new_message_from_buffer,
  load_header, read_header, read_data, read, header_buffer,
}
use adb_remote.Client.AdbMessage.Frames.{IsAdbMessage}

take-take : (j n : ℕ) (xs : List ℕ) → j ≤ n → take j (take n xs) ≡ take j xs
take-take zero n xs h = refl
take-take (suc j) zero xs h = absurd (omega arith)
take-take (suc j) (suc n) [] h = refl
take-take (suc j) (suc n) (x ∷ xs) h = ap (◌∷◌ x) (take-take j n xs (omega arith))

take_within :
    (k j n : ℕ) (xs : List ℕ) → k + j ≤ n → take j (drop k (take n xs)) ≡ take j (drop k xs)
take_within zero j n xs h = take-take j n xs (omega arith)
take_within (suc k) j zero xs h = absurd (omega arith)
take_within (suc k) j (suc n) [] h = refl
take_within (suc k) j (suc n) (x ∷ xs) h = take_within k j n xs (omega arith)

-- The header's fields at the front of some bytes.
abbrev fields_of : List ℕ → List ℕ → AdbMessage
fields_of raw buffer = record {
  command_bytes = take 4 raw;
  arg1_bytes = take 4 (drop 4 raw);
  arg2_bytes = take 4 (drop 8 raw);
  length_bytes = take 4 (drop 12 raw);
  checksum_bytes = take 4 (drop 16 raw);
  magic_bytes = take 4 (drop 20 raw);
  data_buffer = buffer;
}

replaced : (got old : List ℕ) → length old ≤ length got → overwrite 0 got old ≡ got
unfolding overwrite
replaced got old h = rw (drop-all (length got) old h) (append-nil got)

load_header_lem :
    (raw : List ℕ) (m : AdbMessage)
    → 24 ≤ length raw
    → length (header_buffer m) ≡ 24
    → load_header (take 24 raw) m ≡ fields_of raw m.data_buffer
unfolding load_header
load_header_lem raw m long size =
    rw
      (
        replaced (take 24 raw) (header_buffer m) (omega (arith, size, length-take 24 raw)),
        take_within 0 4 24 raw (omega arith),
        take_within 4 4 24 raw (omega arith),
        take_within 8 4 24 raw (omega arith),
        take_within 12 4 24 raw (omega arith),
        take_within 16 4 24 raw (omega arith),
        take_within 20 4 24 raw (omega arith),
      )
      refl

read_header_any :
    (raw : List ℕ) (m : AdbMessage)
    → 24 ≤ length raw
    → IsAdbMessage m
    → read_header (record { message = m; input = raw })
      ≡ (record { message = fields_of raw m.data_buffer; input = drop 24 raw }, ok 24)
unfolding read_header read_full
read_header_any raw m long v =
    let enough : leb 24 (length raw) ≡ true = ground arith in
    rw (enough, load_header_lem raw m long v.header_size) refl

-- The same command, arguments and data.
abbrev pub Same : AdbMessage → AdbMessage → Type 0
Same a b =
    (command a ≡ command b)
    × (arg1 a ≡ arg1 b)
    × (arg2 a ≡ arg2 b)
    × (message_data a ≡ message_data b)

abbrev pub Agree : Result AdbMessage → List ℕ → Reading × Result (Unit {0}) → Type 0
Agree decoded raw (s, r) =
    ((a : AdbMessage) × (decoded ≡ ok a)
      × (data_length a ≤ 32768)
      × (r ≡ ok tt)
      × Same a s.message
      × (s.input ≡ drop (24 + data_length a) raw))
    ⊎ ((e : Error) × (e' : Error) × (decoded ≡ err e) × (r ≡ err e'))
    ⊎ ((a : AdbMessage) × (e : Error) × (decoded ≡ ok a) × (32768 < data_length a) × (r ≡ err e))

-- What follows the header in `Read`.
abbrev after_header : M Reading (Unit {0})
after_header = do
  s ← get_state
  let m = s.message
  lift (validate_command (command m))
  lift (validate_magic (command m) (magic m))
  let n = data_length m
  reject_if (ltb 32768 n) (data_too_long n 32768)
  target ← lift (slice 0 n m.data_buffer)
  len ← read_data n
  pure tt

decode_short :
    (raw : List ℕ) → ltb (length raw) 24 ≡ true → decode_message raw ≡ err message_too_short
unfolding decode_message
decode_short raw short = rw short refl

decode_long :
    (raw : List ℕ)
    → ltb (length raw) 24 ≡ false
    → decode_message raw ≡ (check_decoded (length raw) (fields_of raw (drop 24 raw))).1
unfolding decode_message decode_buffer new_message_from_buffer
decode_long raw long =
    let there : leb 24 (length raw) ≡ true = ground (arith, long) in rw (long, there) refl

read_short :
    (raw : List ℕ) (m : AdbMessage)
    → ltb (length raw) 24 ≡ true
    → (e : Error) × ((read (record { message = m; input = raw })).1 ≡ err e)
unfolding read read_header read_full
read_short raw m short =
    let early : leb 24 (length raw) ≡ false = ground (arith, short) in
    (if length raw == 0 then eof else unexpected_eof, rw early refl)

read_long :
    (raw : List ℕ) (m : AdbMessage)
    → 24 ≤ length raw
    → IsAdbMessage m
    → read (record { message = m; input = raw })
      ≡ after_header (record { message = fields_of raw m.data_buffer; input = drop 24 raw })
unfolding read
read_long raw m long v = rw (read_header_any raw m long v) refl

-- The data of a message that was read over a buffer, and of one over the bytes themselves.
same_data :
    (rest : List ℕ) (n : ℕ) (buffer : List ℕ)
    → n ≤ length rest
    → slice 0 n rest ≡ slice 0 n (overwrite 0 (take n rest) buffer)
unfolding overwrite
same_data rest n buffer there =
    let got = take n rest in
    let whole : n - 0 ≡ n = omega arith in
    slice_within 0 n rest (omega arith) there
    ∙ ap (λ k. ok (take k rest)) whole
    ∙ sym (slice_at [] got (drop (length got) buffer) 0 n refl (omega (arith, length-take n rest)))

checked-Agree :
    (raw buffer : List ℕ)
    → 24 ≤ length raw
    → length buffer ≡ 32768
    → length raw < 4294967296
    → Agree
        (check_decoded (length raw) (fields_of raw (drop 24 raw))).1
        raw
        (after_header (record { message = fields_of raw buffer; input = drop 24 raw }))
unfolding check_decoded read_data read_full message_data
checked-Agree raw buffer enough size word =
    let a = fields_of raw (drop 24 raw) in
    let n = data_length a in
    let c = command a in
    elim (Bool-cases (is_command c)) [
      | inr unknown ↦ rw unknown (inr (inl (_, _, refl, refl)))
      | inl known ↦ rw known (elim (Bool-cases (bit_xor c 0xffffffff == magic a)) [
        | inr differs ↦ rw differs (inr (inl (_, _, refl, refl)))
        | inl same ↦ rw same (elim (Bool-cases (ltb 32768 n)) [
          | inl large ↦ rw large (elim (Bool-cases (ltb (u32 (length raw)) (u32 (24 + n)))) [
            | inl over ↦ rw over (inr (inl (_, _, refl, refl)))
            | inr fits ↦ rw fits (inr (inr (a, _, refl, ground arith, refl)))
          ])
          | inr small ↦
              let few = ltb→ge 32768 n small in
              let within = slice_within 0 n buffer (omega arith) (omega arith) in
              rw (small, within)
                (elim (Bool-cases (ltb (u32 (length raw)) (u32 (24 + n)))) [
                  | inl over ↦
                      let missing : leb n (length (drop 24 raw)) ≡ false =
                        ground (arith, over, length-drop 24 raw) in
                      rw (over, read_data, read_full, missing) (inr (inl (_, _, refl, refl)))
                  | inr fits ↦
                      let there : n ≤ length (drop 24 raw) =
                        ground (arith, fits, length-drop 24 raw) in
                      let there' : leb n (length (drop 24 raw)) ≡ true = ground arith in
                      rw (fits, read_data, read_full, there')
                        (inl (
                          a,
                          refl,
                          few,
                          refl,
                          (refl, refl, refl, same_data (drop 24 raw) n buffer there),
                          sym (drop-add 24 n raw),
                        ))
                ])
        ])
      ])
    ]

-- Take the bytes of one message, fewer than 2^32, and a message object to read into. Either decoding and reading
-- both succeed, with the same command, arguments and data, and the read takes exactly the header and the data;
-- or both fail; or the decoding lets through a message that declares more data than a read accepts.
pub read_agrees :
    (raw : List ℕ) (m : AdbMessage)
    → IsAdbMessage m
    → length raw < 4294967296
    → Agree (decode_message raw) raw (read (record { message = m; input = raw }))
read_agrees raw m v word = elim (Bool-cases (ltb (length raw) 24)) [
  | inl short ↦
      let (e, ended) = read_short raw m short in
      inr (inl (message_too_short, e, decode_short raw short, ended))
  | inr long ↦
      let enough = ltb→ge (length raw) 24 long in
      rw (decode_long raw long, read_long raw m enough v)
        (checked-Agree raw m.data_buffer enough v.buffer_size word)
]
