-- ===== src/Protocol/Wire/Safety.antt =====
-- `Read` on a hostile stream: it stays within its buffer, and what it lets through fits and carries
-- the CRC of its payload.
use adb_remote.Prelude.{
  ℕ, ◌-◌, ◌≤◌, ◌<◌, ◌≡◌, refl, ◌≢◌, ◌∙◌, List, ◌++◌, length, take, drop, ok, err, panic, Result,
  bind, payload_too_large, arith, length-append, slice_within, ltb, Bool-cases, inl, inr,
  length-take, length-drop, overwrite, length-overwrite, slice, M, ◌>>=◌, ◌>>◌, get_state, lift,
  ◌==◌, ==_iff, ltb→ge, reject_if, if◌then◌else◌, pure, put_uint32, uint32-put,
}
use adb_remote.Protocol.Crc.{checksum_ieee}
use adb_remote.Protocol.Message.{
  TransporterMessage, payload_length, payload_crc32, Reading, read_full, load_header, read_header,
  read_payload, read_body, read, header_buffer, payload, ensure_length, validate_payload_crc32,
}
use adb_remote.Protocol.Wire.Read.{IsMessage, read_header_lem}

read_full_bounds :
    (n : ℕ) (input : List ℕ)
    → (length (read_full n input).0 ≤ n)
      × ((k : ℕ) → (read_full n input).2 ≡ ok k → (k ≡ n) × (length (read_full n input).0 ≡ n))
      × ((read_full n input).2 ≢ panic)
unfolding read_full
read_full_bounds n input = (
  ground (arith, length-take n input),
  λ k e. ground (arith, length-take n input),
  λ e. ground arith,
)

load_header-size :
    (got : List ℕ) (m : TransporterMessage)
    → length got ≤ 12
    → length (header_buffer m) ≡ 12
    → length (header_buffer (load_header got m)) ≡ 12
unfolding load_header
load_header-size got m h e =
    let b = overwrite 0 got (header_buffer m) in
    omega (
      arith,
      length-overwrite 0 got (header_buffer m),
      length-append (take 4 b ++ take 4 (drop 4 b)) (take 4 (drop 8 b)),
      length-append (take 4 b) (take 4 (drop 4 b)),
      length-take 4 b,
      length-take 4 (drop 4 b),
      length-take 4 (drop 8 b),
      length-drop 4 b,
      length-drop 8 b,
    )

read_header-IsMessage : (s : Reading) → IsMessage s.message → IsMessage (read_header s).0.message
unfolding read_header
read_header-IsMessage s v = record {
  header_size =
      load_header-size (read_full 12 s.input).0 s.message (read_full_bounds 12 s.input).0
        v.header_size;
  buffer_size = v.buffer_size;
}

read_payload-IsMessage :
    (n : ℕ) (s : Reading) → n ≤ 61440 → IsMessage s.message → IsMessage (read_payload n s).0.message
unfolding read_payload
read_payload-IsMessage n s h v = record {
  header_size = v.header_size;
  buffer_size =
      length-overwrite 0 (read_full n s.input).0 s.message.payload_buffer
        (omega (arith, (read_full_bounds n s.input).0, v.buffer_size))
      ∙ v.buffer_size;
}

-- After a read: the buffers have their sizes, and a message that was let through declares a payload
-- that fits and, unless it is empty, has the CRC that the header declares.
abbrev pub ReadSafely : Reading × Result (Unit {0}) → Type 0
ReadSafely (s, ok _) =
    IsMessage s.message
    × (payload_length s.message ≤ 61440)
    × (0 < payload_length s.message
        → (bs : List ℕ) × (payload s.message ≡ ok bs)
          × (checksum_ieee bs ≡ payload_crc32 s.message))
ReadSafely (s, err e) = IsMessage s.message
ReadSafely (s, panic) = ⊥

-- The rest of `read_body`, behind the bytes that were read.
check_body : ℕ → ℕ → M Reading (Unit {0})
check_body n len = do
  ensure_length n len
  t ← get_state
  received ← lift (slice 0 n t.message.payload_buffer)
  validate_payload_crc32 received (payload_crc32 t.message)

check_body-ReadSafely :
    (n : ℕ) (s : Reading) (r : Result ℕ)
    → IsMessage s.message
    → payload_length s.message ≡ n
    → n ≤ 61440
    → r ≢ panic
    → ReadSafely (bind (s, r) (check_body n))
unfolding check_body payload
check_body-ReadSafely n s (ok k) v e h np =
    let bs = take (n - 0) (drop 0 s.message.payload_buffer) in
    let within : slice 0 n s.message.payload_buffer ≡ ok bs =
      slice_within 0 n s.message.payload_buffer (omega arith) (omega (arith, v.buffer_size)) in
    elim (Bool-cases (n == k)) [
      | inr short ↦ rw short v
      | inl full ↦
          rw (full, within)
            (elim (Bool-cases (checksum_ieee bs == payload_crc32 s.message)) [
              | inr differs ↦ rw differs v
              | inl same ↦ rw same (v, omega arith, λ _. (bs, rw e within, (==_iff _ _).0 same))
            ])
    ]
check_body-ReadSafely n s (err x) v e h np = v
check_body-ReadSafely n s panic v e h np = np refl

read_body-ReadSafely :
    (n : ℕ) (s : Reading)
    → IsMessage s.message
    → payload_length s.message ≡ n
    → n ≤ 61440
    → ReadSafely (read_body n s)
unfolding read_body check_body
read_body-ReadSafely n s v e h =
    rw (slice_within 0 n s.message.payload_buffer (omega arith) (omega (arith, v.buffer_size))) (
      check_body-ReadSafely n (read_payload n s).0 (read_payload n s).1
        (read_payload-IsMessage n s h v) (unfold read_payload in e) h
        (unfold read_payload in (read_full_bounds n s.input).2))

-- The rest of `read`, behind the header.
check_header : ℕ → M Reading (Unit {0})
check_header len = do
  ensure_length 12 len
  s ← get_state
  let n = payload_length s.message
  reject_if (ltb 61440 n) payload_too_large
  if ltb 0 n then read_body n else pure tt

check_header-ReadSafely :
    (s : Reading) (r : Result ℕ)
    → IsMessage s.message
    → r ≢ panic
    → ReadSafely (bind (s, r) check_header)
unfolding check_header
check_header-ReadSafely s (ok k) v np =
    let n = payload_length s.message in
    elim (Bool-cases (12 == k)) [
      | inr short ↦ rw short v
      | inl full ↦ rw full (elim (Bool-cases (ltb 61440 n)) [
        | inl large ↦ rw large v
        | inr fits ↦ rw fits (elim (Bool-cases (ltb 0 n)) [
          | inl more ↦ rw more (read_body-ReadSafely n s v refl (ltb→ge 61440 n fits))
          | inr empty ↦ rw empty (v, ltb→ge 61440 n fits, λ p. absurd (ground arith))
        ])
      ])
    ]
check_header-ReadSafely s (err x) v np = v
check_header-ReadSafely s panic v np = np refl

-- On any stream `Read` ends without a panic and with buffers of the right sizes. What it lets
-- through has a payload within the buffer, whose CRC is the declared one unless it is empty.
pub read-ReadSafely :
    (m : TransporterMessage) (input : List ℕ)
    → IsMessage m
    → ReadSafely (read (record { message = m; input = input }))
unfolding read check_header
read-ReadSafely m input v =
    let s : Reading = record { message = m; input = input } in
    check_header-ReadSafely (read_header s).0 (read_header s).1 (read_header-IsMessage s v)
      (unfold read_header in (read_full_bounds 12 input).2)

-- A header that declares more than the buffer holds is refused, and the length that it declares
-- stays in the message.
pub read_oversized :
    (m : TransporterMessage) (c n crc : ℕ) (more : List ℕ)
    → IsMessage m
    → 61440 < n
    → n < 4294967296
    → (m' : TransporterMessage) × (read
          (record { message = m; input = put_uint32 c ++ put_uint32 n ++ put_uint32 crc ++ more })
        ≡ (record { message = m'; input = more }, err payload_too_large))
      × (payload_length m' ≡ n)
      × IsMessage m'
unfolding read
read_oversized m c n crc more v large word = (
  record m {
    command_buffer = put_uint32 c;
    payload_length_buffer = put_uint32 n;
    payload_crc32_buffer = put_uint32 crc;
  },
  rw (read_header_lem m c n crc more v.header_size) (ground (arith, uint32-put n word)),
  uint32-put n word,
  record { header_size = unfold put_uint32 in refl; buffer_size = v.buffer_size },
)
