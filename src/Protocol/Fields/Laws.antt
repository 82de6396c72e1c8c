-- ===== src/Protocol/Fields/Laws.antt =====
-- What writing and reading one field does, at an offset that the bytes before it reach.
use adb_remote.Prelude.{
  ℕ, ◌+◌, ◌-◌, ◌≤◌, ◌<◌, ◌≡◌, refl, List, ◌++◌, length, drop, put_uint32, ok, err, not_enough_space,
  length-drop, drop-add, arith, slice, slice_at, slice_within, length-slice_within, overwrite_at,
  take-all, uint32-put, length-put_uint32, length-append, append_assoc,
}
use adb_remote.Protocol.Message.{TransporterMessage, payload_length}
use adb_remote.Protocol.Fields.{store, write_int, write_string, read_int, read_string}

abbrev pub with_payload : TransporterMessage → List ℕ → TransporterMessage
with_payload m buffer = record m { payload_buffer = buffer }

pub store_lem :
    (m : TransporterMessage) (pre suf bs : List ℕ) (lo hi : ℕ)
    → length pre ≡ lo
    → lo + length bs ≡ hi
    → hi ≤ length (pre ++ suf)
    → store lo hi bs (with_payload m (pre ++ suf))
      ≡ (with_payload m (pre ++ bs ++ drop (length bs) suf), ok tt)
unfolding store
store_lem m pre suf bs lo hi e f h = rw (
  slice_within lo hi (pre ++ suf) (omega arith) h,
  length-slice_within lo hi (pre ++ suf) (omega arith) h,
  take-all (hi - lo) bs (omega arith),
  overwrite_at pre bs suf lo e,
)

store_uint32_lem :
    (m : TransporterMessage) (pre suf : List ℕ) (lo v : ℕ)
    → length pre ≡ lo
    → lo + 4 ≤ length (pre ++ suf)
    → store lo (lo + 4) (put_uint32 v) (with_payload m (pre ++ suf))
      ≡ (with_payload m (pre ++ put_uint32 v ++ drop 4 suf), ok tt)
unfolding put_uint32
store_uint32_lem m pre suf lo v e h = store_lem m pre suf (put_uint32 v) lo (lo + 4) e refl h

pub write_int_lem :
    (m : TransporterMessage) (pre suf : List ℕ) (lo v : ℕ)
    → length pre ≡ lo
    → length (pre ++ suf) ≡ 61440
    → lo + 4 ≤ 61440
    → v < 4294967296
    → write_int lo v (with_payload m (pre ++ suf))
      ≡ (with_payload m (pre ++ put_uint32 v ++ drop 4 suf), ok (lo + 4))
unfolding write_int
write_int_lem m pre suf lo v e f h k = ground (arith, store_uint32_lem m pre suf lo v e)

length-stored :
    (pre suf : List ℕ) (v : ℕ)
    → length pre + 4 ≤ length (pre ++ suf)
    → length (pre ++ put_uint32 v ++ drop 4 suf) ≡ length (pre ++ suf)
length-stored pre suf v h = omega (
  arith,
  length-append (pre ++ put_uint32 v) (drop 4 suf),
  length-append pre (put_uint32 v),
  length-append pre suf,
  length-put_uint32 v,
  length-drop 4 suf,
)

pub write_string_lem :
    (m : TransporterMessage) (pre suf bs : List ℕ) (lo hi : ℕ)
    → length pre ≡ lo
    → length (pre ++ suf) ≡ 61440
    → lo + 4 + length bs ≡ hi
    → hi ≤ 61440
    → write_string lo bs (with_payload m (pre ++ suf))
      ≡ (with_payload m (pre ++ put_uint32 (length bs) ++ bs ++ drop (4 + length bs) suf), ok hi)
unfolding write_string
write_string_lem m pre suf bs lo hi e f g h = rw (drop-add 4 (length bs) suf) (
    ground (
      arith,
      store_uint32_lem m pre suf lo (length bs) e,
      length-stored pre suf (length bs),
      length-append pre (put_uint32 (length bs)),
      length-put_uint32 (length bs),
      store_lem m (pre ++ put_uint32 (length bs)) (drop 4 suf) bs (lo + 4) hi,
    ))

pub write_int_full :
    (m : TransporterMessage) (lo v : ℕ)
    → length m.payload_buffer ≡ 61440
    → lo ≤ 61440
    → 61440 < lo + 4
    → write_int lo v m ≡ (m, err (not_enough_space 61440 (lo + 4)))
unfolding write_int
write_int_full m lo v e h k = ground arith

-- Offsets and lengths below 2^31 do not wrap, so a string that does not fit is refused.
pub write_string_full :
    (m : TransporterMessage) (lo : ℕ) (bs : List ℕ)
    → length m.payload_buffer ≡ 61440
    → lo ≤ 61440
    → length bs < 2147483648
    → 61440 < lo + 4 + length bs
    → write_string lo bs m ≡ (m, err (not_enough_space 61440 (lo + 4 + length bs)))
unfolding write_string
write_string_full m lo bs e h l k = ground arith

-- Reading back a field that stands at `lo`, within the declared payload.
pub read_int_lem :
    (m : TransporterMessage) (pre post : List ℕ) (lo v : ℕ)
    → length pre ≡ lo
    → m.payload_buffer ≡ pre ++ put_uint32 v ++ post
    → lo + 4 ≤ payload_length m
    → payload_length m ≤ 61440
    → v < 4294967296
    → read_int lo m ≡ (m, ok (lo + 4, v))
unfolding read_int
read_int_lem m pre post lo v e f h b k =
    ground
      (arith, length-put_uint32 v, slice_at pre (put_uint32 v) post lo (lo + 4) e, uint32-put v k)

pub read_string_lem :
    (m : TransporterMessage) (pre bs post : List ℕ) (lo hi : ℕ)
    → length pre ≡ lo
    → m.payload_buffer ≡ pre ++ put_uint32 (length bs) ++ bs ++ post
    → lo + 4 + length bs ≡ hi
    → hi ≤ payload_length m
    → payload_length m ≤ 61440
    → read_string lo m ≡ (m, ok (hi, bs))
unfolding read_string
read_string_lem m pre bs post lo hi e f g h b = ground (
  arith,
  length-put_uint32 (length bs),
  length-append pre (put_uint32 (length bs)),
  size,
  slice_at (pre ++ put_uint32 (length bs)) bs post (lo + 4) hi,
  uint32-put (length bs),
)
  where
    size : slice lo (lo + 4) m.payload_buffer ≡ ok (put_uint32 (length bs))
    size =
        rw (f, append_assoc (pre ++ put_uint32 (length bs)) bs post)
          (slice_at pre (put_uint32 (length bs)) (bs ++ post) lo (lo + 4) e
            (omega (arith, length-put_uint32 (length bs))))
