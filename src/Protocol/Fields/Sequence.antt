-- ===== src/Protocol/Fields/Sequence.antt =====
-- A payload as a sequence of fields: what a chain of writes stores, and when it fits.
use adb_remote.Prelude.{
  ℕ, ◌+◌, ◌≤◌, ◌<◌, ◌≡◌, refl, List, [], ◌∷◌, ◌++◌, length, drop, put_uint32, ok, err, Result, M,
  ◌∙◌, pure, ◌>>=◌, arith, length-append, length-put_uint32, length-drop, slice_at, dec_lt,
  not_enough_space,
}
use adb_remote.Protocol.Crc.{checksum_ieee}
use adb_remote.Protocol.Message.{TransporterMessage}
use adb_remote.Protocol.Fields.{write_int, write_string, update_payload_metadata}
use adb_remote.Protocol.Fields.Laws.{
  with_payload, write_int_lem, write_string_lem, write_int_full, write_string_full,
}

pub data Field : Type 0 where
  int : ℕ → Field
  text : List ℕ → Field

-- The bytes of the fields, behind those of `pre`.
abbrev pub encode : List ℕ → List Field → List ℕ
encode pre [] = pre
encode pre (int v ∷ fs) = encode (pre ++ put_uint32 v) fs
encode pre (text s ∷ fs) = encode (pre ++ put_uint32 (length s) ++ s) fs

-- Values are uint32, and texts are shorter than 2 GiB.
abbrev pub AreWords : List Field → Type 0
AreWords [] = Unit {0}
AreWords (int v ∷ fs) = (v < 4294967296) × AreWords fs
AreWords (text s ∷ fs) = (length s < 2147483648) × AreWords fs

abbrev pub write_fields : ℕ → List Field → M TransporterMessage ℕ
write_fields offset [] = pure offset
write_fields offset (int v ∷ fs) = write_int offset v >>= λ next. write_fields next fs
write_fields offset (text s ∷ fs) = write_string offset s >>= λ next. write_fields next fs

length-int : (pre : List ℕ) (v : ℕ) → length (pre ++ put_uint32 v) ≡ length pre + 4
length-int pre v = omega (arith, length-append pre (put_uint32 v), length-put_uint32 v)

length-text :
    (pre s : List ℕ) → length (pre ++ put_uint32 (length s) ++ s) ≡ length pre + 4 + length s
length-text pre s =
    omega (arith, length-append (pre ++ put_uint32 (length s)) s, length-int pre (length s))

pub length-encode-ge : (pre : List ℕ) (fs : List Field) → length pre ≤ length (encode pre fs)
length-encode-ge pre [] = omega arith
length-encode-ge pre (int v ∷ fs) =
    omega (arith, length-encode-ge (pre ++ put_uint32 v) fs, length-int pre v)
length-encode-ge pre (text s ∷ fs) =
    omega (arith, length-encode-ge (pre ++ put_uint32 (length s) ++ s) fs, length-text pre s)

-- The bytes that the fields take.
abbrev pub size : List Field → ℕ
size [] = 0
size (int v ∷ fs) = 4 + size fs
size (text s ∷ fs) = 4 + length s + size fs

pub length-encode : (pre : List ℕ) (fs : List Field) → length (encode pre fs) ≡ length pre + size fs
length-encode pre [] = omega arith
length-encode pre (int v ∷ fs) =
    omega (arith, length-encode (pre ++ put_uint32 v) fs, length-int pre v)
length-encode pre (text s ∷ fs) =
    omega (arith, length-encode (pre ++ put_uint32 (length s) ++ s) fs, length-text pre s)

-- Bytes that overwrite a part of the buffer leave its length.
length-filled :
    (pre bs suf : List ℕ) (k : ℕ)
    → length pre + k ≤ length (pre ++ suf)
    → length bs ≡ length pre + k
    → length (bs ++ drop k suf) ≡ length (pre ++ suf)
length-filled pre bs suf k h e =
    omega (arith, length-append bs (drop k suf), length-append pre suf, length-drop k suf)

module _ (m : TransporterMessage) where
  -- Fields that fit are stored one behind the other, and the rest of the buffer is kept.
  pub write_fields_lem :
      (pre suf : List ℕ) (lo : ℕ) (fs : List Field)
      → length pre ≡ lo
      → length (pre ++ suf) ≡ 61440
      → length (encode pre fs) ≤ 61440
      → AreWords fs
      → (rest : List ℕ) × (write_fields lo fs (with_payload m (pre ++ suf))
          ≡ (with_payload m (encode pre fs ++ rest), ok (length (encode pre fs))))
        × (length (encode pre fs ++ rest) ≡ 61440)
  write_fields_lem pre suf lo [] e f g w = (suf, ground arith, f)
  write_fields_lem pre suf lo (int v ∷ fs) e f g w =
      let next = pre ++ put_uint32 v in
      let reach : length next ≡ lo + 4 = omega (arith, length-int pre v) in
      let fits : lo + 4 ≤ 61440 = omega (arith, length-encode-ge next fs) in
      let tail =
        write_fields_lem next (drop 4 suf) (lo + 4) fs reach
          (length-filled pre next suf 4 (omega arith) (omega arith) ∙ f) g w.1 in
      (tail.0, rw (write_int_lem m pre suf lo v e f fits w.0) tail.1, tail.2)
  write_fields_lem pre suf lo (text s ∷ fs) e f g w =
      let next = pre ++ put_uint32 (length s) ++ s in
      let hi = lo + 4 + length s in
      let reach : length next ≡ hi = omega (arith, length-text pre s) in
      let fits : hi ≤ 61440 = omega (arith, length-encode-ge next fs) in
      let tail =
        write_fields_lem next (drop (4 + length s) suf) hi fs reach
          (length-filled pre next suf (4 + length s) (omega arith) (omega arith) ∙ f) g w.1 in
      (tail.0, rw (write_string_lem m pre suf s lo hi e f refl fits) tail.1, tail.2)

  -- Fields that do not fit are refused, with no space left as the error.
  pub write_fields_full :
      (pre suf : List ℕ) (lo : ℕ) (fs : List Field)
      → length pre ≡ lo
      → length (pre ++ suf) ≡ 61440
      → 61440 < length (encode pre fs)
      → AreWords fs
      → (m' : TransporterMessage) × (end : ℕ) × (write_fields lo fs (with_payload m (pre ++ suf))
          ≡ (m', err (not_enough_space 61440 end)))
  write_fields_full pre suf lo [] e f g w = absurd (omega (arith, length-append pre suf))
  write_fields_full pre suf lo (int v ∷ fs) e f g w = elim (dec_lt 61440 (lo + 4)) [
    | yes full ↦ (
      with_payload m (pre ++ suf),
      lo + 4,
      rw (
          write_int_full (with_payload m (pre ++ suf)) lo v f (omega (arith, length-append pre suf))
            full),
    )
    | no fits ↦
        let next = pre ++ put_uint32 v in
        let tail =
          write_fields_full next (drop 4 suf) (lo + 4) fs (omega (arith, length-int pre v))
            (length-filled pre next suf 4 (omega arith) (omega (arith, length-int pre v)) ∙ f) g
            w.1 in
        (tail.0, tail.1, rw (write_int_lem m pre suf lo v e f (omega arith) w.0) tail.2)
  ]
  write_fields_full pre suf lo (text s ∷ fs) e f g w = elim (dec_lt 61440 (lo + 4 + length s)) [
    | yes full ↦ (
      with_payload m (pre ++ suf),
      lo + 4 + length s,
      rw (
          write_string_full (with_payload m (pre ++ suf)) lo s f
            (omega (arith, length-append pre suf)) w.0 full),
    )
    | no fits ↦
        let next = pre ++ put_uint32 (length s) ++ s in
        let hi = lo + 4 + length s in
        let tail =
          write_fields_full next (drop (4 + length s) suf) hi fs (omega (arith, length-text pre s))
            (length-filled pre next suf (4 + length s) (omega arith)
                (omega (arith, length-text pre s))
              ∙ f)
            g w.1 in
        (tail.0, tail.1, rw (write_string_lem m pre suf s lo hi e f refl (omega arith)) tail.2)
  ]

-- A message whose payload is `bs`, with `rest` behind it in the buffer.
abbrev pub stored : TransporterMessage → List ℕ → List ℕ → TransporterMessage
stored m bs rest = record m {
  payload_length_buffer = put_uint32 (length bs);
  payload_crc32_buffer = put_uint32 (checksum_ieee bs);
  payload_buffer = bs ++ rest;
}

pub update_payload_metadata_lem :
    (m : TransporterMessage) (bs rest : List ℕ)
    → update_payload_metadata (length bs) (with_payload m (bs ++ rest)) ≡ (stored m bs rest, ok tt)
unfolding update_payload_metadata
update_payload_metadata_lem m bs rest = rw (slice_at [] bs rest 0 (length bs) refl (omega arith))

-- Every `Set` is such a chain, and then the metadata.
abbrev pub write_payload : List Field → M TransporterMessage (Unit {0})
write_payload fs = write_fields 0 fs >>= update_payload_metadata

-- What a `Set` leaves: the encoded fields at the start of the buffer, and the header that
-- declares them.
abbrev pub Sets :
    (TransporterMessage → TransporterMessage × Result (Unit {0})) → List Field → Type 0
Sets set fs =
    (m : TransporterMessage)
    → length m.payload_buffer ≡ 61440
    → AreWords fs
    → (length (encode [] fs) ≤ 61440
        → (rest : List ℕ) × (set m ≡ (stored m (encode [] fs) rest, ok tt))
          × (length (encode [] fs ++ rest) ≡ 61440))
      × (61440 < length (encode [] fs)
          → (m' : TransporterMessage) × (end : ℕ) × (set m
              ≡ (m', err (not_enough_space 61440 end))))

pub write_payload-Sets : (fs : List Field) → Sets (write_payload fs) fs
write_payload-Sets fs m v w = (
  λ h.
      let (rest, e, k) = write_fields_lem m [] m.payload_buffer 0 fs refl v h w in
      (rest, rw e (update_payload_metadata_lem m (encode [] fs) rest), k),
  λ h.
      let (m', end, e) = write_fields_full m [] m.payload_buffer 0 fs refl v h w in (m', end, rw e),
)

pub Sets-cong :
    (set set' : M TransporterMessage (Unit {0})) (fs : List Field)
    → ((m : TransporterMessage) → set m ≡ set' m)
    → Sets set' fs
    → Sets set fs
Sets-cong set set' fs same h m v w = (
  λ k. let (rest, e, l) = (h m v w).0 k in (rest, same m ∙ e, l),
  λ k. let (m', end, e) = (h m v w).1 k in (m', end, same m ∙ e),
)
