-- ===== src/Protocol/Payload/Loads.antt =====
-- Each `Get` of payload.definition.go returns the fields that a payload holds, and none of them can
-- be made to read outside the buffer.
use Prim.Native.Nat.{zero-le}
use native.Mathlib.Nat.{mod-eq_of_lt}
use adb_remote.Prelude.{
  ℕ, ◌+◌, ◌≤◌, ◌<◌, ◌≡◌, refl, sym, ap, ◌∙◌, List, [], ◌∷◌, ◌++◌, length, put_uint32, ok, M, arith,
  append_assoc, append-nil, bind, length-append, length-put_uint32,
}
use adb_remote.Protocol.Message.{TransporterMessage, payload_length}
use adb_remote.Protocol.Fields.{read_int, read_string}
use adb_remote.Protocol.Fields.Laws.{read_int_lem, read_string_lem}
use adb_remote.Protocol.Fields.Safety.{
  Fits, Unharmed, bind-Unharmed, read_int-ReadsField, read_string-ReadsField,
}
use adb_remote.Protocol.Fields.Sequence.{Field, int, text, encode, length-encode-ge}
use adb_remote.Protocol.Payload.Stores.{
  fields_error, fields_connect, fields_connect_response, fields_create_room_response,
  fields_connect_room, fields_connect_room_result,
}
use adb_remote.Protocol.Payload.{
  PayloadError, PayloadConnect, PayloadConnectResponse, PayloadCreateRoomResponse,
  PayloadConnectRoom, PayloadConnectRoomResult, get_error_payload, get_payload_connect,
  get_payload_connect_response, get_payload_create_room_response, get_payload_connect_room,
  get_payload_connect_room_response,
}

-- The payload is `bs`: the declared length is its length, and the buffer begins with it.
pub record Holds (m : TransporterMessage) (bs : List ℕ) : Type 0 where
  pub rest : List ℕ
  pub buffer : m.payload_buffer ≡ bs ++ rest
  pub declared : payload_length m ≡ length bs
  pub fits : length bs ≤ 61440

encode-split : (pre : List ℕ) (fs : List Field) → (post : List ℕ) × (encode pre fs ≡ pre ++ post)
encode-split pre [] = ([], sym (append-nil pre))
encode-split pre (int v ∷ fs) =
    let (post, e) = encode-split (pre ++ put_uint32 v) fs in
    (put_uint32 v ++ post, e ∙ append_assoc pre (put_uint32 v) post)
encode-split pre (text s ∷ fs) =
    let word = put_uint32 (length s) in
    let (post, e) = encode-split (pre ++ word ++ s) fs in
    (word ++ (s ++ post), e ∙ append_assoc (pre ++ word) s post ∙ append_assoc pre word (s ++ post))

module _ (m : TransporterMessage) (pre : List ℕ) where
  read_int_field :
      (v : ℕ) (fs : List Field)
      → Holds m (encode pre (int v ∷ fs))
      → v < 4294967296
      → read_int (length pre) m ≡ (m, ok (length (pre ++ put_uint32 v), v))
  read_int_field v fs h w =
      let (post, e) = encode-split (pre ++ put_uint32 v) fs in
      let reach : length (pre ++ put_uint32 v) ≡ length pre + 4 =
        omega (arith, length-append pre (put_uint32 v), length-put_uint32 v) in
      rw reach (
        read_int_lem m pre (post ++ h.rest) (length pre) v refl
          (h.buffer ∙ ap (λ (b : List ℕ). b ++ h.rest) e ∙ append_assoc _ post h.rest)
          (omega (arith, h.declared, length-encode-ge (pre ++ put_uint32 v) fs))
          (omega (arith, h.declared, h.fits)) w)

  read_text_field :
      (s : List ℕ) (fs : List Field)
      → Holds m (encode pre (text s ∷ fs))
      → read_string (length pre) m ≡ (m, ok (length (pre ++ put_uint32 (length s) ++ s), s))
  read_text_field s fs h =
      let next = pre ++ put_uint32 (length s) ++ s in
      let (post, e) = encode-split next fs in
      read_string_lem m pre s (post ++ h.rest) (length pre) (length next) refl
        (h.buffer ∙ ap (λ (b : List ℕ). b ++ h.rest) e ∙ append_assoc next post h.rest)
        (omega (
          arith,
          length-append (pre ++ put_uint32 (length s)) s,
          length-append pre (put_uint32 (length s)),
          length-put_uint32 (length s),
        ))
        (omega (arith, h.declared, length-encode-ge next fs)) (omega (arith, h.declared, h.fits))

abbrev pub Gets : {A : Type 0} → M TransporterMessage A → List ℕ → A → Type 0
Gets get bs a = (m : TransporterMessage) → Holds m bs → get m ≡ (m, ok a)

pub get_error_payload-Gets :
    (p : PayloadError)
    → p.error_code < 4294967296
    → Gets get_error_payload (encode [] (fields_error p)) p
unfolding get_error_payload
get_error_payload-Gets p w m h = rw (
  read_int_field m [] p.error_code (text p.error_message ∷ []) h w,
  read_text_field m (put_uint32 p.error_code) p.error_message [] h,
)

pub get_payload_connect-Gets :
    (p : PayloadConnect)
    → p.protocol_version < 4294967296
    → Gets get_payload_connect (encode [] (fields_connect p)) p
unfolding get_payload_connect
get_payload_connect-Gets p w m h =
    rw (read_int_field m [] p.protocol_version [] h w, mod-eq_of_lt w)

pub get_payload_connect_response-Gets :
    (p : PayloadConnectResponse)
    → Gets get_payload_connect_response (encode [] (fields_connect_response p)) p
unfolding get_payload_connect_response
get_payload_connect_response-Gets p m h = rw (read_text_field m [] p.client_id [] h)

pub get_payload_create_room_response-Gets :
    (p : PayloadCreateRoomResponse)
    → Gets get_payload_create_room_response (encode [] (fields_create_room_response p)) p
unfolding get_payload_create_room_response
get_payload_create_room_response-Gets p m h = rw (read_text_field m [] p.room_id [] h)

pub get_payload_connect_room-Gets :
    (p : PayloadConnectRoom) → Gets get_payload_connect_room (encode [] (fields_connect_room p)) p
unfolding get_payload_connect_room
get_payload_connect_room-Gets p m h =
    let room = put_uint32 (length p.room_id) ++ p.room_id in
    let client = room ++ put_uint32 (length p.client_id) ++ p.client_id in
    rw (
      read_text_field m [] p.room_id (text p.client_id ∷ text p.public_key ∷ []) h,
      read_text_field m room p.client_id (text p.public_key ∷ []) h,
      read_text_field m client p.public_key [] h,
    )

pub get_payload_connect_room_response-Gets :
    (p : PayloadConnectRoomResult)
    → p.accepted < 4294967296
    → Gets get_payload_connect_room_response (encode [] (fields_connect_room_result p)) p
unfolding get_payload_connect_room_response
get_payload_connect_room_response-Gets p w m h =
    let flag = put_uint32 p.accepted in
    let client = flag ++ put_uint32 (length p.client_id) ++ p.client_id in
    rw (
      read_int_field m [] p.accepted (text p.client_id ∷ text p.public_key ∷ []) h w,
      read_text_field m flag p.client_id (text p.public_key ∷ []) h,
      read_text_field m client p.public_key [] h,
    )

-- The continuations of the reads below, whatever they return.
module _ (m : TransporterMessage) (v : Fits m) where
  after_int :
      {B : Type 0} (k : ℕ × ℕ → M TransporterMessage B)
      → ((offset : ℕ) (n : ℕ) → offset ≤ payload_length m → Unharmed m (k (offset, n) m))
      → Unharmed m (bind (read_int 0 m) k)
  after_int k = bind-Unharmed m (read_int 0 m) k (read_int-ReadsField m 0 v zero-le)

  after_string :
      {B : Type 0} (offset : ℕ) (k : ℕ × List ℕ → M TransporterMessage B)
      → offset ≤ payload_length m
      → ((next : ℕ) (s : List ℕ) → next ≤ payload_length m → Unharmed m (k (next, s) m))
      → Unharmed m (bind (read_string offset m) k)
  after_string offset k h =
      bind-Unharmed m (read_string offset m) k (read_string-ReadsField m offset v h)

-- Whatever the payload's bytes are, no `Get` panics and none changes the message.
pub gets-Unharmed :
    (m : TransporterMessage)
    → Fits m
    → Unharmed m (get_error_payload m)
      × Unharmed m (get_payload_connect m)
      × Unharmed m (get_payload_connect_response m)
      × Unharmed m (get_payload_create_room_response m)
      × Unharmed m (get_payload_connect_room m)
      × Unharmed m (get_payload_connect_room_response m)
unfolding get_error_payload get_payload_connect get_payload_connect_response
    get_payload_create_room_response get_payload_connect_room get_payload_connect_room_response
gets-Unharmed m v = (
  after_int m v _ (λ o n h. after_string m v o _ h (λ o' s l. refl)),
  after_int m v _ (λ o n h. refl),
  after_string m v 0 _ zero-le (λ o s h. refl),
  after_string m v 0 _ zero-le (λ o s h. refl),
  after_string m v 0 _ zero-le
      (λ o s h. after_string m v o _ h (λ o' s' h'. after_string m v o' _ h' (λ o'' s'' l. refl))),
  after_int m v _
      (λ o n h. after_string m v o _ h (λ o' s h'. after_string m v o' _ h' (λ o'' s' l. refl))),
)
