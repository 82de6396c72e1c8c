-- ===== src/Transporter/Connection/Sending.antt =====
-- What the `Send` methods put on the wire, whatever the pooled message held before.
use Prim.Native.Nat.{bit_or}
use adb_remote.Prelude.{
  ℕ, ◌+◌, ◌≤◌, ◌<◌, ◌≡◌, refl, sym, ap, ◌∙◌, Bool, true, false, List, [], ◌∷◌, ◌++◌, length, ok, M,
  ◌>>◌, put_uint32, arith, ◌==◌, if◌then◌else◌, ==_refl, subst, ◌⊎◌, inl, inr,
}
use adb_remote.Protocol.Message.{
  TransporterMessage, create_transporter_message, Writer, set_direct_command,
}
use adb_remote.Protocol.Payload.{
  PayloadError, PayloadConnectRoomResult, set_error_payload, set_payload_connect_room_result,
}
use adb_remote.Protocol.Payload.Stores.{
  fields_error, fields_connect_room_result, set_error_payload-Sets,
  set_payload_connect_room_result-Sets,
}
use adb_remote.Protocol.Fields.Sequence.{Field, Sets, AreWords, encode, size, length-encode}
use adb_remote.Protocol.Message.{set_error_response_command, set_response_command}
use adb_remote.Protocol.Wire.Frames.{framed, wire, after_write, write_lem}
use adb_remote.Protocol.Wire.Read.{IsMessage, create_transporter_message-IsMessage}
use adb_remote.Pool.{ObjectPool, Container, obtain, contents_of, dispose, update}
use adb_remote.Transporter.Connection.{
  Connection, finish, write_built, build_and_write, send_built, send_guest_left, put_contents, set,
  send_error_response, send_join_room_response,
}

-- What `Obtain` makes usable: the next pooled message as it was left, or a new one.
pub obtained : ObjectPool TransporterMessage → TransporterMessage
obtained p =
    ((obtain create_transporter_message p).0.store (obtain create_transporter_message p).1).contents

pub contents_of-obtain :
    (p : ObjectPool TransporterMessage)
    → contents_of (obtain create_transporter_message p).1 (obtain create_transporter_message p).0
      ≡ ok (obtained p)
unfolding contents_of obtain obtained
contents_of-obtain p = go p.free
  where
    go :
        (l : List ℕ)
        → contents_of
            (obtain create_transporter_message (record p { free = l })).1
            (obtain create_transporter_message (record p { free = l })).0
          ≡ ok (obtained (record p { free = l }))
    go [] = ground (arith, ==_refl p.next_ref)
    go (r ∷ rs) = ground (arith, ==_refl r)

pub obtained-new :
    (p : ObjectPool TransporterMessage) → p.free ≡ [] → obtained p ≡ create_transporter_message
unfolding obtained obtain
obtained-new p e = rw e (ground (arith, ==_refl p.next_ref))

pub List-cases : (xs : List ℕ) → (xs ≡ []) ⊎ ((x : ℕ) × (rest : List ℕ) × (xs ≡ x ∷ rest))
List-cases [] = inl refl
List-cases (x ∷ xs) = inr (x, xs, refl)

pub obtained-pooled :
    (p : ObjectPool TransporterMessage) (r : ℕ) (rest : List ℕ)
    → p.free ≡ r ∷ rest
    → obtained p ≡ (p.store r).contents
unfolding obtained obtain
obtained-pooled p r rest e = rw e (ground (arith, ==_refl r))

-- Every message that the pool can hand out has buffers of the right sizes.
abbrev pub AllMessages : ObjectPool TransporterMessage → Type 0
AllMessages p = (r : ℕ) → IsMessage (p.store r).contents

pub obtained-IsMessage :
    (p : ObjectPool TransporterMessage) → AllMessages p → IsMessage (obtained p)
obtained-IsMessage p all = elim (List-cases p.free) [
  | inl e ↦ subst IsMessage (sym (obtained-new p e)) create_transporter_message-IsMessage
  | inr (r, rest, e) ↦ subst IsMessage (sym (obtained-pooled p r rest e)) (all r)
]

pub either_contents :
    (b : Bool) (c c' : Container TransporterMessage)
    → IsMessage c.contents
    → IsMessage c'.contents
    → IsMessage (if b then c else c').contents
either_contents true c c' v v' = v
either_contents false c c' v v' = v'

pub put_contents-AllMessages :
    (r : ℕ) (m : TransporterMessage) (p : ObjectPool TransporterMessage)
    → IsMessage m
    → AllMessages p
    → AllMessages (put_contents r m p)
put_contents-AllMessages r m p v all q =
    either_contents (q == r) (record (p.store r) { contents = m }) (p.store q) v (all q)

pub obtain-AllMessages :
    (p : ObjectPool TransporterMessage)
    → AllMessages p
    → AllMessages (obtain create_transporter_message p).0
unfolding obtain adb_remote.Pool.new_disposable_object_container adb_remote.Pool.reset
obtain-AllMessages p all q = elim (List-cases p.free) [
  | inl e ↦
      rw (e, obtain)
        (either_contents (q == p.next_ref)
          (record { contents = create_transporter_message; current = 0; target = 1 }) (p.store q)
          create_transporter_message-IsMessage (all q))
  | inr (r, rest, e) ↦
      rw (e, obtain)
        (either_contents (q == r) (record (p.store r) { current = 0; target = 1 }) (p.store q)
          (all r) (all q))
]

pub build_and_write_lem :
    (build : M TransporterMessage (Unit {0})) (c : ℕ) (bs rest : List ℕ) (r : ℕ)
    (m : TransporterMessage) (cc : Connection)
    → build m ≡ (framed c bs rest, ok tt)
    → length bs ≤ 61440
    → 12 + length bs ≤ cc.writer.room
    → build_and_write build r (ok m) cc ≡ (
      record cc {
        pool = put_contents r (framed c bs rest) cc.pool;
        writer = after_write c bs cc.writer;
      },
      ok tt,
    )
unfolding build_and_write write_built
build_and_write_lem build c bs rest r m cc e h room = rw (e, write_lem c bs rest cc.writer h room)

-- A `Send` whose message is built, and has room on the connection.
send_built_lem :
    (build : M TransporterMessage (Unit {0})) (c : ℕ) (bs rest : List ℕ) (cc : Connection)
    → build (obtained cc.pool) ≡ (framed c bs rest, ok tt)
    → length bs ≤ 61440
    → 12 + length bs ≤ cc.writer.room
    → ((send_built build cc).1 ≡ ok tt)
      × ((send_built build cc).0.writer ≡ after_write c bs cc.writer)
unfolding send_built finish
send_built_lem build c bs rest cc e h room =
    let (p, r) = obtain create_transporter_message cc.pool in
    let opened = contents_of-obtain cc.pool in
    let written =
      build_and_write_lem build c bs rest r (obtained cc.pool) (record cc { pool = p }) e h room in
    (rw (opened, written), rw (opened, written))

-- A typed message: the command, then a `Set` that stores the fields.
pub typed_framed :
    (payload : M TransporterMessage (Unit {0})) (fs : List Field) (c : ℕ) (m : TransporterMessage)
    → Sets payload fs
    → length m.payload_buffer ≡ 61440
    → AreWords fs
    → size fs ≤ 61440
    → (rest : List ℕ) × ((set (set_direct_command c) >> payload) m
        ≡ (framed c (encode [] fs) rest, ok tt))
      × (length (encode [] fs ++ rest) ≡ 61440)
unfolding set_direct_command
typed_framed payload fs c m sets v w fits =
    (sets (set_direct_command c m) v w).0 (omega (arith, length-encode [] fs))

pub send_typed_lem :
    (payload : M TransporterMessage (Unit {0})) (fs : List Field) (c : ℕ) (cc : Connection)
    → Sets payload fs
    → AllMessages cc.pool
    → AreWords fs
    → size fs ≤ 61440
    → 12 + size fs ≤ cc.writer.room
    → let build = set (set_direct_command c) >> payload in
      ((send_built build cc).1 ≡ ok tt)
      × ((send_built build cc).0.writer ≡ after_write c (encode [] fs) cc.writer)
send_typed_lem payload fs c cc sets all w fits room =
    let v = (obtained-IsMessage cc.pool all).buffer_size in
    let long = length-encode [] fs in
    let (rest, e, _) = typed_framed payload fs c (obtained cc.pool) sets v w fits in
    send_built_lem (set (set_direct_command c) >> payload) c (encode [] fs) rest cc e
      (omega (arith, long)) (omega (arith, long))

module _ (cc : Connection) (all : AllMessages cc.pool) where
  -- An error response that fits in 61440 bytes and on the connection is written whole: its bytes
  -- are the frame of the command with the error bit and of the code and the text, whatever the
  -- pooled message held before.
  pub send_error_response_lem :
      (c code : ℕ) (text : List ℕ)
      → code < 4294967296
      → 8 + length text ≤ 61440
      → 20 + length text ≤ cc.writer.room
      → let p : PayloadError = record { error_code = code; error_message = text } in
        ((send_error_response c code text cc).1 ≡ ok tt)
        × ((send_error_response c code text cc).0.writer
            ≡ after_write (bit_or c 0x2000) (encode [] (fields_error p)) cc.writer)
  unfolding send_error_response set_error_response_command
  send_error_response_lem c code text word fits room =
      let p : PayloadError = record { error_code = code; error_message = text } in
      send_typed_lem (set_error_payload p) (fields_error p) (bit_or c 0x2000) cc
        (set_error_payload-Sets p) all (word, (omega arith, tt)) (omega arith) (omega arith)

  -- An owner's decision on a join request that fits in 61440 bytes and on the connection is
  -- written whole: its bytes are the frame of the response command and of the flag, the id and the
  -- key, whatever the pooled message held before.
  pub send_join_room_response_lem :
      (flag : ℕ) (client key : List ℕ)
      → flag < 4294967296
      → 12 + length client + length key ≤ 61440
      → 24 + length client + length key ≤ cc.writer.room
      → let p : PayloadConnectRoomResult = record {
        accepted = flag;
        client_id = client;
        public_key = key;
      } in
        ((send_join_room_response flag client key cc).1 ≡ ok tt)
        × ((send_join_room_response flag client key cc).0.writer
            ≡ after_write 0x1004 (encode [] (fields_connect_room_result p)) cc.writer)
  unfolding send_join_room_response set_response_command
  send_join_room_response_lem flag client key word fits room =
      let p : PayloadConnectRoomResult = record {
        accepted = flag;
        client_id = client;
        public_key = key;
      } in
      send_typed_lem (set_payload_connect_room_result p) (fields_connect_room_result p) 0x1004 cc
        (set_payload_connect_room_result-Sets p) all (word, (omega arith, (omega arith, tt)))
        (omega arith) (omega arith)

-- `SendGuestLeft` sets the command and no payload. If there is room on the connection, it writes
-- as its payload the one that the pooled message had the last time that it was used.
pub send_guest_left_stale :
    (cc : Connection) (r : ℕ) (free : List ℕ) (c : ℕ) (bs rest : List ℕ)
    → cc.pool.free ≡ r ∷ free
    → (cc.pool.store r).contents ≡ framed c bs rest
    → length bs ≤ 61440
    → 12 + length bs ≤ cc.writer.room
    → ((send_guest_left cc).1 ≡ ok tt)
      × ((send_guest_left cc).0.writer.out ≡ cc.writer.out ++ wire 7 bs)
unfolding send_guest_left
send_guest_left_stale cc r free c bs rest top old h room =
    let build = set (set_direct_command 7) in
    let e : build (obtained cc.pool) ≡ (framed 7 bs rest, ok tt) =
      unfold set_direct_command in
      (ap (λ (m : TransporterMessage). (record m { command_buffer = put_uint32 7 }, ok tt))
        (obtained-pooled cc.pool r free top ∙ old)) in
    let done = send_built_lem build 7 bs rest cc e h room in
    (done.0, ap (λ (w : Writer). w.out) done.1)
