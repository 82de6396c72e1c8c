-- ===== src/Client/Controller/Answers.antt =====
-- A request of client/controller and the answer to it, over the client of client/transportLayer.
use adb_remote.Prelude.{
  ℕ, ◌+◌, ◌≤◌, ◌≡◌, refl, List, [], ◌∷◌, ◌++◌, length, drop, ok, arith, uint32-put, M, ◌>>=◌, ◌>>◌,
  Result, put_uint32, u64,
}
use adb_remote.Protocol.Message.{TransporterMessage, set_direct_command}
use adb_remote.Protocol.Fields.Sequence.{Field, Sets, AreWords, encode, size, length-encode}
use adb_remote.Protocol.Payload.Loads.{Holds}
use adb_remote.Protocol.Wire.Frames.{framed, wire, after_write}
use adb_remote.Protocol.Wire.Read.{IsMessage}
use adb_remote.Transporter.Connection.{set}
use adb_remote.Transporter.Connection.Sending.{
  obtained, AllMessages, obtained-IsMessage, typed_framed,
}
use adb_remote.Client.Transport.{Client, outgoing, with_message, dispose_message}
use adb_remote.Client.Transport.Sending.{with_message_lem, read_round_lem, used, used-AllMessages}
use adb_remote.Client.Controller.{next_message, with_answer}

pub framed-Holds : (c : ℕ) (bs rest : List ℕ) → length bs ≤ 61440 → Holds (framed c bs rest) bs
framed-Holds c bs rest fits = record {
  rest = rest;
  buffer = refl;
  declared = uint32-put (length bs) (omega arith);
  fits = fits;
}

pub framed-IsMessage :
    (c : ℕ) (bs rest : List ℕ) → length (bs ++ rest) ≡ 61440 → IsMessage (framed c bs rest)
framed-IsMessage c bs rest e = record { header_size = unfold put_uint32 in refl; buffer_size = e }

-- What a requester does: it writes a typed message, waits, and reads the answer.
abbrev pub request :
    {A : Type 0}
    → ℕ
    → M TransporterMessage (Unit {0})
    → (TransporterMessage → Result A)
    → M Client A
request k payload use_message = do
  u ← with_message (set (set_direct_command k) >> payload)
  r ← next_message
  with_answer use_message r

receive_lem :
    {A : Type 0} (use_message : TransporterMessage → Result A) (answer : Result A) (c : ℕ)
    (bs more : List ℕ) (cl : Client)
    → AllMessages cl.pool
    → cl.input ≡ wire c bs ++ more
    → length bs ≤ 61440
    → ((rest : List ℕ) → use_message (framed c bs rest) ≡ answer)
    → let (cl', r) = (next_message >>= with_answer use_message) cl in
      (r ≡ answer) × (cl'.input ≡ more) × (cl'.writer ≡ cl.writer)
unfolding next_message with_answer dispose_message
receive_lem use_message answer c bs more cl all input fits reads =
    let (round, opened) = read_round_lem c bs more cl all input fits in
    let behind = drop (length bs) (obtained cl.pool).payload_buffer in
    rw (round, with_answer, opened, reads behind) (refl, refl, refl)

-- A typed message that fits is built, written whole, and its container handed back.
pub send_typed :
    (k : ℕ) (payload : M TransporterMessage (Unit {0})) (fs : List Field) (cl : Client)
    → Sets payload fs
    → AllMessages cl.pool
    → AreWords fs
    → size fs ≤ 61440
    → 12 + size fs ≤ cl.writer.room
    → (m : TransporterMessage) × IsMessage m
      × (with_message (set (set_direct_command k) >> payload) cl ≡ (
        record cl {
          pool = used m cl.pool;
          writer = after_write k (encode [] fs) cl.writer;
          bytes_sent = u64 (cl.bytes_sent + (12 + length (encode [] fs)));
          captured = (outgoing, wire k (encode [] fs)) ∷ cl.captured;
        },
        ok tt,
      ))
send_typed k payload fs cl sets all w small room =
    let size' = (obtained-IsMessage cl.pool all).buffer_size in
    let long = length-encode [] fs in
    let (rest, e, whole) = typed_framed payload fs k (obtained cl.pool) sets size' w small in
    (
      framed k (encode [] fs) rest,
      framed-IsMessage k (encode [] fs) rest whole,
      with_message_lem (set (set_direct_command k) >> payload) k (encode [] fs) rest cl e
          (omega (arith, long)) (omega (arith, long)),
    )

-- A request is written whole, and its answer is taken off the connection and read.
pub request_lem :
    {A : Type 0} (k : ℕ) (payload : M TransporterMessage (Unit {0})) (fs : List Field)
    (use_message : TransporterMessage → Result A) (answer : Result A) (c : ℕ) (bs more : List ℕ)
    (cl : Client)
    → Sets payload fs
    → AllMessages cl.pool
    → AreWords fs
    → size fs ≤ 61440
    → 12 + size fs ≤ cl.writer.room
    → cl.input ≡ wire c bs ++ more
    → length bs ≤ 61440
    → ((rest : List ℕ) → use_message (framed c bs rest) ≡ answer)
    → let (cl', r) = request k payload use_message cl in
      (r ≡ answer) × (cl'.input ≡ more) × (cl'.writer ≡ after_write k (encode [] fs) cl.writer)
request_lem k payload fs use_message answer c bs more cl sets all w small room input fits reads =
    let (m, valid, sent) = send_typed k payload fs cl sets all w small room in
    let all' = used-AllMessages m cl.pool valid all in
    let cl' = record cl {
      pool = used m cl.pool;
      writer = after_write k (encode [] fs) cl.writer;
      bytes_sent = u64 (cl.bytes_sent + (12 + length (encode [] fs)));
      captured = (outgoing, wire k (encode [] fs)) ∷ cl.captured;
    } in
    rw sent (receive_lem use_message answer c bs more cl' all' input fits reads)
