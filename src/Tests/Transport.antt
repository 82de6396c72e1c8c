-- ===== src/Tests/Transport.antt =====
-- The client's reader at concrete messages.
use adb_remote.Prelude.{
  ℕ, ◌+◌, ◌*◌, ◌≤◌, ◌≡◌, Bool, true, false, List, [], ◌∷◌, ◌++◌, length, arith, inl,
}
use adb_remote.Protocol.Message.{TransporterMessage, create_transporter_message}
use adb_remote.Protocol.Wire.Frames.{wire}
use adb_remote.Pool.{ObjectPool}
use adb_remote.Client.Transport.{Client}
use adb_remote.Client.Transport.Reader.{start_reader}
use adb_remote.Client.Transport.Reader.Ending.{Settled, start_reader_ends}

-- Two messages and the first byte of a third.
abbrev client : Client
client = record {
  pool = record {
    free = [];
    next_ref = 0;
    store = λ r. record { contents = create_transporter_message; current = 0; target = 1 };
  };
  input = wire 0x1001 (1 ∷ 2 ∷ []) ++ wire 7 [] ++ 9 ∷ [];
  writer = record { out = []; room = 1000 };
  bytes_sent = 24;
  bytes_received = 0;
  captured = [];
}

abbrev untouched : ℕ → ObjectPool TransporterMessage → ObjectPool TransporterMessage
untouched n p = p

abbrev never : ℕ → Bool
never n = false

abbrev always : ℕ → Bool
always n = true

start_reader_ends_example :
    let (c', rs, standing) = start_reader untouched never never always 3 client in
    Settled untouched never never always 3 (length rs) standing
    × (12 * length rs ≤ length client.input)
unfolding adb_remote.Prelude.put_uint32
start_reader_ends_example =
    start_reader_ends untouched never never always 3 client (inl (omega arith))
