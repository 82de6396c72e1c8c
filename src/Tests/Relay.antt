-- ===== src/Tests/Relay.antt =====
-- A relayed ADB message at concrete bytes.
use adb_remote.Prelude.{ℕ, ◌≡◌, refl, sym, ap, false, List, [], ◌∷◌, ◌++◌, ok, arith}
use adb_remote.Protocol.Message.{create_transporter_message, Writer}
use adb_remote.Protocol.Wire.Frames.{wire}
use adb_remote.Protocol.Wire.Read.{create_transporter_message-IsMessage}
use adb_remote.Transporter.Connection.Sending.{AllMessages}
use adb_remote.Client.AdbMessage.Frames as Frames
use adb_remote.Client.AdbProxy.Answering.{created}
use adb_remote.Client.Relay.{RelayState, local_round, remote_round}
use adb_remote.Client.Relay.Verbatim.{local_round_lem, relayed_verbatim}

-- A WRTE as a client sends it that skips checksums.
abbrev packet : List ℕ
packet = Frames.packet 0x45545257 1 2 0 (7 ∷ 8 ∷ [])

abbrev side : List ℕ → List ℕ → RelayState
side from_transporter from_local = record {
  client = record {
    pool = record {
      free = [];
      next_ref = 0;
      store = λ r. record { contents = create_transporter_message; current = 0; target = 1 };
    };
    input = from_transporter;
    writer = record { out = []; room = 1000 };
    bytes_sent = 0;
    bytes_received = 0;
    captured = [];
  };
  conn = record { input = from_local; writer = record { out = []; room = 1000 }; closed = false };
  message = created.0;
}

clean : AllMessages (side [] []).client.pool
clean r = create_transporter_message-IsMessage

relayed_verbatim_example :
    let s = side [] (packet ++ 5 ∷ []) in
    let t = side (wire 6 packet) [] in
    ((local_round s).1 ≡ ok tt)
    × ((local_round s).0.conn.input ≡ 5 ∷ [])
    × ((remote_round t).0.conn.writer.out ≡ [] ++ packet)
    × ((remote_round t).0.client.input ≡ [])
relayed_verbatim_example =
    let s = side [] (packet ++ 5 ∷ []) in
    let t = side (wire 6 packet) [] in
    let (_, _, written) =
      local_round_lem s 0x45545257 1 2 0 (7 ∷ 8 ∷ []) (5 ∷ []) clean created.2 refl (omega arith)
        (omega arith) refl in
    relayed_verbatim s t 0x45545257 1 2 0 (7 ∷ 8 ∷ []) (5 ∷ []) clean clean created.2 refl
      (omega arith) refl (omega arith) (omega arith) refl (sym (ap (λ (w : Writer). w.out) written))
