-- ===== src/Tests/Multiplexer.antt =====
-- The owner's multiplexer with one stream.
use adb_remote.Prelude.{
  ℕ, ◌+◌, ◌≤◌, ◌<◌, ◌≡◌, refl, Bool, true, false, List, [], ◌∷◌, ◌++◌, length, some, put_uint32,
  slice, arith,
}
use adb_remote.Protocol.Message.{TransporterMessage, create_transporter_message}
use adb_remote.Client.AdbMessage.{AdbMessage}
use adb_remote.Client.AdbMessage.Frames.{framed, wire}
use adb_remote.Client.Multiplexer.{
  Event, message, reads, sends, closes, OwnerMultiplexer, Action, open_stream, send_okay,
  send_write, new_owner_multiplexer, run,
}
use adb_remote.Client.Multiplexer.Flow.{writes, okays}
use adb_remote.Client.Multiplexer.FlowControl.{flow_control}
use adb_remote.Client.Multiplexer.Streams.{closings}
use adb_remote.Client.Multiplexer.RunOwner.{
  Turn, received, device_read, pump_sends, closed_channel, running, transport_closed, run_owner,
  start_owner,
}
use adb_remote.Client.Multiplexer.RunOwner.Turns.{containers}
use adb_remote.Client.Multiplexer.RunOwner.Cleanup.{run_owner_cleans}

abbrev steady : ℕ → Bool
steady n = false

abbrev shell : List Event
shell =
    message (framed 0x4e45504f 5 0 (115 ∷ 104 ∷ 0 ∷ []) [])
    ∷ reads 0 (36 ∷ []) false
    ∷ sends 0
    ∷ reads 0 (37 ∷ []) false
    ∷ sends 0
    ∷ []

-- The second WRTE waits for an OKAY.
shell_trace :
    (run steady new_owner_multiplexer shell).trace
    ≡ send_write 0 1 5 (36 ∷ []) ∷ send_okay 1 5 ∷ open_stream (115 ∷ 104 ∷ []) ∷ []
unfolding run new_owner_multiplexer adb_remote.Client.Multiplexer.step
    adb_remote.Client.Multiplexer.dispatch adb_remote.Client.Multiplexer.trim_right
    adb_remote.Client.Multiplexer.open_command adb_remote.Client.Multiplexer.handle_open
    adb_remote.Client.Multiplexer.call adb_remote.Client.Multiplexer.pump_read
    adb_remote.Client.Multiplexer.pump_send adb_remote.Client.Multiplexer.send_read
    adb_remote.Client.AdbMessage.message_data slice put_uint32 adb_remote.Prelude.uint32
shell_trace = refl

flow_control_example :
    writes 0 (run steady new_owner_multiplexer shell).trace
    ≤ 1 + okays 0 (run steady new_owner_multiplexer shell).trace
flow_control_example = flow_control steady shell 0

abbrev open_container : TransporterMessage
open_container =
    let packet = wire 0x4e45504f 5 0 (115 ∷ 104 ∷ 0 ∷ []) in
    record {
      command_buffer = put_uint32 6;
      payload_length_buffer = put_uint32 (length packet);
      payload_crc32_buffer = put_uint32 0;
      payload_buffer = packet;
    }

abbrev session : List Turn
session =
    received 3 (some open_container)
    ∷ device_read 0 (36 ∷ []) false
    ∷ pump_sends 0
    ∷ received 4 (some create_transporter_message)
    ∷ []

session_after :
    ((run_owner steady session start_owner).outcome ≡ running)
    × ((run_owner steady session start_owner).disposed ≡ 4 ∷ 3 ∷ [])
unfolding run_owner start_owner adb_remote.Prelude.uint32 put_uint32
    adb_remote.Client.Relay.decode_payload adb_remote.Protocol.Message.payload
    adb_remote.Client.AdbMessage.decode_message adb_remote.Client.AdbMessage.decode_buffer
    adb_remote.Client.AdbMessage.new_message_from_buffer adb_remote.Client.AdbMessage.check_decoded
    adb_remote.Client.AdbMessage.message_data create_transporter_message
session_after = (refl, refl)

abbrev over : List Turn
over = session ++ closed_channel ∷ []

session_over :
    ((run_owner steady over start_owner).outcome ≡ transport_closed)
    × ((run_owner steady over start_owner).multiplexer.next_ref ≡ 1)
unfolding run_owner start_owner adb_remote.Prelude.uint32 put_uint32
    adb_remote.Client.Relay.decode_payload adb_remote.Protocol.Message.payload
    adb_remote.Client.AdbMessage.decode_message adb_remote.Client.AdbMessage.decode_buffer
    adb_remote.Client.AdbMessage.new_message_from_buffer adb_remote.Client.AdbMessage.check_decoded
    adb_remote.Client.AdbMessage.message_data create_transporter_message
    adb_remote.Client.Multiplexer.pump_send adb_remote.Client.Multiplexer.pump_read
    adb_remote.Client.Multiplexer.delete_stream
session_over = (refl, refl)

run_owner_cleans_example :
    let s = run_owner steady over start_owner in
    (s.disposed ≡ containers over)
    × (s.multiplexer.streams ≡ [])
    × ((r : ℕ) → r < s.multiplexer.next_ref → closings r s.multiplexer.trace ≡ 1)
run_owner_cleans_example =
    run_owner_cleans steady session closed_channel session_after.0
      (λ e. let ended = session_over.0 in cc) (omega (arith, session_over.1))
