-- ===== src/Client/Relay.antt =====
-- client/relay/relay.go: what a guest's two pumps do with one message. The pump to the local connection takes
-- it from the client's reader, the pump from it reads into a message of its own.
pub mod Verbatim
pub mod Run
use adb_remote.Prelude.{ℕ, Bool, List, ◌==◌, not, if◌then◌else◌, Result, ok, err, panic, M, ◌>>=◌}
use adb_remote.Protocol.Constants.{command_adb_transport}
use adb_remote.Protocol.Message.{TransporterMessage, Writer, command, payload}
use adb_remote.Pool.{contents_of, dispose}
use adb_remote.Client.NetConn.{NetConn}
use adb_remote.Client.AdbMessage as Adb
use adb_remote.Client.AdbMessage.{AdbMessage, decode_message}
use adb_remote.Client.Transport.{Client, send_adb_message}
use adb_remote.Client.Controller.{next_message}

pub record RelayState : Type 0 where
  pub client : Client
  pub conn : NetConn
  pub message : AdbMessage

unfoldable pub dispose_container : ℕ → M RelayState (Unit {0})
unfolding dispose
dispose_container r s =
    let (p, res) = dispose r s.client.pool in
    (record s { client = record s.client { pool = p } }, res)

-- Behind the write of the message: the container is disposed in any case.
unfoldable pub after_local : ℕ → Result (Unit {0}) → M RelayState (Unit {0})
unfolding dispose_container
after_local r (ok _) s = dispose_container r s
after_local r (err e) s = ((dispose_container r s).0, err e)
after_local r panic s = (s, panic)

unfoldable pub forward_local : ℕ → Result AdbMessage → M RelayState (Unit {0})
unfolding dispose_container after_local
forward_local r (ok a) s =
    let (w, res) = Adb.write a s.conn.writer in
    after_local r res (record s { conn = record s.conn { writer = w } })
forward_local r (err e) s = dispose_container r s
forward_local r panic s = (s, panic)

unfoldable pub decode_payload : Result (List ℕ) → Result AdbMessage
decode_payload (ok bs) = decode_message bs
decode_payload (err e) = err e
decode_payload panic = panic

unfoldable pub handle_incoming : ℕ → M RelayState (Unit {0})
unfolding contents_of forward_local decode_payload dispose_container
handle_incoming r s = elim (contents_of r s.client.pool) [
  | ok m ↦
      if not (command m == command_adb_transport)
      then dispose_container r s
      else forward_local r (decode_payload (payload m)) s
  | err e ↦ (s, err e)
  | panic ↦ (s, panic)
]

abbrev incoming : RelayState → Client × Result ℕ → RelayState × Result (Unit {0})
incoming s (c, ok r) = handle_incoming r (record s { client = c })
incoming s (c, err e) = (record s { client = c }, err e)
incoming s (c, panic) = (record s { client = c }, panic)

-- One round of `pumpRemoteToLocal`.
unfoldable pub remote_round : M RelayState (Unit {0})
unfolding next_message handle_incoming
remote_round s = incoming s (next_message s.client)

abbrev outgoing : RelayState → Result (Unit {0}) → RelayState × Result (Unit {0})
outgoing s (ok _) = let (c, r) = send_adb_message s.message s.client in (record s { client = c }, r)
outgoing s (err e) = (s, err e)
outgoing s panic = (s, panic)

-- One round of `pumpLocalToRemote`.
unfoldable pub local_round : M RelayState (Unit {0})
unfolding send_adb_message
local_round s =
    let (got, r) = Adb.read (record { message = s.message; input = s.conn.input }) in
    outgoing (record s { message = got.message; conn = record s.conn { input = got.input } }) r
