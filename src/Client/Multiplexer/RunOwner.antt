-- ===== src/Client/Multiplexer/RunOwner.antt =====
-- RunOwner of client/relay/owner.go: the loop over the client's messages, the steps of the pumps that fall in
-- between, and the containers that it has disposed of, the latest first. What a container's Data returns, a
-- message or an error, comes with it.
pub mod Turns
pub mod Cleanup
use adb_remote.Prelude.{
  ℕ, Bool, true, List, [], ◌∷◌, ◌==◌, not, if◌then◌else◌, Option, none, some, Result, ok, err,
  panic,
}
use adb_remote.Protocol.Constants.{command_adb_transport}
use adb_remote.Protocol.Message as Transporter
use adb_remote.Protocol.Message.{TransporterMessage, payload}
use adb_remote.Client.AdbMessage.{AdbMessage}
use adb_remote.Client.Relay.{decode_payload}
use adb_remote.Client.Multiplexer.{
  OwnerMultiplexer, new_owner_multiplexer, dispatch, close_all_streams, Event, reads, sends,
  finishes, step,
}

pub data Turn : Type 0 where
  cancelled closed_channel : Turn
  received : ℕ → Option TransporterMessage → Turn
  device_read : ℕ → List ℕ → Bool → Turn
  pump_sends : ℕ → Turn
  pump_finishes : ℕ → Turn

-- How the loop ended, or that it still runs.
pub data Outcome : Type 0 where
  running context_done transport_closed container_unusable panicked : Outcome

pub record OwnerRun : Type 0 where
  pub multiplexer : OwnerMultiplexer
  pub disposed : List ℕ
  pub outcome : Outcome

unfoldable pub start_owner : OwnerRun
unfolding new_owner_multiplexer
start_owner = record { multiplexer = new_owner_multiplexer; disposed = []; outcome = running }

module _ (fails : ℕ → Bool) where
  -- The return, with the deferred `Close`.
  unfoldable pub leave : Outcome → OwnerRun → OwnerRun
  unfolding close_all_streams
  leave o s = record s { multiplexer = close_all_streams fails s.multiplexer; outcome = o }

  unfoldable pub dispose_of : ℕ → OwnerRun → OwnerRun
  dispose_of c s = record s { disposed = c ∷ s.disposed }

  abbrev pub after_dispatch : ℕ → OwnerRun → OwnerMultiplexer × Bool → OwnerRun
  after_dispatch c s (m, fine) =
      let s' = dispose_of c (record s { multiplexer = m }) in if fine then s' else leave panicked s'

  -- `Dispatch` of a container, which it disposes of whatever happens.
  unfoldable pub dispatch_container : ℕ → Result AdbMessage → OwnerRun → OwnerRun
  unfolding dispatch dispose_of leave
  dispatch_container c (ok a) s = after_dispatch c s (dispatch fails a s.multiplexer)
  dispatch_container c (err e) s = dispose_of c s
  dispatch_container c panic s = leave panicked (dispose_of c s)

  unfoldable pub receive : ℕ → Option TransporterMessage → OwnerRun → OwnerRun
  unfolding dispatch_container dispose_of leave
  receive c none s = leave container_unusable (dispose_of c s)
  receive c (some m) s =
      if not (Transporter.command m == command_adb_transport)
      then dispose_of c s
      else dispatch_container c (decode_payload (payload m)) s

  unfoldable pub between : Event → OwnerRun → OwnerRun
  unfolding step
  between e s = record s { multiplexer = step fails s.multiplexer e }

  unfoldable pub turn : Turn → OwnerRun → OwnerRun
  unfolding leave receive between
  turn cancelled s = leave context_done s
  turn closed_channel s = leave transport_closed s
  turn (received c m) s = receive c m s
  turn (device_read r bytes failed) s = between (reads r bytes failed) s
  turn (pump_sends r) s = between (sends r) s
  turn (pump_finishes r) s = between (finishes r) s

  abbrev pub while_running : Outcome → OwnerRun → OwnerRun → OwnerRun
  while_running running s t = t
  while_running context_done s t = s
  while_running transport_closed s t = s
  while_running container_unusable s t = s
  while_running panicked s t = s

  unfoldable pub run_owner : List Turn → OwnerRun → OwnerRun
  unfolding turn
  run_owner [] s = s
  run_owner (t ∷ ts) s = let rest = run_owner ts (turn t s) in while_running s.outcome s rest
