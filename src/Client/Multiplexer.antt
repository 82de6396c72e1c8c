-- ===== src/Client/Multiplexer.antt =====
-- client/relay/owner.go: the owner's side of a shared device, one local connection for each stream that
-- the guest opens. Streams are shared by pointer, so they stand in a store under references. Calls on the
-- device and on the transporter are recorded, the latest first; which of them fail is a parameter. A stream's
-- pump is a goroutine, whose steps interleave with the messages.
pub mod Flow
pub mod FlowControl
pub mod Table
pub mod Streams
pub mod Closing
pub mod Runs
pub mod Leaks
pub mod RunOwner
use adb_remote.Prelude.{
  ℕ, ◌+◌, Bool, true, false, not, ◌&&◌, List, [], ◌∷◌, ◌==◌, if◌then◌else◌, length, Option, none,
  some, u32, Result, ok, err, panic,
}
use adb_remote.Client.AdbMessage.{
  AdbMessage, command, arg1, arg2, message_data, command_open, command_write, command_okay,
  command_close,
}

-- Where `pumpDeviceToGuest` is: it has ended, reads from the device, or holds what it read, with whether the
-- read also failed, until it may send.
pub data Pump : Type 0 where
  stopped reading : Pump
  waiting : List ℕ → Bool → Pump

-- `permit` is whether the channel `sendPermit` holds its token, `closed` is what `closeOnce` guards.
pub record OwnerStream : Type 0 where
  pub guest_id : ℕ
  pub own_id : ℕ
  pub permit : Bool
  pub closed : Bool
  pub pump : Pump

-- strings.TrimRight of the NUL bytes.
unfoldable pub trim_right : List ℕ → List ℕ
trim_right [] = []
trim_right (b ∷ bs) =
    let rest = trim_right bs in if b == 0 && length rest == 0 then [] else b ∷ rest

-- A call on the device or the transporter, and the receipt of an OKAY.
pub data Action : Type 0 where
  open_stream : List ℕ → Action
  write_device : ℕ → List ℕ → Action
  close_device : ℕ → Action
  send_okay : ℕ → ℕ → Action
  send_write : ℕ → ℕ → ℕ → List ℕ → Action
  send_close : ℕ → ℕ → Action
  got_okay : ℕ → Action

pub record OwnerMultiplexer : Type 0 where
  pub next_id : ℕ
  pub streams : List (ℕ × ℕ)
  pub store : ℕ → OwnerStream
  pub next_ref : ℕ
  pub calls : ℕ
  pub trace : List Action

unfoldable pub new_owner_multiplexer : OwnerMultiplexer
new_owner_multiplexer = record {
  next_id = 0;
  streams = [];
  store = λ r. record { guest_id = 0; own_id = 0; permit = false; closed = true; pump = stopped };
  next_ref = 0;
  calls = 0;
  trace = [];
}

unfoldable pub find_stream : ℕ → List (ℕ × ℕ) → Option ℕ
find_stream id [] = none
find_stream id ((k, r) ∷ rest) = if k == id then some r else find_stream id rest

unfoldable pub delete_stream : ℕ → List (ℕ × ℕ) → List (ℕ × ℕ)
delete_stream id [] = []
delete_stream id ((k, r) ∷ rest) =
    let others = delete_stream id rest in if k == id then others else (k, r) ∷ others

abbrev pub lookup : ℕ → OwnerMultiplexer → Option ℕ
lookup id s = find_stream id s.streams

unfoldable pub put_stream : ℕ → OwnerStream → OwnerMultiplexer → OwnerMultiplexer
put_stream r x s = record s { store = λ q. if q == r then x else s.store q }

unfoldable pub note : Action → OwnerMultiplexer → OwnerMultiplexer
note a s = record s { trace = a ∷ s.trace }

unfoldable pub handle_okay : ℕ → OwnerMultiplexer → OwnerMultiplexer
handle_okay own s = elim (lookup own s) [
  | none ↦ s
  | some r ↦ note (got_okay r) (put_stream r (record (s.store r) { permit = true }) s)
]

-- The stream of a new OPEN, with its token.
unfoldable pub add_stream : ℕ → OwnerMultiplexer → OwnerMultiplexer
add_stream guest s =
    let own = u32 (s.next_id + 1) in
    record s {
      next_id = own;
      streams = (own, s.next_ref) ∷ delete_stream own s.streams;
      store = λ q.
          if q == s.next_ref
          then record {
            guest_id = guest;
            own_id = own;
            permit = true;
            closed = false;
            pump = stopped;
          }
          else s.store q;
      next_ref = s.next_ref + 1;
    }

module _ (fails : ℕ → Bool) where
  -- A call, and whether it returned without an error.
  unfoldable pub call : Action → OwnerMultiplexer → OwnerMultiplexer × Bool
  unfolding note
  call a s = (record (note a s) { calls = s.calls + 1 }, not (fails s.calls))

  unfoldable pub close_stream : ℕ → Bool → OwnerMultiplexer → OwnerMultiplexer
  unfolding call put_stream
  close_stream r notify s =
      let x = s.store r in
      let s' = (call (close_device r) (put_stream r (record x { closed = true }) s)).0 in
      let s3 = record s' { streams = delete_stream x.own_id s'.streams } in
      if x.closed then s else if notify then (call (send_close x.own_id x.guest_id) s3).0 else s3

  unfoldable pub handle_open : ℕ → List ℕ → OwnerMultiplexer → OwnerMultiplexer
  unfolding call close_stream add_stream put_stream
  handle_open guest service s =
      let (s', opened) = call (open_stream service) s in
      let r = s'.next_ref in
      let own = u32 (s'.next_id + 1) in
      let (s3, done) = call (send_okay own guest) (add_stream guest s') in
      if not opened
      then (call (send_close 0 guest) s').0
      else if done
      then put_stream r (record (s3.store r) { pump = reading }) s3
      else close_stream r false s3

  unfoldable pub write_stream : ℕ → ℕ → ℕ → List ℕ → OwnerMultiplexer → OwnerMultiplexer
  unfolding call close_stream
  write_stream r guest own bytes s =
      let (s', written) = call (write_device r bytes) s in
      let (s3, done) = call (send_okay own guest) s' in
      if not written then close_stream r true s' else if done then s3 else close_stream r false s3

  unfoldable pub handle_write : ℕ → ℕ → List ℕ → OwnerMultiplexer → OwnerMultiplexer
  unfolding write_stream
  handle_write guest own bytes s = elim (lookup own s) [
    | none ↦ s
    | some r ↦ write_stream r guest own bytes s
  ]

  unfoldable pub handle_close : ℕ → OwnerMultiplexer → OwnerMultiplexer
  unfolding close_stream
  handle_close own s = elim (lookup own s) [ none ↦ s | some r ↦ close_stream r false s ]

  unfoldable pub stop_pump : ℕ → OwnerMultiplexer → OwnerMultiplexer
  unfolding put_stream
  stop_pump r s = put_stream r (record (s.store r) { pump = stopped }) s

  -- What `conn.Read` of the pump returned.
  unfoldable pub pump_read : ℕ → List ℕ → Bool → Pump → OwnerMultiplexer → OwnerMultiplexer
  unfolding stop_pump close_stream put_stream
  pump_read r bytes failed reading s =
      if not (length bytes == 0)
      then put_stream r (record (s.store r) { pump = waiting bytes failed }) s
      else if failed
      then stop_pump r (close_stream r true s)
      else s
  pump_read r bytes failed stopped s = s
  pump_read r bytes failed (waiting _ _) s = s

  unfoldable pub send_read : ℕ → List ℕ → Bool → OwnerMultiplexer → OwnerMultiplexer
  unfolding call stop_pump close_stream put_stream
  send_read r bytes failed s =
      let x = s.store r in
      let (s', done) =
        call (send_write r x.own_id x.guest_id bytes)
          (put_stream r (record x { permit = false; pump = reading }) s) in
      if not done
      then stop_pump r (close_stream r false s')
      else if failed
      then stop_pump r (close_stream r true s')
      else s'

  -- The pump takes the token and sends what it holds.
  unfoldable pub pump_send : ℕ → Pump → OwnerMultiplexer → OwnerMultiplexer
  unfolding send_read
  pump_send r (waiting bytes failed) s =
      if (s.store r).permit then send_read r bytes failed s else s
  pump_send r stopped s = s
  pump_send r reading s = s

  -- The pump finds the stream done while it waits.
  unfoldable pub pump_done : ℕ → Pump → OwnerMultiplexer → OwnerMultiplexer
  unfolding stop_pump
  pump_done r (waiting bytes failed) s = if (s.store r).closed then stop_pump r s else s
  pump_done r stopped s = s
  pump_done r reading s = s

  unfoldable pub close_all : List (ℕ × ℕ) → OwnerMultiplexer → OwnerMultiplexer
  unfolding close_stream
  close_all [] s = s
  close_all ((id, r) ∷ rest) s = close_all rest (close_stream r false s)

  unfoldable pub close_all_streams : OwnerMultiplexer → OwnerMultiplexer
  unfolding close_all
  close_all_streams s = close_all s.streams s

  -- The state, and `false` for a panic on the way.
  unfoldable pub open_command : ℕ → Result (List ℕ) → OwnerMultiplexer → OwnerMultiplexer × Bool
  unfolding handle_open
  open_command guest (ok bytes) s = (handle_open guest (trim_right bytes) s, true)
  open_command guest (err e) s = (s, false)
  open_command guest panic s = (s, false)

  unfoldable pub write_command :
      ℕ → ℕ → Result (List ℕ) → OwnerMultiplexer → OwnerMultiplexer × Bool
  unfolding handle_write
  write_command guest own (ok bytes) s = (handle_write guest own bytes s, true)
  write_command guest own (err e) s = (s, false)
  write_command guest own panic s = (s, false)

  -- `Dispatch`, behind the decoding.
  unfoldable pub dispatch : AdbMessage → OwnerMultiplexer → OwnerMultiplexer × Bool
  unfolding open_command write_command handle_okay handle_close
  dispatch m s =
      if command m == command_open
      then open_command (arg1 m) (message_data m) s
      else if command m == command_write
      then write_command (arg1 m) (arg2 m) (message_data m) s
      else if command m == command_okay
      then (handle_okay (arg2 m) s, true)
      else if command m == command_close
      then (handle_close (arg2 m) s, true)
      else (s, true)

-- A step of the multiplexer: a message from the guest, a step of a stream's pump, or `Close`.
pub data Event : Type 0 where
  message : AdbMessage → Event
  reads : ℕ → List ℕ → Bool → Event
  sends : ℕ → Event
  finishes : ℕ → Event
  closes : Event

module _ (fails : ℕ → Bool) where
  unfoldable pub step : OwnerMultiplexer → Event → OwnerMultiplexer
  step s (message m) = (dispatch fails m s).0
  step s (reads r bytes failed) = pump_read fails r bytes failed (s.store r).pump s
  step s (sends r) = pump_send fails r (s.store r).pump s
  step s (finishes r) = pump_done fails r (s.store r).pump s
  step s closes = close_all_streams fails s

  unfoldable pub run : OwnerMultiplexer → List Event → OwnerMultiplexer
  run s [] = s
  run s (e ∷ es) = run (step s e) es
