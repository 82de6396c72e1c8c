-- ===== src/Client/Multiplexer/Runs.antt =====
-- Runs of the multiplexer of client/relay/owner.go, by the few changes that its operations are made of: an
-- invariant of the state is a parameter, with what it needs to hold for each of them.
use adb_remote.Prelude.{
  ℕ, ◌+◌, ◌≡◌, refl, Bool, true, false, not, List, [], ◌∷◌, ◌==◌, length, if◌then◌else◌, Option,
  none, some, u32, Result, ok, err, panic,
}
use adb_remote.Client.AdbMessage.{
  AdbMessage, command, message_data, arg1, arg2, command_open, command_write, command_okay,
  command_close,
}
use adb_remote.Client.Multiplexer.{
  Pump, stopped, reading, waiting, OwnerStream, OwnerMultiplexer, Action, open_stream, write_device,
  close_device, send_okay, send_write, send_close, got_okay, lookup, put_stream, handle_okay,
  add_stream, call, close_stream, handle_open, write_stream, handle_write, handle_close, stop_pump,
  pump_read, send_read, pump_send, pump_done, close_all, close_all_streams, open_command,
  write_command, dispatch, trim_right, Event, message, reads, sends, finishes, closes, step, run,
}

-- The actions that stand for themselves, behind no change of a stream.
unfoldable pub Plain : Action → Type 0
Plain (open_stream _) = Unit {0}
Plain (write_device _ _) = Unit {0}
Plain (send_okay _ _) = Unit {0}
Plain (send_close _ _) = Unit {0}
Plain (close_device _) = ⊥
Plain (send_write _ _ _ _) = ⊥
Plain (got_okay _) = ⊥

pub record Kept (fails : ℕ → Bool) (P : OwnerMultiplexer → Type 0) : Type 0 where
  pub pumps :
      (q : ℕ) (p : Pump) (s : OwnerMultiplexer)
      → P s
      → P (put_stream q (record (s.store q) { pump = p }) s)
  pub okayed : (own : ℕ) (s : OwnerMultiplexer) → P s → P (handle_okay own s)
  pub added : (guest : ℕ) (s : OwnerMultiplexer) → P s → P (add_stream guest s)
  pub called : (a : Action) (s : OwnerMultiplexer) → Plain a → P s → P (call fails a s).0
  pub sent :
      (q : ℕ) (bytes : List ℕ) (s : OwnerMultiplexer)
      → (s.store q).permit ≡ true
      → P s
      → let x = s.store q in
        P
          (call fails
            (send_write q x.own_id x.guest_id bytes)
            (put_stream q (record x { permit = false; pump = reading }) s)).0
  pub shut :
      (q : ℕ) (notify : Bool) (s : OwnerMultiplexer) → P s → P (close_stream fails q notify s)

module _ (fails : ℕ → Bool) (P : OwnerMultiplexer → Type 0) (kept : Kept fails P) where
  either : (b : Bool) (s t : OwnerMultiplexer) → P s → P t → P (if b then s else t)
  either true s t v w = v
  either false s t v w = w

  permitted : (b : Bool) (s t : OwnerMultiplexer) → (b ≡ true → P s) → P t → P (if b then s else t)
  permitted true s t v w = v refl
  permitted false s t v w = w

  stop_pump_kept : (q : ℕ) (s : OwnerMultiplexer) → P s → P (stop_pump fails q s)
  unfolding stop_pump
  stop_pump_kept q s v = kept.pumps q (stopped) s v

  handle_open_kept :
      (guest : ℕ) (service : List ℕ) (s : OwnerMultiplexer)
      → P s
      → P (handle_open fails guest service s)
  unfolding handle_open Plain
  handle_open_kept guest service s v =
      let (s', opened) = call fails (open_stream service) s in
      let v' : P s' = kept.called (open_stream service) s tt v in
      let r = s'.next_ref in
      let okay = send_okay (u32 (s'.next_id + 1)) guest in
      let (s3, done) = call fails okay (add_stream guest s') in
      let v3 : P s3 = kept.called okay (add_stream guest s') tt (kept.added guest s' v') in
      either (not opened) _ _ (kept.called (send_close 0 guest) s' tt v')
        (either done _ _ (kept.pumps r reading s3 v3) (kept.shut r false s3 v3))

  write_stream_kept :
      (q guest own : ℕ) (bytes : List ℕ) (s : OwnerMultiplexer)
      → P s
      → P (write_stream fails q guest own bytes s)
  unfolding write_stream Plain
  write_stream_kept q guest own bytes s v =
      let s' = (call fails (write_device q bytes) s).0 in
      let v' : P s' = kept.called (write_device q bytes) s tt v in
      let (s3, done) = call fails (send_okay own guest) s' in
      let v3 : P s3 = kept.called (send_okay own guest) s' tt v' in
      either (not (call fails (write_device q bytes) s).1) _ _ (kept.shut q true s' v')
        (either done _ _ v3 (kept.shut q false s3 v3))

  handle_write_kept :
      (guest own : ℕ) (bytes : List ℕ) (s : OwnerMultiplexer)
      → P s
      → P (handle_write fails guest own bytes s)
  unfolding handle_write
  handle_write_kept guest own bytes s v = go (lookup own s)
    where
      go :
          (o : Option ℕ) → P (elim o [ none ↦ s | some q ↦ write_stream fails q guest own bytes s ])
      go none = v
      go (some q) = write_stream_kept q guest own bytes s v

  handle_close_kept : (own : ℕ) (s : OwnerMultiplexer) → P s → P (handle_close fails own s)
  unfolding handle_close
  handle_close_kept own s v = go (lookup own s)
    where
      go : (o : Option ℕ) → P (elim o [ none ↦ s | some q ↦ close_stream fails q false s ])
      go none = v
      go (some q) = kept.shut q false s v

  send_read_kept :
      (q : ℕ) (bytes : List ℕ) (failed : Bool) (s : OwnerMultiplexer)
      → (s.store q).permit ≡ true
      → P s
      → P (send_read fails q bytes failed s)
  unfolding send_read
  send_read_kept q bytes failed s permit v =
      let x = s.store q in
      let y : OwnerStream = record x { permit = false; pump = reading } in
      let (s', done) = call fails (send_write q x.own_id x.guest_id bytes) (put_stream q y s) in
      let v' : P s' = kept.sent q bytes s permit v in
      either (not done) _ _
        (stop_pump_kept q (close_stream fails q false s') (kept.shut q false s' v'))
        (either failed _ s'
          (stop_pump_kept q (close_stream fails q true s') (kept.shut q true s' v')) v')

  pump_read_kept :
      (q : ℕ) (bytes : List ℕ) (failed : Bool) (p : Pump) (s : OwnerMultiplexer)
      → P s
      → P (pump_read fails q bytes failed p s)
  unfolding pump_read
  pump_read_kept q bytes failed reading s v =
      either (not (length bytes == 0)) _ _ (kept.pumps q (waiting bytes failed) s v) (
        either failed _ s (stop_pump_kept q (close_stream fails q true s) (kept.shut q true s v)) v)
  pump_read_kept q bytes failed stopped s v = v
  pump_read_kept q bytes failed (waiting _ _) s v = v

  pump_send_kept : (q : ℕ) (p : Pump) (s : OwnerMultiplexer) → P s → P (pump_send fails q p s)
  unfolding pump_send
  pump_send_kept q (waiting bytes failed) s v =
      permitted (s.store q).permit _ s (λ e. send_read_kept q bytes failed s e v) v
  pump_send_kept q stopped s v = v
  pump_send_kept q reading s v = v

  pump_done_kept : (q : ℕ) (p : Pump) (s : OwnerMultiplexer) → P s → P (pump_done fails q p s)
  unfolding pump_done
  pump_done_kept q (waiting bytes failed) s v =
      either (s.store q).closed _ s (stop_pump_kept q s v) v
  pump_done_kept q stopped s v = v
  pump_done_kept q reading s v = v

  close_all_kept : (l : List (ℕ × ℕ)) (s : OwnerMultiplexer) → P s → P (close_all fails l s)
  unfolding close_all
  close_all_kept [] s v = v
  close_all_kept ((id, q) ∷ rest) s v =
      close_all_kept rest (close_stream fails q false s) (kept.shut q false s v)

  open_command_kept :
      (guest : ℕ) (d : Result (List ℕ)) (s : OwnerMultiplexer)
      → P s
      → P (open_command fails guest d s).0
  unfolding open_command
  open_command_kept guest (ok bytes) s v = handle_open_kept guest (trim_right bytes) s v
  open_command_kept guest (err e) s v = v
  open_command_kept guest panic s v = v

  write_command_kept :
      (guest own : ℕ) (d : Result (List ℕ)) (s : OwnerMultiplexer)
      → P s
      → P (write_command fails guest own d s).0
  unfolding write_command
  write_command_kept guest own (ok bytes) s v = handle_write_kept guest own bytes s v
  write_command_kept guest own (err e) s v = v
  write_command_kept guest own panic s v = v

  pair_kept : (b : Bool) (x y : OwnerMultiplexer × Bool) → P x.0 → P y.0 → P (if b then x else y).0
  pair_kept true x y v w = v
  pair_kept false x y v w = w

  dispatch_kept : (m : AdbMessage) (s : OwnerMultiplexer) → P s → P (dispatch fails m s).0
  unfolding dispatch
  dispatch_kept m s v =
      pair_kept (command m == command_open) _ _ (open_command_kept (arg1 m) (message_data m) s v) (
        pair_kept (command m == command_write) _ _
          (write_command_kept (arg1 m) (arg2 m) (message_data m) s v)
          (pair_kept (command m == command_okay) _ _ (kept.okayed (arg2 m) s v) (
            pair_kept (command m == command_close) _ (s, true) (handle_close_kept (arg2 m) s v) v)))

  pub step_kept : (s : OwnerMultiplexer) (e : Event) → P s → P (step fails s e)
  unfolding step close_all_streams
  step_kept s (message m) v = dispatch_kept m s v
  step_kept s (reads q bytes failed) v = pump_read_kept q bytes failed (s.store q).pump s v
  step_kept s (sends q) v = pump_send_kept q (s.store q).pump s v
  step_kept s (finishes q) v = pump_done_kept q (s.store q).pump s v
  step_kept s closes v = close_all_kept s.streams s v

  -- A run keeps what its parts keep.
  pub run_kept : (s : OwnerMultiplexer) (es : List Event) → P s → P (run fails s es)
  unfolding run
  run_kept s [] v = v
  run_kept s (e ∷ es) v = run_kept (step fails s e) es (step_kept s e v)
