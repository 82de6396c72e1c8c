-- ===== src/Client/Relay/Run.antt =====
-- `Run` of client/relay/relay.go: its two pumps as turns that interleave, and what it returns. A pump takes
-- another round, or stops because its context was cancelled or the client's channel was closed. Once one pump has
-- stopped, `Run` cancels the other and closes the local connection, and it returns when both have stopped.
use adb_remote.Prelude.{
  ◌≡◌, refl, Bool, true, false, ◌||◌, List, [], ◌∷◌, Option, none, some, Error, Result, ok, err,
  panic, if◌then◌else◌, Bool-cases, inl, inr,
}
use adb_remote.Client.Relay.{RelayState, local_round, remote_round}

pub data Side : Type 0 where
  local_to_remote remote_to_local : Side

pub data Turn : Type 0 where
  round : Side → Turn
  stop : Side → Error → Turn

pub record RelayRun : Type 0 where
  pub state : RelayState
  pub sending : Bool
  pub receiving : Bool
  pub first : Option (Result (Unit {0}))

unfoldable pub start_relay : RelayState → RelayRun
start_relay s = record { state = s; sending = true; receiving = true; first = none }

abbrev pub is_running : Side → RelayRun → Bool
is_running local_to_remote s = s.sending
is_running remote_to_local s = s.receiving

abbrev pub without : Side → RelayRun → RelayRun
without local_to_remote s = record s { sending = false }
without remote_to_local s = record s { receiving = false }

-- A pump's result on `errChannel`: the first one cancels the other pump and closes the connection.
unfoldable pub report : Option (Result (Unit {0})) → Result (Unit {0}) → RelayRun → RelayRun
report (some e) r s = s
report none r s = record s {
  first = some r;
  state = record s.state { conn = record s.state.conn { closed = true } };
}

unfoldable pub stopped_with : Side → Result (Unit {0}) → RelayRun → RelayRun
unfolding report
stopped_with side r s = report s.first r (without side s)

unfoldable pub after_round : Side → RelayRun → RelayState × Result (Unit {0}) → RelayRun
unfolding stopped_with
after_round side s (st, ok _) = record s { state = st }
after_round side s (st, err e) = stopped_with side (err e) (record s { state = st })
after_round side s (st, panic) = stopped_with side panic (record s { state = st })

unfoldable pub one_round : Side → RelayState → RelayState × Result (Unit {0})
unfolding local_round remote_round
one_round local_to_remote s = local_round s
one_round remote_to_local s = remote_round s

unfoldable pub take_turn : Turn → RelayRun → RelayRun
unfolding after_round stopped_with one_round
take_turn (round side) s =
    if is_running side s then after_round side s (one_round side s.state) else s
take_turn (stop side e) s = if is_running side s then stopped_with side (err e) s else s

unfoldable pub run_relay : List Turn → RelayRun → RelayRun
unfolding take_turn
run_relay [] s = s
run_relay (t ∷ ts) s = run_relay ts (take_turn t s)

-- What `Run` returned, if both pumps have stopped.
unfoldable pub returned : RelayRun → Option (Result (Unit {0}))
returned s = if s.sending || s.receiving then none else s.first

stopped_with-first :
    (side : Side) (r e : Result (Unit {0})) (s : RelayRun)
    → s.first ≡ some e
    → (stopped_with side r s).first ≡ some e
unfolding stopped_with report
stopped_with-first local_to_remote r e s h = rw (h, report) refl
stopped_with-first remote_to_local r e s h = rw (h, report) refl

after_round-first :
    (side : Side) (e : Result (Unit {0})) (s : RelayRun) (x : RelayState × Result (Unit {0}))
    → s.first ≡ some e
    → (after_round side s x).first ≡ some e
unfolding after_round
after_round-first side e s (st, ok u) h = h
after_round-first side e s (st, err f) h =
    stopped_with-first side (err f) e (record s { state = st }) h
after_round-first side e s (st, panic) h =
    stopped_with-first side panic e (record s { state = st }) h

take_turn-first :
    (t : Turn) (e : Result (Unit {0})) (s : RelayRun)
    → s.first ≡ some e
    → (take_turn t s).first ≡ some e
unfolding take_turn
take_turn-first (round side) e s h = elim (Bool-cases (is_running side s)) [
  | inl live ↦ rw live (after_round-first side e s (one_round side s.state) h)
  | inr over ↦ rw over h
]
take_turn-first (stop side f) e s h = elim (Bool-cases (is_running side s)) [
  | inl live ↦ rw live (stopped_with-first side (err f) e s h)
  | inr over ↦ rw over h
]

-- The result of the pump that stops first is what `Run` returns, whatever the other one ends with.
run_relay-first :
    (ts : List Turn) (e : Result (Unit {0})) (s : RelayRun)
    → s.first ≡ some e
    → (run_relay ts s).first ≡ some e
unfolding run_relay
run_relay-first [] e s h = h
run_relay-first (t ∷ ts) e s h = run_relay-first ts e (take_turn t s) (take_turn-first t e s h)
