-- ===== src/Client/Connect/Screen.antt =====
-- What the user interface of client/tui/connect.go shows of a guest's session in
-- client/controller/guestController.go.
use adb_remote.Prelude.{
  ℕ, ◌+◌, ◌≡◌, refl, true, false, List, [], ◌∷◌, Option, none, some, Error, if◌then◌else◌, arith,
  Bool-cases, inl, inr, ap,
}
use adb_remote.Client.Controller.{
  GuestSession, GuestEvent, GuestWait, cancelled, channel_closed, message_received,
  local_connection, emit, relay_stopped, local_adb_connected, transport_lost, is_transport_closed,
  guest_round, guest_loop,
}
use adb_remote.Client.Connect.{ConnectStage, ready, disconnected, ConnectModel, handle_guest_event}

-- How many local connections the loop serves before it ends.
pub served : List GuestWait → ℕ
served [] = 0
served (cancelled ∷ ws) = 0
served (channel_closed ∷ ws) = 0
served (message_received r ∷ ws) = served ws
served (local_connection e ∷ ws) =
    let rest = served ws in 1 + (if is_transport_closed e then 0 else rest)

-- The stage to be shown for a session's end, or for one that goes on.
abbrev pub shown_stage : Option Error → ConnectStage
shown_stage none = ready
shown_stage (some e) = if is_transport_closed e then disconnected else ready

abbrev relayed : Error → GuestSession → GuestSession
relayed e s = emit (relay_stopped e) (emit local_adb_connected s)

lost_round :
    (e : Error) (ws : List GuestWait) (s : GuestSession)
    → is_transport_closed e ≡ true
    → guest_loop (local_connection e ∷ ws) s ≡ (emit transport_lost (relayed e s), some e)
unfolding guest_loop
lost_round e ws s lost =
    let round : guest_round (local_connection e) s ≡ (emit transport_lost (relayed e s), some e) =
      unfold guest_round in rw lost refl in
    rw (guest_loop, round) (ap (λ (x : GuestSession × Option Error). (x.0, some e)) round)

next_round :
    (e : Error) (ws : List GuestWait) (s : GuestSession)
    → is_transport_closed e ≡ false
    → guest_loop (local_connection e ∷ ws) s ≡ guest_loop ws (relayed e s)
unfolding guest_loop
next_round e ws s on =
    let round : guest_round (local_connection e) s ≡ (relayed e s, none) =
      unfold guest_round in rw on refl in
    rw (guest_loop, round) (ap (λ (x : GuestSession × Option Error). guest_loop ws x.0) round)

module _ (fingerprint : List ℕ → List ℕ) where
  -- The screen after events, the latest first.
  abbrev pub screen : List GuestEvent → ConnectModel → ConnectModel
  screen [] m = m
  screen (e ∷ es) m = handle_guest_event fingerprint e (screen es m)

  -- A screen that is ready follows the guest's loop: when the loop ends it says "disconnected" exactly if the
  -- transporter was lost, otherwise it is ready again; and it has counted every local connection that
  -- the loop served.
  pub screen_follows_loop :
      (ws : List GuestWait) (s : GuestSession) (m : ConnectModel)
      → (screen s.events m).stage ≡ ready
      → let (s', ended) = guest_loop ws s in
        ((screen s'.events m).stage ≡ shown_stage ended)
        × ((screen s'.events m).relay_count ≡ (screen s.events m).relay_count + served ws)
  unfolding guest_loop guest_round handle_guest_event served
  screen_follows_loop [] s m h = (h, omega arith)
  screen_follows_loop (cancelled ∷ ws) s m h = (h, omega arith)
  screen_follows_loop (channel_closed ∷ ws) s m h = (refl, omega arith)
  screen_follows_loop (message_received r ∷ ws) s m h = screen_follows_loop ws _ m h
  screen_follows_loop (local_connection e ∷ ws) s m h = elim (Bool-cases (is_transport_closed e)) [
    | inl lost ↦ rw (lost_round e ws s lost, lost) (refl, omega arith)
    | inr on ↦
        let (stage, count) = screen_follows_loop ws (relayed e s) m refl in
        rw (next_round e ws s on, on) (stage, omega (arith, count))
  ]
