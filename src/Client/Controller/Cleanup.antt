-- ===== src/Client/Controller/Cleanup.antt =====
-- How a guest's session in client/controller/guestController.go ends.
use adb_remote.Prelude.{
  ℕ, ◌+◌, ◌≡◌, refl, true, List, [], ◌∷◌, Option, none, some, Error, transport_closed, other, ascii,
  Result, ok, err, panic, arith, inl, inr, Bool-cases, ◌⊎◌, ◌*◌, ◌∙◌, bind,
}
use adb_remote.Client.Transport.{Client}
use adb_remote.Protocol.Payload.{PayloadConnectRoomResult}
use adb_remote.Client.Controller.Meeting.{over, join_is_request}
use adb_remote.Client.Controller.{
  decide_join, stop_proxy, disconnect_adb, emit, adb_connected, proxy_ready, adb_connect_failed,
  after_join, GuestSession, GuestEvent, transport_lost, GuestWait, cancelled, channel_closed,
  message_received, local_connection, is_transport_closed, guest_round, guest_loop, when_ended,
  serve_guest, start_proxy, join_as_guest, room_join_step,
}

-- An ended loop ended because the context was cancelled, or because the transporter was lost, which was
-- the last thing it reported.
pub Explained : Option Error → List GuestEvent → Type 0
Explained none events = Unit
Explained (some e) events =
    (e ≡ other (ascii "context canceled"))
    ⊎ ((e ≡ transport_closed) × (rest : List GuestEvent) × (events ≡ transport_lost ∷ rest))

pub Ends : GuestSession → GuestSession × Option Error → Type 0
Ends s (s', ended) =
    (s'.disconnects ≡ s.disconnects) × (s'.proxy_stops ≡ s.proxy_stops) × Explained ended s'.events

closed_lem : (e : Error) → is_transport_closed e ≡ true → e ≡ transport_closed
closed_lem transport_closed h = refl
closed_lem _ h = cc

round-Ends : (w : GuestWait) (s : GuestSession) → Ends s (guest_round w s)
unfolding Ends Explained guest_round
round-Ends cancelled s = (refl, refl, inl refl)
round-Ends channel_closed s = (refl, refl, inr (refl, s.events, refl))
round-Ends (message_received r) s = (refl, refl, tt)
round-Ends (local_connection e) s = elim (Bool-cases (is_transport_closed e)) [
  | inl lost ↦ rw lost (refl, refl, inr (closed_lem e lost, _, refl))
  | inr other' ↦ rw other' (refl, refl, tt)
]

continue-Ends :
    (s : GuestSession) (x y : GuestSession × Option Error)
    → Ends s x
    → Ends x.0 y
    → Ends s (elim x.1 [ none ↦ y | some e ↦ (x.0, some e) ])
unfolding Ends
continue-Ends s (s', some e) y h k = h
continue-Ends s (s', none) y (d, p, _) (d', p', why) = (d' ∙ d, p' ∙ p, why)

pub guest_loop-Ends : (ws : List GuestWait) (s : GuestSession) → Ends s (guest_loop ws s)
unfolding guest_loop
guest_loop-Ends [] s = unfold Ends Explained in (refl, refl, tt)
guest_loop-Ends (w ∷ ws) s =
    let x = guest_round w s in
    continue-Ends s x (guest_loop ws x.0) (round-Ends w s) (guest_loop-Ends ws x.0)

-- Whether something was done.
abbrev pub count : {A : Type 0} → Result A → ℕ
count (ok _) = 1
count (err _) = 0
count panic = 0

room_join_step-keeps :
    (room_id key : List ℕ) (s : GuestSession)
    → let s' = (room_join_step room_id key s).0 in
      (s'.disconnects ≡ s.disconnects) × (s'.proxy_stops ≡ s.proxy_stops)
unfolding decide_join
room_join_step-keeps room_id key s = rw (join_is_request room_id key s) (kept s _)
  where
    kept :
        (s : GuestSession) (x : Client × Result PayloadConnectRoomResult)
        → let s' = (bind (over s x) decide_join).0 in
          (s'.disconnects ≡ s.disconnects) × (s'.proxy_stops ≡ s.proxy_stops)
    kept s (c, ok a) = (refl, refl)
    kept s (c, err e) = (refl, refl)
    kept s (c, panic) = (refl, refl)

-- What a session that started at `s` has cleaned up when it is over.
abbrev pub Cleaned : ℕ → ℕ → GuestSession → GuestSession × Option Error → Type 0
Cleaned stops disconnects s (s', ended) =
    (e : Error)
    → ended ≡ some e
    → (s'.proxy_stops ≡ s.proxy_stops + stops) × (s'.disconnects ≡ s.disconnects + disconnects)

stopped-Cleaned :
    (s : GuestSession) (x : GuestSession × Option Error)
    → Ends s x
    → Cleaned 1 0 s (when_ended stop_proxy x)
unfolding Ends
stopped-Cleaned s (s', none) h e same = cc
stopped-Cleaned s (s', some _) (d, p, _) e same = (omega (arith, p), omega (arith, d))

disconnected-Cleaned :
    (s : GuestSession) (x : GuestSession × Option Error)
    → Ends s x
    → Cleaned 1 1 s (when_ended stop_proxy (when_ended disconnect_adb x))
unfolding Ends
disconnected-Cleaned s (s', none) h e same = cc
disconnected-Cleaned s (s', some _) (d, p, _) e same = (omega (arith, p), omega (arith, d))

start_proxy-Cleaned :
    (port : List ℕ) (started connected : Result Unit) (waits : List GuestWait) (s : GuestSession)
    → Cleaned
        (count started)
        (count started * count connected)
        s
        (start_proxy port started connected waits s)
unfolding start_proxy serve_guest
start_proxy-Cleaned port (ok _) (ok _) waits s =
    let s' = emit adb_connected (emit (proxy_ready port) s) in
    disconnected-Cleaned s' (guest_loop waits s') (guest_loop-Ends waits s')
start_proxy-Cleaned port (ok _) (err e) waits s =
    let s' = emit (adb_connect_failed e) (emit (proxy_ready port) s) in
    stopped-Cleaned s' (guest_loop waits s') (guest_loop-Ends waits s')
start_proxy-Cleaned port (ok _) panic waits s = λ e same. cc
start_proxy-Cleaned port (err e) connected waits s = λ _ _. (omega arith, omega arith)
start_proxy-Cleaned port panic connected waits s = λ e same. cc

-- When `JoinAsGuest` returns, it has stopped the proxy exactly once if the owner accepted and the proxy was
-- started, and not at all otherwise; and it has run "adb disconnect" exactly once if, besides, "adb connect"
-- had succeeded. This holds whichever waits the loop met.
pub join_as_guest_cleans :
    (room_id key port : List ℕ) (started connected : Result Unit) (waits : List GuestWait)
    (s : GuestSession) (e : Error)
    → let joined = count (room_join_step room_id key s).1 in
      let (s', ended) = join_as_guest room_id key port started connected waits s in
      ended ≡ some e
      → (s'.proxy_stops ≡ s.proxy_stops + joined * count started)
        × (s'.disconnects ≡ s.disconnects + joined * (count started * count connected))
unfolding join_as_guest
join_as_guest_cleans room_id key port started connected waits s e =
    joined (room_join_step room_id key s) (room_join_step-keeps room_id key s)
  where
    joined :
        (x : GuestSession × Result Unit)
        → (x.0.disconnects ≡ s.disconnects) × (x.0.proxy_stops ≡ s.proxy_stops)
        → let (s', ended) = after_join x (start_proxy port started connected waits) in
          ended ≡ some e
          → (s'.proxy_stops ≡ s.proxy_stops + count x.1 * count started)
            × (s'.disconnects ≡ s.disconnects + count x.1 * (count started * count connected))
    joined (s0, ok _) (d, p) same =
        let (p', d') = start_proxy-Cleaned port started connected waits s0 e same in
        (omega (arith, p', p), omega (arith, d', d))
    joined (s0, err e) (d, p) same = (omega (arith, p), omega (arith, d))
    joined (s0, panic) (d, p) same = cc
