-- ===== src/Transporter/Rooms/Isolation.antt =====
-- A room with a guest is out of the reach of every client that is not in it.
use adb_remote.Prelude.{
  ℕ, ◌≡◌, ap, inl, inr, List, [], ◌∷◌, Bool, false, ◌==◌, Option, none, some, arith, Option-cases,
  Result, ok, err, panic,
}
use adb_remote.Protocol.Message.{TransporterMessage, command}
use adb_remote.Protocol.Payload.{
  PayloadConnectRoom, PayloadConnectRoomResult, get_payload_connect_room,
  get_payload_connect_room_response,
}
use adb_remote.Transporter.Rooms.{
  Room, RoomManager, Event, message, disconnected, find_room_by_id, find_room_by_owner,
  find_room_by_participant, is_participant, set_guest, remove_room, send_invalid_payload_error,
  handle_create_room, handle_join_room, join_room_command, respond_to_guest,
  handle_join_room_response, join_room_response_command, handle_adb_transport,
  handle_client_disconnected, dispatch_message, dispatch_message_safely, step, run,
}
use adb_remote.Transporter.Rooms.Invariant.{Inv, step-Inv}
use adb_remote.Transporter.Rooms.Occurrence.{
  Occurs, find_room_by_id-Occurs, find_room_by_owner-Occurs, find_room_by_participant-Occurs,
  set_guest-Occurs, remove_room-Occurs, append-Occurs, same_room,
}

-- The client that an event comes from.
abbrev pub source : Event → ℕ
source (message sender m room_id) = sender
source (disconnected client) = client

module _ (fails : ℕ → Bool) (client_id : ℕ → List ℕ) (r : Room) (guest : ℕ)
    (full : r.guest ≡ some guest) where
  -- A room found for somebody outside `r` has another pointer.
  differs :
      (s : RoomManager) (q : Room)
      → Inv s
      → Occurs r s.rooms
      → Occurs q s.rooms
      → ¬ (r ≡ q)
      → (r.ref == q.ref) ≡ false
  differs s q v o p d = elim (same_room s.next_ref r q s.rooms v o p) [
    | inl e ↦ absurd (d e)
    | inr e ↦ e
  ]

  -- Storing a guest in another room, and removing that room, keep `r`.
  touched :
      (s : RoomManager) (q : Room) (g : Option ℕ)
      → (r.ref == q.ref) ≡ false
      → Occurs r s.rooms
      → Occurs r (set_guest q.ref g s.rooms)
        × Occurs r (remove_room q.ref s.rooms)
        × Occurs r (remove_room q.ref (set_guest q.ref g s.rooms))
  touched s q g d o =
      let stored = set_guest-Occurs r q.ref g s.rooms d o in
      (
        stored,
        remove_room-Occurs r q.ref s.rooms d o,
        remove_room-Occurs r q.ref (set_guest q.ref g s.rooms) d stored,
      )

  create_keeps :
      (sender : ℕ) (room_id : List ℕ) (s : RoomManager)
      → Occurs r s.rooms
      → Occurs r (handle_create_room fails client_id sender room_id s).rooms
  unfolding handle_create_room
  create_keeps sender room_id s o =
      let room : Room = record {
        ref = s.next_ref;
        room_id = room_id;
        owner = sender;
        guest = none;
      } in
      ground (arith, o, append-Occurs r room s.rooms o)

  join_keeps :
      (sender : ℕ) (room_id key : List ℕ) (s : RoomManager)
      → Inv s
      → Occurs r s.rooms
      → Occurs r (handle_join_room fails client_id sender room_id key s).rooms
  unfolding handle_join_room
  join_keeps sender room_id key s v o = elim (Option-cases (find_room_by_id room_id s.rooms)) [
    | inl e ↦ rw (e, handle_join_room) (ground (arith, o))
    | inr (q, e) ↦ elim (Option-cases q.guest) [
      | inr (g, occupied) ↦ rw (e, handle_join_room, occupied) (ground (arith, o))
      | inl free ↦
          let d = differs s q v o (find_room_by_id-Occurs room_id s.rooms q e) (λ p. cc) in
          rw (e, handle_join_room, free) (ground (arith, touched s q (some sender) d o))
    ]
  ]

  respond_keeps :
      (sender flag : ℕ) (key : List ℕ) (q : Room) (g : ℕ) (s : RoomManager)
      → (r.ref == q.ref) ≡ false
      → Occurs r s.rooms
      → Occurs r (respond_to_guest fails client_id sender flag key q g s).rooms
  unfolding respond_to_guest
  respond_keeps sender flag key q g s d o = ground (arith, o, touched s q none d o)

  response_keeps :
      (sender flag : ℕ) (key : List ℕ) (s : RoomManager)
      → Inv s
      → (r.owner == sender) ≡ false
      → Occurs r s.rooms
      → Occurs r (handle_join_room_response fails client_id sender flag key s).rooms
  unfolding handle_join_room_response
  response_keeps sender flag key s v away o =
      elim (Option-cases (find_room_by_owner sender s.rooms)) [
        | inl e ↦ rw (e, handle_join_room_response) (ground (arith, o))
        | inr (q, e) ↦
            let found = find_room_by_owner-Occurs sender s.rooms q e in
            let d =
              differs s q v o found.0
                (λ p. ground (arith, away, found.1, ap (λ (x : Room). x.owner) p)) in
            elim (Option-cases q.guest) [
              | inl g ↦
                  rw (e, handle_join_room_response, g) (ground (arith, o, touched s q none d o))
              | inr (g, h) ↦
                  rw (e, handle_join_room_response, h) (respond_keeps sender flag key q g s d o)
            ]
      ]

  disconnect_keeps :
      (client : ℕ) (s : RoomManager)
      → Inv s
      → is_participant client r ≡ false
      → Occurs r s.rooms
      → Occurs r (handle_client_disconnected fails client_id client s).rooms
  unfolding handle_client_disconnected
  disconnect_keeps client s v away o =
      elim (Option-cases (find_room_by_participant client s.rooms)) [
        | inl e ↦ rw (e, handle_client_disconnected) o
        | inr (q, e) ↦
            let found = find_room_by_participant-Occurs client s.rooms q e in
            let d =
              differs s q v o found.0 (λ p. cc (away, found.1, ap (is_participant client) p)) in
            rw (e, handle_client_disconnected) (ground (arith, o, touched s q none d o))
      ]

  adb_keeps :
      (sender : ℕ) (m : TransporterMessage) (s : RoomManager)
      → Occurs r s.rooms
      → Occurs r (handle_adb_transport fails client_id sender m s).rooms
  unfolding handle_adb_transport
  adb_keeps sender m s o = ground (arith, o)

  join_command_keeps :
      (sender : ℕ) (p : Result PayloadConnectRoom) (c : ℕ) (s : RoomManager)
      → Inv s
      → Occurs r s.rooms
      → Occurs r (join_room_command fails client_id sender p c s).0.rooms
  unfolding join_room_command send_invalid_payload_error
  join_command_keeps sender (ok p) c s v o = join_keeps sender p.room_id p.public_key s v o
  join_command_keeps sender (err e) c s v o = ground (arith, o)
  join_command_keeps sender panic c s v o = o

  response_command_keeps :
      (sender : ℕ) (p : Result PayloadConnectRoomResult) (c : ℕ) (s : RoomManager)
      → Inv s
      → (r.owner == sender) ≡ false
      → Occurs r s.rooms
      → Occurs r (join_room_response_command fails client_id sender p c s).0.rooms
  unfolding join_room_response_command send_invalid_payload_error
  response_command_keeps sender (ok p) c s v away o =
      response_keeps sender p.accepted p.public_key s v away o
  response_command_keeps sender (err e) c s v away o = ground (arith, o)
  response_command_keeps sender panic c s v away o = o

  -- An event from a client outside a full room leaves that room as it is.
  pub step_keeps :
      (s : RoomManager) (e : Event)
      → Inv s
      → is_participant (source e) r ≡ false
      → Occurs r s.rooms
      → Occurs r (step fails client_id s e).rooms
  unfolding step dispatch_message_safely dispatch_message
  step_keeps s (message sender m room_id) v away o = ground (
    arith,
    create_keeps sender room_id s o,
    adb_keeps sender m s o,
    join_command_keeps sender (get_payload_connect_room m).1 (command m) s v o,
    response_command_keeps sender (get_payload_connect_room_response m).1 (command m) s v
        (ground arith) o,
  )
  step_keeps s (disconnected client) v away o = disconnect_keeps client s v away o

  abbrev pub AllOutside : List Event → Type 0
  AllOutside [] = Unit {0}
  AllOutside (e ∷ es) = (is_participant (source e) r ≡ false) × AllOutside es

  -- From a well-formed state, no number of messages and disconnections of clients that are not in
  -- a room changes that room if it is full: not its owner, nor its guest, nor its id, nor that it
  -- is in the table, whichever writes fail.
  pub run_keeps :
      (s : RoomManager) (es : List Event)
      → Inv s
      → AllOutside es
      → Occurs r s.rooms
      → Occurs r (run fails client_id s es).rooms
  unfolding run
  run_keeps s [] v away o = o
  run_keeps s (e ∷ es) v away o =
      run_keeps (step fails client_id s e) es (step-Inv fails client_id s e v) away.1
        (step_keeps s e v away.0 o)
