-- ===== src/Transporter/Rooms/Invariant.antt =====
-- No client owns two rooms, in every state that the room manager reaches.
use adb_remote.Prelude.{
  ℕ, ◌+◌, ◌<◌, ◌≡◌, refl, List, [], ◌∷◌, ◌++◌, Bool, false, ◌==◌, Option, none, some, arith,
  Bool-cases, Option-cases, inl, inr, Result, ok, err, panic,
}
use adb_remote.Protocol.Message.{TransporterMessage, command}
use adb_remote.Protocol.Payload.{
  PayloadConnectRoom, PayloadConnectRoomResult, get_payload_connect_room,
  get_payload_connect_room_response,
}
use adb_remote.Transporter.Rooms.{
  Room, RoomManager, Event, message, disconnected, find_room_by_id, find_room_by_owner,
  find_room_by_participant, set_guest, remove_room, create_room_manager, is_client_in_a_room,
  handle_create_room, handle_join_room, respond_to_guest, handle_join_room_response,
  handle_adb_transport, handle_client_disconnected, dispatch_message_safely, step,
  send_invalid_payload_error, join_room_command, join_room_response_command, run,
}

abbrev pub OwnsNone : ℕ → List Room → Type 0
OwnsNone c [] = Unit {0}
OwnsNone c (r ∷ rs) = ((r.owner == c) ≡ false) × OwnsNone c rs

abbrev pub RefAbsent : ℕ → List Room → Type 0
RefAbsent x [] = Unit {0}
RefAbsent x (r ∷ rs) = ((r.ref == x) ≡ false) × RefAbsent x rs

-- Distinct rooms have distinct pointers and distinct owners.
abbrev pub Separate : ℕ → List Room → Type 0
Separate next [] = Unit {0}
Separate next (r ∷ rs) =
    (r.ref < next) × RefAbsent r.ref rs × OwnsNone r.owner rs × Separate next rs

abbrev pub Inv : RoomManager → Type 0
Inv s = Separate s.next_ref s.rooms

set_guest-OwnsNone :
    (c ref : ℕ) (g : Option ℕ) (rs : List Room) → OwnsNone c rs → OwnsNone c (set_guest ref g rs)
unfolding set_guest
set_guest-OwnsNone c ref g [] h = tt
set_guest-OwnsNone c ref g (r ∷ rs) h = ground (arith, set_guest-OwnsNone c ref g rs h.1)

set_guest-RefAbsent :
    (x ref : ℕ) (g : Option ℕ) (rs : List Room) → RefAbsent x rs → RefAbsent x (set_guest ref g rs)
unfolding set_guest
set_guest-RefAbsent x ref g [] h = tt
set_guest-RefAbsent x ref g (r ∷ rs) h = ground (arith, set_guest-RefAbsent x ref g rs h.1)

pub set_guest-Separate :
    (next ref : ℕ) (g : Option ℕ) (rs : List Room)
    → Separate next rs
    → Separate next (set_guest ref g rs)
unfolding set_guest
set_guest-Separate next ref g [] v = tt
set_guest-Separate next ref g (r ∷ rs) v = ground (
  arith,
  set_guest-Separate next ref g rs v.3,
  set_guest-OwnsNone r.owner ref g rs v.2,
  set_guest-RefAbsent r.ref ref g rs v.1,
)

remove_room-OwnsNone :
    (c ref : ℕ) (rs : List Room) → OwnsNone c rs → OwnsNone c (remove_room ref rs)
unfolding remove_room
remove_room-OwnsNone c ref [] h = tt
remove_room-OwnsNone c ref (r ∷ rs) h = ground (arith, remove_room-OwnsNone c ref rs h.1)

remove_room-RefAbsent :
    (x ref : ℕ) (rs : List Room) → RefAbsent x rs → RefAbsent x (remove_room ref rs)
unfolding remove_room
remove_room-RefAbsent x ref [] h = tt
remove_room-RefAbsent x ref (r ∷ rs) h = ground (arith, remove_room-RefAbsent x ref rs h.1)

pub remove_room-Separate :
    (next ref : ℕ) (rs : List Room) → Separate next rs → Separate next (remove_room ref rs)
unfolding remove_room
remove_room-Separate next ref [] v = tt
remove_room-Separate next ref (r ∷ rs) v = ground (
  arith,
  remove_room-Separate next ref rs v.3,
  remove_room-OwnsNone r.owner ref rs v.2,
  remove_room-RefAbsent r.ref ref rs v.1,
)

OwnsNone-append :
    (c : ℕ) (rs : List Room) (r : Room)
    → OwnsNone c rs
    → (r.owner == c) ≡ false
    → OwnsNone c (rs ++ r ∷ [])
OwnsNone-append c [] r h e = (e, tt)
OwnsNone-append c (x ∷ xs) r h e = (h.0, OwnsNone-append c xs r h.1 e)

RefAbsent-append :
    (c : ℕ) (rs : List Room) (r : Room)
    → RefAbsent c rs
    → (r.ref == c) ≡ false
    → RefAbsent c (rs ++ r ∷ [])
RefAbsent-append c [] r h e = (e, tt)
RefAbsent-append c (x ∷ xs) r h e = (h.0, RefAbsent-append c xs r h.1 e)

-- A new room with a new pointer, whose owner has none.
append-Separate :
    (next : ℕ) (rs : List Room) (r : Room)
    → Separate next rs
    → r.ref ≡ next
    → OwnsNone r.owner rs
    → Separate (next + 1) (rs ++ r ∷ [])
append-Separate next [] r v e o = (omega arith, tt, tt, tt)
append-Separate next (x ∷ xs) r v e o = (
  omega arith,
  RefAbsent-append x.ref xs r v.1 (ground arith),
  OwnsNone-append x.owner xs r v.2 (ground arith),
  append-Separate next xs r v.3 e o.1,
)

outside-OwnsNone : (c : ℕ) (rs : List Room) → find_room_by_participant c rs ≡ none → OwnsNone c rs
unfolding find_room_by_participant
outside-OwnsNone c [] h = tt
outside-OwnsNone c (r ∷ rs) h = elim (Bool-cases (r.owner == c)) [
  | inl owns ↦ ground arith
  | inr other ↦ (other, outside-OwnsNone c rs (ground arith))
]

module _ (fails : ℕ → Bool) (client_id : ℕ → List ℕ) where
  create-Inv :
      (sender : ℕ) (room_id : List ℕ) (s : RoomManager)
      → Inv s
      → Inv (handle_create_room fails client_id sender room_id s)
  unfolding handle_create_room is_client_in_a_room
  create-Inv sender room_id s v =
      let room : Room = record {
        ref = s.next_ref;
        room_id = room_id;
        owner = sender;
        guest = none;
      } in
      ground
        (arith, outside-OwnsNone sender s.rooms, append-Separate s.next_ref s.rooms room v refl)

  join-Inv :
      (sender : ℕ) (room_id key : List ℕ) (s : RoomManager)
      → Inv s
      → Inv (handle_join_room fails client_id sender room_id key s)
  unfolding handle_join_room
  join-Inv sender room_id key s v = elim (Option-cases (find_room_by_id room_id s.rooms)) [
    | inl e ↦ rw (e, handle_join_room) (ground arith)
    | inr (room, e) ↦
        let joined = set_guest-Separate s.next_ref room.ref (some sender) s.rooms v in
        rw (e, handle_join_room)
          (ground (
            arith,
            joined,
            remove_room-Separate s.next_ref room.ref (set_guest room.ref (some sender) s.rooms)
                joined,
          ))
  ]

  respond-Inv :
      (sender flag : ℕ) (key : List ℕ) (room : Room) (guest : ℕ) (s : RoomManager)
      → Inv s
      → Inv (respond_to_guest fails client_id sender flag key room guest s)
  unfolding respond_to_guest
  respond-Inv sender flag key room guest s v =
      let cleared = set_guest-Separate s.next_ref room.ref none s.rooms v in
      ground (
        arith,
        cleared,
        remove_room-Separate s.next_ref room.ref (set_guest room.ref none s.rooms) cleared,
      )

  response-Inv :
      (sender flag : ℕ) (key : List ℕ) (s : RoomManager)
      → Inv s
      → Inv (handle_join_room_response fails client_id sender flag key s)
  unfolding handle_join_room_response
  response-Inv sender flag key s v = elim (Option-cases (find_room_by_owner sender s.rooms)) [
    | inl e ↦ rw (e, handle_join_room_response) (ground arith)
    | inr (room, e) ↦ elim (Option-cases room.guest) [
      | inl g ↦
          rw (e, handle_join_room_response, g)
            (ground (arith, remove_room-Separate s.next_ref room.ref s.rooms v))
      | inr (guest, g) ↦
          rw (e, handle_join_room_response, g) (respond-Inv sender flag key room guest s v)
    ]
  ]

  disconnect-Inv :
      (client : ℕ) (s : RoomManager)
      → Inv s
      → Inv (handle_client_disconnected fails client_id client s)
  unfolding handle_client_disconnected
  disconnect-Inv client s v = elim (Option-cases (find_room_by_participant client s.rooms)) [
    | inl e ↦ rw (e, handle_client_disconnected) v
    | inr (room, e) ↦
        rw (e, handle_client_disconnected)
          (ground (
            arith,
            set_guest-Separate s.next_ref room.ref none s.rooms v,
            remove_room-Separate s.next_ref room.ref s.rooms v,
          ))
  ]

  adb-Inv :
      (sender : ℕ) (m : TransporterMessage) (s : RoomManager)
      → Inv s
      → Inv (handle_adb_transport fails client_id sender m s)
  unfolding handle_adb_transport
  adb-Inv sender m s v = ground arith

  invalid-Inv :
      (sender c : ℕ) (s : RoomManager)
      → Inv s
      → Inv (send_invalid_payload_error fails client_id sender c s)
  unfolding send_invalid_payload_error
  invalid-Inv sender c s v = ground arith

  join_command-Inv :
      (sender : ℕ) (r : Result PayloadConnectRoom) (c : ℕ) (s : RoomManager)
      → Inv s
      → Inv (join_room_command fails client_id sender r c s).0
  unfolding join_room_command
  join_command-Inv sender (ok p) c s v = join-Inv sender p.room_id p.public_key s v
  join_command-Inv sender (err e) c s v = invalid-Inv sender c s v
  join_command-Inv sender panic c s v = v

  response_command-Inv :
      (sender : ℕ) (r : Result PayloadConnectRoomResult) (c : ℕ) (s : RoomManager)
      → Inv s
      → Inv (join_room_response_command fails client_id sender r c s).0
  unfolding join_room_response_command
  response_command-Inv sender (ok p) c s v = response-Inv sender p.accepted p.public_key s v
  response_command-Inv sender (err e) c s v = invalid-Inv sender c s v
  response_command-Inv sender panic c s v = v

  dispatch-Inv :
      (sender : ℕ) (m : TransporterMessage) (room_id : List ℕ) (s : RoomManager)
      → Inv s
      → Inv (dispatch_message_safely fails client_id sender m room_id s)
  unfolding dispatch_message_safely
  dispatch-Inv sender m room_id s v = ground (
    arith,
    create-Inv sender room_id s v,
    adb-Inv sender m s v,
    join_command-Inv sender (get_payload_connect_room m).1 (command m) s v,
    response_command-Inv sender (get_payload_connect_room_response m).1 (command m) s v,
  )

  pub step-Inv : (s : RoomManager) (e : Event) → Inv s → Inv (step fails client_id s e)
  unfolding step
  step-Inv s (message sender m room_id) v = dispatch-Inv sender m room_id s v
  step-Inv s (disconnected client) v = disconnect-Inv client s v

  run-Inv : (s : RoomManager) (es : List Event) → Inv s → Inv (run fails client_id s es)
  unfolding run
  run-Inv s [] v = v
  run-Inv s (e ∷ es) v = run-Inv (step fails client_id s e) es (step-Inv s e v)

  -- Whatever messages and disconnections arrive, in whatever order, and whichever writes fail: no
  -- client owns two rooms.
  pub run-create-Inv : (es : List Event) → Inv (run fails client_id create_room_manager es)
  run-create-Inv es = run-Inv create_room_manager es (unfold create_room_manager in tt)
