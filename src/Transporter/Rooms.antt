-- ===== src/Transporter/Rooms.antt =====
-- transporter/manager/roomManager/roomManager.go. Connections are numbers, and a room's `ref` stands
-- for its pointer. Whether the n-th write to a client fails is up to the network: `fails`. The effects
-- of a handler on connections are recorded, the latest first.
mod Table
unfoldable pub use Table.*
pub mod Invariant
pub mod Occurrence
pub mod Isolation
pub mod Routing
pub mod Leaving
use Prim.Native.Nat.{bit_or}
use adb_remote.Prelude.{
  ℕ, ◌+◌, Bool, true, false, ◌||◌, List, [], ◌∷◌, ◌++◌, ◌==◌, if◌then◌else◌, Option, none, some,
  Result, ok, err, panic, bytes_eq, ascii,
}
use adb_remote.Protocol.Constants.{
  command_create_room, command_join_room, command_adb_transport, command_response_mask,
  error_unknown, error_already_in_room, error_room_not_found, error_full, error_no_participant,
  error_invalid_payload,
}
use adb_remote.Protocol.Message.{TransporterMessage, command}
use adb_remote.Protocol.Payload.{
  PayloadConnectRoom, PayloadConnectRoomResult, get_payload_connect_room,
  get_payload_connect_room_response,
}

-- What a client is sent: the `Send` methods of ClientConnection.
pub data Outgoing : Type 0 where
  error_response : ℕ → ℕ → List ℕ → Outgoing
  room_create_response : List ℕ → Outgoing
  join_room_request : List ℕ → List ℕ → List ℕ → Outgoing
  join_room_response : ℕ → List ℕ → List ℕ → Outgoing
  guest_left : Outgoing
  forwarded : TransporterMessage → Outgoing

pub data Effect : Type 0 where
  sent failed : ℕ → Outgoing → Effect
  closed : ℕ → Effect

pub record RoomManager : Type 0 where
  pub rooms : List Room
  pub next_ref : ℕ
  pub sends : ℕ
  pub trace : List Effect

unfoldable pub create_room_manager : RoomManager
create_room_manager = record { rooms = []; next_ref = 0; sends = 0; trace = [] }

unfoldable pub is_client_in_a_room : ℕ → RoomManager → Bool
is_client_in_a_room c s = is_some (find_room_by_participant c s.rooms)

unfoldable pub close : ℕ → RoomManager → RoomManager
close c s = record s { trace = closed c ∷ s.trace }

abbrev pub close_guest : Option ℕ → RoomManager → RoomManager
close_guest none s = s
close_guest (some g) s = record s { trace = closed g ∷ s.trace }

abbrev pub with_guest : ℕ → Option ℕ → RoomManager → RoomManager
with_guest ref g s = record s { rooms = set_guest ref g s.rooms }

-- `closeRoom`. The owner of a room is never nil.
unfoldable pub close_room : Room → RoomManager → RoomManager
unfolding close
close_room room s =
    let s' = close_guest room.guest (close room.owner s) in
    record s' { rooms = remove_room room.ref s'.rooms }

-- The parameters: which writes fail, the id that each connection was given at its handshake, and the
-- random ids of rooms.
module _ (fails : ℕ → Bool) (client_id : ℕ → List ℕ) where
  -- A `Send` method, and whether it returned without an error.
  unfoldable pub send : ℕ → Outgoing → RoomManager → RoomManager × Bool
  send c o s =
      if fails s.sends
      then (record s { sends = s.sends + 1; trace = failed c o ∷ s.trace }, false)
      else (record s { sends = s.sends + 1; trace = sent c o ∷ s.trace }, true)

  -- `if err := c.Send…; err != nil { c.Close() }`.
  unfoldable pub send_or_close : ℕ → Outgoing → RoomManager → RoomManager
  unfolding send close
  send_or_close c o s = let (s', done) = send c o s in if done then s' else close c s'

  unfoldable pub handle_create_room : ℕ → List ℕ → RoomManager → RoomManager
  unfolding send_or_close
  handle_create_room sender room_id s =
      if is_client_in_a_room sender s
      then send_or_close sender
          (error_response command_create_room error_already_in_room
            (ascii "You already occupy a room"))
          s
      else send_or_close sender (room_create_response room_id) (record s {
        rooms =
            s.rooms
            ++ record { ref = s.next_ref; room_id = room_id; owner = sender; guest = none } ∷ [];
        next_ref = s.next_ref + 1;
      })

  unfoldable pub join_free_room : ℕ → List ℕ → List ℕ → Room → RoomManager → RoomManager
  unfolding send close_room
  join_free_room sender room_id guest_key room s =
      let room' = record room { guest = some sender } in
      let request = join_room_request room_id (client_id sender) guest_key in
      let notice =
        error_response command_join_room error_unknown
          (ascii "Couldn't send the join request to the room owner, closing down the room") in
      let (s', done) = send room.owner request (with_guest room.ref (some sender) s) in
      if done then s' else close_room room' (send sender notice s').0

  unfoldable pub handle_join_room : ℕ → List ℕ → List ℕ → RoomManager → RoomManager
  unfolding send_or_close join_free_room
  handle_join_room sender room_id guest_key s = elim (find_room_by_id room_id s.rooms) [
    | none ↦
        send_or_close sender
          (error_response command_join_room error_room_not_found
            (ascii "Room not found with this id: " ++ room_id))
          s
    | some room ↦
        if is_some room.guest
        then send_or_close sender
            (error_response command_join_room error_full
              (ascii "This room already has a guest; only one guest is allowed per room"))
            s
        else join_free_room sender room_id guest_key room s
  ]

  unfoldable pub respond_to_guest : ℕ → ℕ → List ℕ → Room → ℕ → RoomManager → RoomManager
  unfolding send close close_room
  respond_to_guest sender is_accepted owner_key room guest s =
      let (s', done) = send guest (join_room_response is_accepted (client_id sender) owner_key) s in
      let evicted = with_guest room.ref none s' in
      let notice = error_response command_join_room error_no_participant (
        ascii
          "participant disconnected during the response sending, the room is waiting for another participant") in
      let (s3, told) = send sender notice (with_guest room.ref none (close guest s')) in
      if done
      then (if is_accepted == 0 then evicted else s')
      else if told
      then s3
      else close_room (record room { guest = none }) s3

  unfoldable pub handle_join_room_response : ℕ → ℕ → List ℕ → RoomManager → RoomManager
  unfolding send_or_close send close_room
  handle_join_room_response sender is_accepted owner_key s =
      elim (find_room_by_owner sender s.rooms) [
        | none ↦
            send_or_close sender
              (error_response command_join_room error_room_not_found
                (ascii "No room found where the sender is the owner"))
              s
        | some room ↦ elim room.guest [
          | none ↦
              let (s', done) =
                send sender
                  (error_response command_join_room error_no_participant
                    (ascii "You are in an empty room"))
                  s in
              if done then s' else close_room room s'
          | some guest ↦ respond_to_guest sender is_accepted owner_key room guest s
        ]
      ]

  abbrev pub other_participant : ℕ → Room → Option ℕ
  other_participant sender room = if room.owner == sender then room.guest else some room.owner

  unfoldable pub handle_adb_transport : ℕ → TransporterMessage → RoomManager → RoomManager
  unfolding send
  handle_adb_transport sender m s = elim (find_room_by_participant sender s.rooms) [
    | none ↦ s
    | some room ↦ elim (other_participant sender room) [
      | none ↦ s
      | some target ↦ (send target (forwarded m) s).0
    ]
  ]

  unfoldable pub handle_client_disconnected : ℕ → RoomManager → RoomManager
  unfolding send close close_room
  handle_client_disconnected client s = elim (find_room_by_participant client s.rooms) [
    | none ↦ s
    | some room ↦
        if room.owner == client
        then close_room room s
        else if guest_is client room.guest
        then (send room.owner guest_left (with_guest room.ref none (close client s))).0
        else s
  ]

  unfoldable pub send_invalid_payload_error : ℕ → ℕ → RoomManager → RoomManager
  unfolding send_or_close
  send_invalid_payload_error sender c =
      send_or_close sender
        (error_response c error_invalid_payload (ascii "Invalid command payload"))

  unfoldable pub join_room_command :
      ℕ → Result PayloadConnectRoom → ℕ → RoomManager → RoomManager × Bool
  join_room_command sender (ok p) c s = (handle_join_room sender p.room_id p.public_key s, true)
  join_room_command sender (err e) c s = (send_invalid_payload_error sender c s, true)
  join_room_command sender panic c s = (s, false)

  unfoldable pub join_room_response_command :
      ℕ → Result PayloadConnectRoomResult → ℕ → RoomManager → RoomManager × Bool
  join_room_response_command sender (ok p) c s =
      (handle_join_room_response sender p.accepted p.public_key s, true)
  join_room_response_command sender (err e) c s = (send_invalid_payload_error sender c s, true)
  join_room_response_command sender panic c s = (s, false)

  -- The state, and `false` for a panic on the way.
  unfoldable pub dispatch_message :
      ℕ → TransporterMessage → List ℕ → RoomManager → RoomManager × Bool
  dispatch_message sender m room_id s =
      if command m == command_create_room
      then (handle_create_room sender room_id s, true)
      else if command m == command_join_room
      then join_room_command sender (get_payload_connect_room m).1 (command m) s
      else if command m == bit_or command_join_room command_response_mask
      then join_room_response_command sender (get_payload_connect_room_response m).1 (command m) s
      else if command m == command_adb_transport
      then (handle_adb_transport sender m s, true)
      else (s, true)

  -- The deferred `recover` closes the sender's connection.
  unfoldable pub dispatch_message_safely :
      ℕ → TransporterMessage → List ℕ → RoomManager → RoomManager
  unfolding dispatch_message close
  dispatch_message_safely sender m room_id s =
      let (s', done) = dispatch_message sender m room_id s in if done then s' else close sender s'

-- What the loop of `run` takes from its channels: a message, with the room id that is drawn if it
-- creates a room, or a disconnected client.
pub data Event : Type 0 where
  message : ℕ → TransporterMessage → List ℕ → Event
  disconnected : ℕ → Event

module _ (fails : ℕ → Bool) (client_id : ℕ → List ℕ) where
  unfoldable pub step : RoomManager → Event → RoomManager
  step s (message sender m room_id) = dispatch_message_safely fails client_id sender m room_id s
  step s (disconnected client) = handle_client_disconnected fails client_id client s

  unfoldable pub run : RoomManager → List Event → RoomManager
  run s [] = s
  run s (e ∷ es) = run (step s e) es
