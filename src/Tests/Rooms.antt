-- ===== src/Tests/Rooms.antt =====
-- The room manager on a network that works, with clients 1 to 4.
use adb_remote.Prelude.{
  ℕ, ◌≡◌, refl, Bool, false, List, [], ◌∷◌, none, some, arith, inl, inr, bytes_eq,
}
use adb_remote.Protocol.Message.{TransporterMessage}
use adb_remote.Transporter.Rooms.{
  Room, RoomManager, message, disconnected, sent, forwarded, join_room_request, create_room_manager,
  find_room_by_id, find_room_by_participant, handle_join_room, handle_adb_transport,
  handle_client_disconnected, run,
}
use adb_remote.Transporter.Rooms.Invariant.{Inv, run-create-Inv}
use adb_remote.Transporter.Rooms.Occurrence.{Occurs}
use adb_remote.Transporter.Rooms.Isolation.{run_keeps}
use adb_remote.Transporter.Rooms.Routing.{join_refused, relayed_before_accepted}
use adb_remote.Transporter.Rooms.Leaving.{disconnect_leaves_stale}

abbrev steady : ℕ → Bool
steady n = false

abbrev name : ℕ → List ℕ
name c = c ∷ []

abbrev shared_room : Room
shared_room = record { ref = 0; room_id = 65 ∷ []; owner = 1; guest = some 2 }

abbrev free_room : Room
free_room = record { ref = 1; room_id = 66 ∷ []; owner = 3; guest = none }

abbrev two_rooms : RoomManager
two_rooms = record { rooms = shared_room ∷ free_room ∷ []; next_ref = 2; sends = 0; trace = [] }

two_rooms-Inv : Inv two_rooms
two_rooms-Inv = (omega arith, (refl, tt), (refl, tt), (omega arith, tt, tt, tt))

abbrev packet : TransporterMessage
packet = record {
  command_buffer = 6 ∷ 0 ∷ 0 ∷ 0 ∷ [];
  payload_length_buffer = 0 ∷ 0 ∷ 0 ∷ 0 ∷ [];
  payload_crc32_buffer = 0 ∷ 0 ∷ 0 ∷ 0 ∷ [];
  payload_buffer = [];
}

run-create-Inv_example :
    Inv (run steady name create_room_manager (message 1 packet (65 ∷ []) ∷ disconnected 1 ∷ []))
run-create-Inv_example =
    run-create-Inv steady name (message 1 packet (65 ∷ []) ∷ disconnected 1 ∷ [])

run_keeps_example :
    Occurs shared_room
      (run steady name two_rooms (disconnected 3 ∷ message 4 packet (67 ∷ []) ∷ [])).rooms
run_keeps_example =
    run_keeps steady name shared_room 2 refl two_rooms
      (disconnected 3 ∷ message 4 packet (67 ∷ []) ∷ []) two_rooms-Inv (refl, (refl, tt)) (inl refl)

relayed_before_accepted_example :
    (handle_adb_transport steady name 4 packet
      (handle_join_room steady name 4 (66 ∷ []) (9 ∷ []) two_rooms)).trace
    ≡ sent 3 (forwarded packet) ∷ sent 3 (join_room_request (66 ∷ []) (4 ∷ []) (9 ∷ [])) ∷ []
unfolding find_room_by_id find_room_by_participant bytes_eq
relayed_before_accepted_example =
    relayed_before_accepted steady name 4 (66 ∷ []) (9 ∷ []) packet two_rooms free_room
      two_rooms-Inv refl refl refl refl refl

join_refused_example :
    (handle_join_room steady name 4 (65 ∷ []) (9 ∷ []) two_rooms).rooms ≡ two_rooms.rooms
unfolding find_room_by_id bytes_eq
join_refused_example =
    (join_refused steady name 4 (65 ∷ []) (9 ∷ []) two_rooms (inr (shared_room, 2, refl, refl))).2

-- Client 1 owns a room and is the guest of another.
abbrev overlapping : RoomManager
overlapping = record {
  rooms = record shared_room { guest = none } ∷ record free_room { guest = some 1 } ∷ [];
  next_ref = 2;
  sends = 0;
  trace = [];
}

disconnect_leaves_stale_example :
    Occurs
      (record free_room { guest = some 1 })
      (handle_client_disconnected steady name 1 overlapping).rooms
unfolding find_room_by_participant
disconnect_leaves_stale_example =
    disconnect_leaves_stale steady name 1 overlapping (record shared_room { guest = none })
      (record free_room { guest = some 1 }) refl (inr (inl refl)) refl refl
