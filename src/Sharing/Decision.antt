-- ===== src/Sharing/Decision.antt =====
-- The owner's decision on a join request, from client/controller/ownerController.go over the transporter to the
-- guest in client/controller/guestController.go.
use adb_remote.Prelude.{
  ℕ, ◌+◌, ◌≤◌, ◌<◌, ◌≡◌, refl, ap, ◌∙◌, Bool, true, false, not, List, [], ◌∷◌, ◌++◌, length, drop,
  ok, err, arith, uint32-put, ◌==◌, if◌then◌else◌, append-nil, join_room_denied, some, Result,
}
use adb_remote.Protocol.Message.{TransporterMessage, create_transporter_message}
use adb_remote.Protocol.Fields.Sequence.{encode, length-encode}
use adb_remote.Protocol.Payload.{PayloadConnectRoomResult}
use adb_remote.Protocol.Payload.Stores.{fields_connect_room_result}
use adb_remote.Protocol.Payload.Loads.{get_payload_connect_room_response-Gets}
use adb_remote.Protocol.Wire.Frames.{framed, wire}
use adb_remote.Pool.{obtain, contents_of}
use adb_remote.Transporter.Connection.{Connection, read_next_message}
use adb_remote.Transporter.Connection.Sending.{AllMessages, obtained, send_join_room_response_lem}
use adb_remote.Transporter.Connection.Reading.{read_next_message_lem}
use adb_remote.Transporter.Rooms.{
  RoomManager, Room, sent, join_room_response, find_room_by_owner, dispatch_message_safely,
  dispatch_message, join_room_response_command, handle_join_room_response, respond_to_guest,
}
use adb_remote.Client.Controller.{GuestSession, room_join_step, join_decided}
use adb_remote.Client.Controller.Answers.{framed-Holds}
use adb_remote.Client.Controller.Meeting.{room_join_step_answered}
use adb_remote.Client.OwnerController.{OwnerSession, handle_join_request}
use adb_remote.Client.OwnerController.Decisions.{flag, flag-word, answer, join_request_answered}
use adb_remote.Sharing.{perform}

-- What a guest's join comes to.
abbrev pub joined : Bool → Result (Unit {0})
joined accepted = if accepted then ok tt else err join_room_denied

outcome_flag :
    (accepted : Bool)
    → (if flag accepted == 0 then err join_room_denied else ok tt) ≡ joined accepted
outcome_flag true = refl
outcome_flag false = refl

decided_flag : (accepted : Bool) → not (flag accepted == 0) ≡ accepted
decided_flag true = refl
decided_flag false = refl

module _ (fails : ℕ → Bool) (client_id : ℕ → List ℕ) where
  -- The owner of a room with a guest answers, and the answer can be sent.
  responds :
      (owner guest : ℕ) (p : PayloadConnectRoomResult) (rest room_id : List ℕ) (rm : RoomManager)
      (room : Room)
      → p.accepted < 4294967296
      → 12 + (length p.client_id + length p.public_key) ≤ 61440
      → find_room_by_owner owner rm.rooms ≡ some room
      → room.guest ≡ some guest
      → fails rm.sends ≡ false
      → (dispatch_message_safely fails client_id owner
          (framed 0x1004 (encode [] (fields_connect_room_result p)) rest)
          room_id
          rm).trace
        ≡ sent guest (join_room_response p.accepted (client_id owner) p.public_key) ∷ rm.trace
  unfolding dispatch_message_safely dispatch_message join_room_response_command
      handle_join_room_response respond_to_guest
  responds owner guest p rest room_id rm room word fits found taken works =
      let fs = fields_connect_room_result p in
      let held = framed-Holds 0x1004 (encode [] fs) rest (omega (arith, length-encode [] fs)) in
      rw
        (
          uint32-put 0x1004 (omega arith),
          get_payload_connect_room_response-Gets p word (framed 0x1004 (encode [] fs) rest) held,
          join_room_response_command,
          found,
          handle_join_room_response,
          taken,
        )
        (ground (arith, works))

-- An owner whose operator decides on a join request, the transporter that reads its answer, the connection to
-- the guest, and the guest whose request is pending, each reading what the one before it wrote: if every frame
-- fits, the guest reports exactly the operator's decision with the id that the transporter keeps for the owner
-- and the owner's key, and its join succeeds exactly if the operator accepted.
pub decision_reaches_guest :
    (fails : ℕ → Bool) (client_id : ℕ → List ℕ) (s : OwnerSession) (to_owner to_guest : Connection)
    (rm : RoomManager) (room : Room) (t : GuestSession) (owner guest : ℕ) (accepted : Bool)
    (own_key guest_id guest_key room_id key drawn : List ℕ)
    → AllMessages s.client.pool
    → AllMessages to_owner.pool
    → AllMessages to_guest.pool
    → AllMessages t.client.pool
    → 12 + (length (client_id owner) + length own_key) ≤ 61440
    → 64 + length own_key ≤ s.client.writer.room
    → 24 + length (client_id owner) + length own_key ≤ to_guest.writer.room
    → 12 + (length room_id + length key) ≤ 61440
    → 24 + (length room_id + length key) ≤ t.client.writer.room
    → s.client.writer.out ≡ []
    → to_guest.writer.out ≡ []
    → to_owner.input
      ≡ (handle_join_request own_key (ok accepted) guest_id guest_key s).0.client.writer.out
    → find_room_by_owner owner rm.rooms ≡ some room
    → room.guest ≡ some guest
    → fails rm.sends ≡ false
    → t.client.input
      ≡ (perform
          (join_room_response (flag accepted) (client_id owner) own_key)
          to_guest).0.writer.out
    → let response = join_room_response (flag accepted) (client_id owner) own_key in
      let (t', r) = room_join_step room_id key t in
      (c : ℕ) × (m : TransporterMessage) × ((read_next_message to_owner).1 ≡ ok c)
      × (contents_of c (read_next_message to_owner).0.pool ≡ ok m)
      × ((dispatch_message_safely fails client_id owner m drawn rm).trace
          ≡ sent guest response ∷ rm.trace)
      × (r ≡ joined accepted)
      × (t'.events ≡ join_decided accepted (client_id owner) own_key ∷ t.events)
unfolding perform
decision_reaches_guest fails client_id s to_owner to_guest rm room t owner guest accepted own_key
      guest_id guest_key room_id key drawn all all' all'' all3 fits room1 room2 small room3 new new'
      hears found taken works hears' =
    let p = answer own_key accepted in
    let word : flag accepted < 4294967296 = omega (arith, flag-word accepted) in
    let bs = encode [] (fields_connect_room_result p) in
    let (_, _, written) =
      (join_request_answered own_key guest_id guest_key s all (omega arith) room1).0 accepted in
    let heard : to_owner.input ≡ wire 0x1004 bs ++ [] =
      rw (hears, written, new, append-nil (wire 0x1004 bs)) refl in
    let (e, opened) =
      read_next_message_lem 0x1004 bs [] to_owner all' heard
        (omega (arith, length-encode [] (fields_connect_room_result p))) in
    let rest = drop (length bs) (obtained to_owner.pool).payload_buffer in
    let q : PayloadConnectRoomResult = record {
      accepted = flag accepted;
      client_id = client_id owner;
      public_key = own_key;
    } in
    let bs' = encode [] (fields_connect_room_result q) in
    let (_, told) =
      send_join_room_response_lem to_guest all'' (flag accepted) (client_id owner) own_key word
        (omega arith) (omega arith) in
    let heard' : t.client.input ≡ wire 0x1004 bs' ++ [] =
      rw (hears', told, new', append-nil (wire 0x1004 bs')) refl in
    let (decided, reported, _, _) =
      room_join_step_answered room_id key t [] q all3 small room3 word (omega arith) heard' in
    (
      (obtain create_transporter_message to_owner.pool).1,
      framed 0x1004 bs rest,
      ap (λ (x : Connection × Result ℕ). x.1) e,
      ap
            (λ (x : Connection × Result ℕ).
              contents_of (obtain create_transporter_message to_owner.pool).1 x.0.pool)
            e
          ∙ opened,
      responds fails client_id owner guest p rest drawn rm room word (omega arith) found taken
          works,
      decided ∙ outcome_flag accepted,
      reported
          ∙ ap (λ b. join_decided b (client_id owner) own_key ∷ t.events) (decided_flag accepted),
    )
