-- ===== src/Sharing/Request.antt =====
-- A guest's join request, from client/controller/guestController.go over the transporter to the owner in
-- client/controller/ownerController.go.
use adb_remote.Prelude.{
  ℕ, ◌+◌, ◌≤◌, ◌≡◌, refl, ap, ◌∙◌, Bool, false, List, [], ◌∷◌, ◌++◌, length, drop, ok, arith,
  uint32-put, append-nil, some, none, Result,
}
use adb_remote.Protocol.Message.{TransporterMessage, create_transporter_message}
use adb_remote.Protocol.Fields.Sequence.{encode, length-encode}
use adb_remote.Protocol.Payload.{PayloadConnectRoom, set_payload_connect_room}
use adb_remote.Protocol.Payload.Stores.{fields_connect_room, set_payload_connect_room-Sets}
use adb_remote.Protocol.Payload.Loads.{get_payload_connect_room-Gets}
use adb_remote.Protocol.Wire.Frames.{framed, wire, after_write}
use adb_remote.Pool.{obtain, contents_of}
use adb_remote.Transporter.Connection.{Connection, read_next_message, send_join_room_request}
use adb_remote.Transporter.Connection.Sending.{AllMessages, obtained, send_typed_lem}
use adb_remote.Transporter.Connection.Reading.{read_next_message_lem}
use adb_remote.Transporter.Rooms.{
  RoomManager, Room, sent, join_room_request, find_room_by_id, dispatch_message_safely,
  dispatch_message, join_room_command,
}
use adb_remote.Transporter.Rooms.Routing.{join_admits}
use adb_remote.Client.Transport.{Client, send_join_room, read_round}
use adb_remote.Client.Transport.Sending.{read_round_lem}
use adb_remote.Client.Controller.Answers.{framed-Holds, send_typed}
use adb_remote.Client.OwnerEvent.{join_requested}
use adb_remote.Client.OwnerController.{
  OwnerSession, dispatch_owner_message, route_message, request_read,
}
use adb_remote.Sharing.{perform}

abbrev pub asking : List ℕ → List ℕ → List ℕ → PayloadConnectRoom
asking room_id id key = record { room_id = room_id; client_id = id; public_key = key }

-- What a request for a room puts on the wire.
request_written :
    (room_id key : List ℕ) (cl : Client)
    → AllMessages cl.pool
    → 12 + (length room_id + length key) ≤ 61440
    → 24 + (length room_id + length key) ≤ cl.writer.room
    → (send_join_room room_id key cl).0.writer
      ≡ after_write 4 (encode [] (fields_connect_room (asking room_id [] key))) cl.writer
unfolding send_join_room
request_written room_id key cl all small room =
    let p = asking room_id [] key in
    let (_, _, wrote) =
      send_typed 4 (set_payload_connect_room p) (fields_connect_room p) cl
        (set_payload_connect_room-Sets p) all (omega arith, (omega arith, (omega arith, tt)))
        (omega arith) (omega arith) in
    rw wrote refl

-- The request that is passed on to the owner.
request_passed_on :
    (room_id id key : List ℕ) (cc : Connection)
    → AllMessages cc.pool
    → 12 + (length room_id + length id + length key) ≤ 61440
    → 24 + (length room_id + length id + length key) ≤ cc.writer.room
    → (send_join_room_request room_id id key cc).0.writer
      ≡ after_write 4 (encode [] (fields_connect_room (asking room_id id key))) cc.writer
unfolding send_join_room_request
request_passed_on room_id id key cc all small room =
    let p = asking room_id id key in
    (send_typed_lem (set_payload_connect_room p) (fields_connect_room p) 4 cc
      (set_payload_connect_room-Sets p) all (omega arith, (omega arith, (omega arith, tt)))
      (omega arith) (omega arith)).1

module _ (fails : ℕ → Bool) (client_id : ℕ → List ℕ) where
  -- A request for a room that is free, and whose owner can be asked.
  asks :
      (guest : ℕ) (p : PayloadConnectRoom) (rest drawn : List ℕ) (rm : RoomManager) (room : Room)
      → 12 + (length p.room_id + length p.client_id + length p.public_key) ≤ 61440
      → find_room_by_id p.room_id rm.rooms ≡ some room
      → room.guest ≡ none
      → fails rm.sends ≡ false
      → (dispatch_message_safely fails client_id guest
          (framed 4 (encode [] (fields_connect_room p)) rest)
          drawn
          rm).trace
        ≡ sent room.owner (join_room_request p.room_id (client_id guest) p.public_key) ∷ rm.trace
  unfolding dispatch_message_safely dispatch_message join_room_command
  asks guest p rest drawn rm room fits found free works =
      let fs = fields_connect_room p in
      let held = framed-Holds 4 (encode [] fs) rest (omega (arith, length-encode [] fs)) in
      rw
        (
          uint32-put 4 (omega arith),
          get_payload_connect_room-Gets p (framed 4 (encode [] fs) rest) held,
          join_room_command,
          join_admits fails client_id guest p.room_id p.public_key rm room found free works,
        )
        refl

-- The owner's session when a request arrives.
asked :
    (fails : ℕ → Bool) (p : PayloadConnectRoom) (rest : List ℕ) (c : ℕ) (s : OwnerSession)
    → 12 + (length p.room_id + length p.client_id + length p.public_key) ≤ 61440
    → contents_of c s.client.pool ≡ ok (framed 4 (encode [] (fields_connect_room p)) rest)
    → let (s', r) = dispatch_owner_message fails c s in
      (r ≡ ok tt)
      × (s'.events ≡ join_requested p.client_id p.public_key ∷ s.events)
      × (s'.requests ≡ (p.client_id, p.public_key) ∷ s.requests)
unfolding dispatch_owner_message route_message request_read
asked fails p rest c s fits opened =
    let fs = fields_connect_room p in
    let held = framed-Holds 4 (encode [] fs) rest (omega (arith, length-encode [] fs)) in
    rw
      (
        dispatch_owner_message,
        opened,
        uint32-put 4 (omega arith),
        get_payload_connect_room-Gets p (framed 4 (encode [] fs) rest) held,
      )
      (refl, refl, refl)

-- A guest that sends its request, the transporter that reads it, the connection to the room's owner, and the
-- owner's reader, each reading what the one before it wrote: if the frames fit, the room is free and
-- the owner can be asked, the owner's session reports one join request, with the id that the transporter keeps
-- for the guest and the guest's key, and hands it to a prompt.
pub request_reaches_owner :
    (fails fails' : ℕ → Bool) (client_id : ℕ → List ℕ) (cl : Client)
    (to_guest to_owner : Connection) (rm : RoomManager) (room : Room) (s : OwnerSession) (guest : ℕ)
    (room_id key drawn : List ℕ)
    → AllMessages cl.pool
    → AllMessages to_guest.pool
    → AllMessages to_owner.pool
    → AllMessages s.client.pool
    → 12 + (length room_id + length (client_id guest) + length key) ≤ 61440
    → 24 + (length room_id + length key) ≤ cl.writer.room
    → 24 + (length room_id + length (client_id guest) + length key) ≤ to_owner.writer.room
    → cl.writer.out ≡ []
    → to_owner.writer.out ≡ []
    → to_guest.input ≡ (send_join_room room_id key cl).0.writer.out
    → find_room_by_id room_id rm.rooms ≡ some room
    → room.guest ≡ none
    → fails rm.sends ≡ false
    → s.client.input
      ≡ (perform (join_room_request room_id (client_id guest) key) to_owner).0.writer.out
    → let request = join_room_request room_id (client_id guest) key in
      (c : ℕ) × (m : TransporterMessage) × (d : ℕ) × ((read_next_message to_guest).1 ≡ ok c)
      × (contents_of c (read_next_message to_guest).0.pool ≡ ok m)
      × ((dispatch_message_safely fails client_id guest m drawn rm).trace
          ≡ sent room.owner request ∷ rm.trace)
      × ((read_round false s.client).1 ≡ ok d)
      × (let (s', r) =
            dispatch_owner_message fails' d (record s { client = (read_round false s.client).0 }) in
          (r ≡ ok tt)
          × (s'.events ≡ join_requested (client_id guest) key ∷ s.events)
          × (s'.requests ≡ (client_id guest, key) ∷ s.requests))
unfolding perform
request_reaches_owner fails fails' client_id cl to_guest to_owner rm room s guest room_id key drawn
      all all' all'' all3 small room1 room2 new new' hears found free works hears' =
    let p = asking room_id [] key in
    let bs = encode [] (fields_connect_room p) in
    let q = asking room_id (client_id guest) key in
    let bs' = encode [] (fields_connect_room q) in
    let heard : to_guest.input ≡ wire 4 bs ++ [] =
      rw
        (hears, request_written room_id key cl all (omega arith) room1, new, append-nil (wire 4 bs))
        refl in
    let fits = length-encode [] (fields_connect_room p) in
    let (e, opened) = read_next_message_lem 4 bs [] to_guest all' heard (omega (arith, fits)) in
    let heard' : s.client.input ≡ wire 4 bs' ++ [] =
      rw
        (
          hears',
          request_passed_on room_id (client_id guest) key to_owner all'' small room2,
          new',
          append-nil (wire 4 bs'),
        )
        refl in
    let fits' = length-encode [] (fields_connect_room q) in
    let (e', opened') = read_round_lem 4 bs' [] s.client all3 heard' (omega (arith, fits')) in
    let c = (obtain create_transporter_message to_guest.pool).1 in
    let d = (obtain create_transporter_message s.client.pool).1 in
    let rest = drop (length bs) (obtained to_guest.pool).payload_buffer in
    let rest' = drop (length bs') (obtained s.client.pool).payload_buffer in
    let after = record s { client = (read_round false s.client).0 } in
    (
      c,
      framed 4 bs rest,
      d,
      ap (λ (x : Connection × Result ℕ). x.1) e,
      ap (λ (x : Connection × Result ℕ). contents_of c x.0.pool) e ∙ opened,
      asks fails client_id guest p rest drawn rm room (omega arith) found free works,
      ap (λ (x : Client × Result ℕ). x.1) e',
      asked fails' q rest' d after small
          (ap (λ (x : Client × Result ℕ). contents_of d x.0.pool) e' ∙ opened'),
    )
