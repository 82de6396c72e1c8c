-- ===== src/Transporter/Rooms/Routing.antt =====
-- Where ADB traffic goes, and how a guest gets into a room.
use adb_remote.Prelude.{
  ℕ, ◌+◌, ◌≡◌, refl, sym, subst, ◌⊎◌, inl, inr, ◌≢◌, List, [], ◌∷◌, Bool, false, ◌==◌,
  if◌then◌else◌, none, some, arith, Bool-cases, ==_refl, bytes_eq, ascii, ◌++◌,
}
use adb_remote.Protocol.Constants.{command_join_room, error_room_not_found, error_full}
use adb_remote.Protocol.Message.{TransporterMessage}
use adb_remote.Transporter.Rooms.{
  Room, RoomManager, Outgoing, forwarded, join_room_request, error_response, Effect, sent, failed,
  closed, find_room_by_id, find_room_by_participant, is_participant, set_guest, handle_join_room,
  handle_adb_transport,
}
use adb_remote.Transporter.Rooms.Invariant.{Inv, Separate}
use adb_remote.Transporter.Rooms.Occurrence.{
  Occurs, find_room_by_participant-none, find_room_by_id-Occurs, RefAbsent-differs,
}

module _ (fails : ℕ → Bool) (client_id : ℕ → List ℕ) where
  -- What became of a send.
  abbrev pub outcome : RoomManager → ℕ → Outgoing → Effect
  outcome s c o = if fails s.sends then failed c o else sent c o

  -- The two seats of a room, the owner's and the guest's: the sender sits in one, the target in the other.
  abbrev pub Opposite : ℕ → ℕ → Room → Type 0
  Opposite sender target room =
      ((room.owner ≡ sender) × (room.guest ≡ some target))
      ⊎ ((room.owner ≢ sender) × (room.guest ≡ some sender) × (room.owner ≡ target))

  -- The sender is in no room, or alone in the one that it owns.
  abbrev pub HasNoPeer : ℕ → List Room → Type 0
  HasNoPeer sender rooms =
      ((room : Room) → Occurs room rooms → is_participant sender room ≡ false)
      ⊎ ((room : Room) × Occurs room rooms × (room.owner ≡ sender) × (room.guest ≡ none))

  -- A room that nobody has joined admits the sender at once, and its owner is asked.
  pub join_admits :
      (sender : ℕ) (room_id key : List ℕ) (s : RoomManager) (room : Room)
      → find_room_by_id room_id s.rooms ≡ some room
      → room.guest ≡ none
      → fails s.sends ≡ false
      → handle_join_room fails client_id sender room_id key s ≡ record {
        rooms = set_guest room.ref (some sender) s.rooms;
        next_ref = s.next_ref;
        sends = s.sends + 1;
        trace = sent room.owner (join_room_request room_id (client_id sender) key) ∷ s.trace;
      }
  unfolding handle_join_room
  join_admits sender room_id key s room e free works =
      rw (e, handle_join_room, free) (ground (arith, works))

  -- A request for an unknown room or a full one is answered with an error to its sender, whose
  -- connection is closed if even that fails. The rooms are as they were.
  pub join_refused :
      (sender : ℕ) (room_id key : List ℕ) (s : RoomManager)
      → (find_room_by_id room_id s.rooms ≡ none)
        ⊎ ((room : Room) × (guest : ℕ) × (find_room_by_id room_id s.rooms ≡ some room)
            × (room.guest ≡ some guest))
      → let s' = handle_join_room fails client_id sender room_id key s in
        (code : ℕ) × (text : List ℕ) × (s'.rooms ≡ s.rooms)
        × (((find_room_by_id room_id s.rooms ≡ none) × (code ≡ error_room_not_found))
            ⊎ ((find_room_by_id room_id s.rooms ≢ none) × (code ≡ error_full)))
        × ((s'.trace ≡ sent sender (error_response command_join_room code text) ∷ s.trace)
            ⊎ (s'.trace
                ≡ closed sender
                  ∷ failed sender (error_response command_join_room code text)
                  ∷ s.trace))
  unfolding handle_join_room
  join_refused sender room_id key s (inl e) = (
    error_room_not_found,
    ascii "Room not found with this id: " ++ room_id,
    rw (e, handle_join_room) (ground arith),
    inl (e, refl),
    rw (e, handle_join_room) (ground arith),
  )
  join_refused sender room_id key s (inr (room, guest, e, full)) = (
    error_full,
    ascii "This room already has a guest; only one guest is allowed per room",
    rw (e, handle_join_room, full) (ground arith),
    inr (λ p. cc, refl),
    rw (e, handle_join_room, full) (ground arith),
  )

  participant-set_guest :
      (next sender : ℕ) (room_id : List ℕ) (rs : List Room) (room : Room)
      → Separate next rs
      → find_room_by_id room_id rs ≡ some room
      → find_room_by_participant sender rs ≡ none
      → find_room_by_participant sender (set_guest room.ref (some sender) rs)
        ≡ some (record room { guest = some sender })
  unfolding find_room_by_id find_room_by_participant set_guest
  participant-set_guest next sender room_id [] room v e n = cc
  participant-set_guest next sender room_id (x ∷ xs) room v e n =
      elim (Bool-cases (bytes_eq x.room_id room_id)) [
        | inl same ↦ ground (arith, ==_refl x.ref, ==_refl sender)
        | inr other ↦
            let found : find_room_by_id room_id xs ≡ some room = ground arith in
            let distinct =
              RefAbsent-differs x.ref room xs v.1 (find_room_by_id-Occurs room_id xs room found) in
            let apart : (x.ref == room.ref) ≡ false = ground (arith, distinct) in
            ground (arith, apart, participant-set_guest next sender room_id xs room v.3 found)
      ]

  -- A client in no room that joins a free one can make the transporter write to the owner at once:
  -- with no answer from the owner in between, its ADB messages are forwarded.
  pub relayed_before_accepted :
      (sender : ℕ) (room_id key : List ℕ) (m : TransporterMessage) (s : RoomManager) (room : Room)
      → Inv s
      → find_room_by_id room_id s.rooms ≡ some room
      → room.guest ≡ none
      → find_room_by_participant sender s.rooms ≡ none
      → fails s.sends ≡ false
      → fails (s.sends + 1) ≡ false
      → (handle_adb_transport fails client_id sender m
          (handle_join_room fails client_id sender room_id key s)).trace
        ≡ sent room.owner (forwarded m)
          ∷ sent room.owner (join_room_request room_id (client_id sender) key)
          ∷ s.trace
  unfolding handle_adb_transport
  relayed_before_accepted sender room_id key m s room v e free outside works works' =
      let apart : (room.owner == sender) ≡ false = ground (
        arith,
        find_room_by_participant-none sender s.rooms room outside
            (find_room_by_id-Occurs room_id s.rooms room e),
      ) in
      let request = sent room.owner (join_room_request room_id (client_id sender) key) in
      subst
        (λ (t : RoomManager).
          (handle_adb_transport fails client_id sender m t).trace
          ≡ sent room.owner (forwarded m) ∷ request ∷ s.trace)
        (sym (join_admits sender room_id key s room e free works))
        (rw (
          handle_adb_transport,
          participant-set_guest s.next_ref sender room_id s.rooms room v e outside,
          apart,
          works',
        ))
