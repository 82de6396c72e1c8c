-- ===== src/Transporter/Rooms/Leaving.antt =====
-- What a disconnection leaves in the rooms.
use adb_remote.Prelude.{
  ℕ, ◌≡◌, refl, ap, ◌∙◌, ◌⊎◌, inl, inr, List, [], ◌∷◌, Bool, true, false, ◌==◌, none, some, arith,
  Bool-cases, Option-cases, ==_iff, subst,
}
use adb_remote.Transporter.Rooms.{
  Room, RoomManager, guest_left, sent, failed, closed, find_room_by_participant, is_participant,
  guest_is, set_guest, remove_room, handle_client_disconnected,
}
use adb_remote.Transporter.Rooms.Invariant.{Inv, Separate, RefAbsent}
use adb_remote.Transporter.Rooms.Occurrence.{
  Occurs, set_guest-Occurs, remove_room-Occurs, find_room_by_participant-Occurs, RefAbsent-differs,
}

-- The client is in no room but the one with this pointer.
abbrev pub OnlyIn : ℕ → ℕ → List Room → Type 0
OnlyIn c ref [] = Unit {0}
OnlyIn c ref (r ∷ rs) = ((is_participant c r ≡ false) ⊎ ((r.ref == ref) ≡ true)) × OnlyIn c ref rs

-- Nobody owns a room with this pointer but clients other than `c`.
abbrev pub NotOwner : ℕ → ℕ → List Room → Type 0
NotOwner c ref [] = Unit {0}
NotOwner c ref (r ∷ rs) = (((r.ref == ref) ≡ false) ⊎ ((r.owner == c) ≡ false)) × NotOwner c ref rs

absent-none :
    (c ref : ℕ) (rs : List Room)
    → RefAbsent ref rs
    → OnlyIn c ref rs
    → find_room_by_participant c rs ≡ none
unfolding find_room_by_participant
absent-none c ref [] a h = refl
absent-none c ref (r ∷ rs) a (inl out, h) = rw out (absent-none c ref rs a.1 h)
absent-none c ref (r ∷ rs) a (inr is, h) = absurd (ground (arith, a.0))

remove_room-forgets :
    (next c ref : ℕ) (rs : List Room)
    → Separate next rs
    → OnlyIn c ref rs
    → find_room_by_participant c (remove_room ref rs) ≡ none
unfolding remove_room find_room_by_participant
remove_room-forgets next c ref [] v h = refl
remove_room-forgets next c ref (r ∷ rs) v h = elim (Bool-cases (r.ref == ref)) [
  | inl same ↦
      let e = (==_iff r.ref ref).0 same in
      rw same (absent-none c ref rs (subst (λ (x : ℕ). RefAbsent x rs) e v.1) h.1)
  | inr other ↦ ground (arith, other, h.0, remove_room-forgets next c ref rs v.3 h.1)
]

set_guest-forgets :
    (next c ref : ℕ) (rs : List Room)
    → Separate next rs
    → OnlyIn c ref rs
    → NotOwner c ref rs
    → find_room_by_participant c (set_guest ref none rs) ≡ none
unfolding set_guest find_room_by_participant
set_guest-forgets next c ref [] v h n = refl
set_guest-forgets next c ref (r ∷ rs) v h n = elim (Bool-cases (r.ref == ref)) [
  | inl same ↦
      let e = (==_iff r.ref ref).0 same in
      let rest = absent-none c ref rs (subst (λ (x : ℕ). RefAbsent x rs) e v.1) h.1 in
      ground (arith, same, n.0, rest)
  | inr other ↦ ground (arith, other, h.0, set_guest-forgets next c ref rs v.3 h.1 n.1)
]

NotOwner-absent : (c ref : ℕ) (rs : List Room) → RefAbsent ref rs → NotOwner c ref rs
NotOwner-absent c ref [] a = tt
NotOwner-absent c ref (r ∷ rs) a = (inl a.0, NotOwner-absent c ref rs a.1)

NotOwner-of :
    (next c : ℕ) (room : Room) (rs : List Room)
    → Separate next rs
    → Occurs room rs
    → (room.owner == c) ≡ false
    → NotOwner c room.ref rs
NotOwner-of next c room [] v o d = tt
NotOwner-of next c room (x ∷ xs) v (inl e) d = (
  inr (ap (λ (r : Room). r.owner == c) e ∙ d),
  NotOwner-absent c room.ref xs (subst (λ (r : Room). RefAbsent r.ref xs) e v.1),
)
NotOwner-of next c room (x ∷ xs) v (inr o) d = (
  inl (ground (arith, RefAbsent-differs x.ref room xs v.1 o)),
  NotOwner-of next c room xs v.3 o d,
)

module _ (fails : ℕ → Bool) (client_id : ℕ → List ℕ) where
  -- A disconnected client is forgotten, if it was in no other room than the one that the search finds.
  pub disconnect_forgets :
      (client : ℕ) (s : RoomManager) (room : Room)
      → Inv s
      → find_room_by_participant client s.rooms ≡ some room
      → OnlyIn client room.ref s.rooms
      → find_room_by_participant client (handle_client_disconnected fails client_id client s).rooms
        ≡ none
  unfolding handle_client_disconnected
  disconnect_forgets client s room v e only =
      let found = find_room_by_participant-Occurs client s.rooms room e in
      rw (e, handle_client_disconnected)
        (elim (Bool-cases (room.owner == client)) [
          | inl owns ↦
              ground (arith, owns, remove_room-forgets s.next_ref client room.ref s.rooms v only)
          | inr other ↦ ground (
            arith,
            other,
            found.1,
            set_guest-forgets s.next_ref client room.ref s.rooms v only
                (NotOwner-of s.next_ref client room s.rooms v found.0 other),
          )
        ])

  -- A client that is in two rooms stays in the second when it disconnects: that room is as it was.
  pub disconnect_leaves_stale :
      (client : ℕ) (s : RoomManager) (room stale : Room)
      → find_room_by_participant client s.rooms ≡ some room
      → Occurs stale s.rooms
      → is_participant client stale ≡ true
      → (stale.ref == room.ref) ≡ false
      → Occurs stale (handle_client_disconnected fails client_id client s).rooms
  unfolding handle_client_disconnected
  disconnect_leaves_stale client s room stale e o is apart =
      rw (e, handle_client_disconnected)
        (ground (
          arith,
          o,
          set_guest-Occurs stale room.ref none s.rooms apart o,
          remove_room-Occurs stale room.ref s.rooms apart o,
        ))

  -- When the owner of a room disconnects, the room is taken out of the table, and the owner's and the
  -- guest's connections are closed. Nobody is sent anything.
  pub owner_disconnects :
      (client : ℕ) (s : RoomManager) (room : Room)
      → find_room_by_participant client s.rooms ≡ some room
      → room.owner ≡ client
      → let s' = handle_client_disconnected fails client_id client s in
        (s'.rooms ≡ remove_room room.ref s.rooms)
        × (((room.guest ≡ none) × (s'.trace ≡ closed client ∷ s.trace))
            ⊎ ((guest : ℕ) × (room.guest ≡ some guest)
                × (s'.trace ≡ closed guest ∷ closed client ∷ s.trace)))
  unfolding handle_client_disconnected
  owner_disconnects client s room e owns =
      let is : (room.owner == client) ≡ true = ground arith in
      elim (Option-cases room.guest) [
        | inl alone ↦
            rw (e, handle_client_disconnected, is)
              (ground (arith, alone), inl (alone, ground (arith, alone)))
        | inr (guest, g) ↦
            rw (e, handle_client_disconnected, is)
              (ground (arith, g), inr (guest, g, ground (arith, g)))
      ]

  -- When a guest disconnects, its place in the room becomes free, and the owner is told.
  pub guest_disconnects :
      (client : ℕ) (s : RoomManager) (room : Room)
      → find_room_by_participant client s.rooms ≡ some room
      → (room.owner == client) ≡ false
      → let s' = handle_client_disconnected fails client_id client s in
        (s'.rooms ≡ set_guest room.ref none s.rooms)
        × ((s'.trace ≡ sent room.owner guest_left ∷ closed client ∷ s.trace)
            ⊎ (s'.trace ≡ failed room.owner guest_left ∷ closed client ∷ s.trace))
  unfolding handle_client_disconnected
  guest_disconnects client s room e other =
      let found = (find_room_by_participant-Occurs client s.rooms room e).1 in
      let is : guest_is client room.guest ≡ true = ground (arith, found) in
      rw (e, handle_client_disconnected, other, is) (ground arith, ground arith)
