-- ===== src/Transporter/Rooms/Table.antt =====
-- The rooms of roomManager.go, and the searches and stores in the slice that holds them.
use adb_remote.Prelude.{
  ℕ, Bool, true, false, ◌||◌, List, [], ◌∷◌, ◌==◌, if◌then◌else◌, Option, none, some, bytes_eq,
}

pub record Room : Type 0 where
  pub ref : ℕ
  pub room_id : List ℕ
  pub owner : ℕ
  pub guest : Option ℕ

abbrev pub guest_is : ℕ → Option ℕ → Bool
guest_is c none = false
guest_is c (some g) = g == c

abbrev pub is_participant : ℕ → Room → Bool
is_participant c room = room.owner == c || guest_is c room.guest

unfoldable pub find_room_by_id : List ℕ → List Room → Option Room
find_room_by_id id [] = none
find_room_by_id id (r ∷ rs) = if bytes_eq r.room_id id then some r else find_room_by_id id rs

unfoldable pub find_room_by_owner : ℕ → List Room → Option Room
find_room_by_owner c [] = none
find_room_by_owner c (r ∷ rs) = if r.owner == c then some r else find_room_by_owner c rs

unfoldable pub find_room_by_participant : ℕ → List Room → Option Room
find_room_by_participant c [] = none
find_room_by_participant c (r ∷ rs) =
    if is_participant c r then some r else find_room_by_participant c rs

abbrev pub is_some : {A : Type 0} → Option A → Bool
is_some none = false
is_some (some a) = true

-- `targetRoom.guest = g`, through the room's pointer.
unfoldable pub set_guest : ℕ → Option ℕ → List Room → List Room
set_guest ref g [] = []
set_guest ref g (r ∷ rs) =
    if r.ref == ref then record r { guest = g } ∷ rs else r ∷ set_guest ref g rs

unfoldable pub remove_room : ℕ → List Room → List Room
remove_room ref [] = []
remove_room ref (r ∷ rs) = if r.ref == ref then rs else r ∷ remove_room ref rs
