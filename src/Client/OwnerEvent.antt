-- ===== src/Client/OwnerEvent.antt =====
-- client/controller/events.go: what the owner's session reports.
use adb_remote.Prelude.{ℕ, Bool, List, Error}

pub data OwnerEvent : Type 0 where
  room_created : List ℕ → OwnerEvent
  join_requested : List ℕ → List ℕ → OwnerEvent
  join_decided : List ℕ → List ℕ → Bool → OwnerEvent
  join_failed : List ℕ → Error → OwnerEvent
  guest_left : OwnerEvent
