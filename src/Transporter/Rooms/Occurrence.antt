-- ===== src/Transporter/Rooms/Occurrence.antt =====
-- Which rooms stand in the table after a store or a removal.
use adb_remote.Prelude.{
  ℕ, ◌≡◌, sym, ap, ◌∙◌, ◌⊎◌, inl, inr, List, [], ◌∷◌, ◌++◌, true, false, ◌==◌, Option, none, some,
  arith, Bool-cases, ==_iff, bytes_eq,
}
use adb_remote.Transporter.Rooms.{
  Room, find_room_by_id, find_room_by_owner, find_room_by_participant, is_participant, set_guest,
  remove_room,
}
use adb_remote.Transporter.Rooms.Invariant.{Separate, RefAbsent}

abbrev pub Occurs : Room → List Room → Type 0
Occurs r [] = ⊥
Occurs r (x ∷ xs) = (x ≡ r) ⊎ Occurs r xs

pub find_room_by_id-Occurs :
    (id : List ℕ) (rs : List Room) (r : Room) → find_room_by_id id rs ≡ some r → Occurs r rs
unfolding find_room_by_id
find_room_by_id-Occurs id [] r h = cc
find_room_by_id-Occurs id (x ∷ xs) r h = elim (Bool-cases (bytes_eq x.room_id id)) [
  | inl same ↦ inl (ground arith)
  | inr other ↦ inr (find_room_by_id-Occurs id xs r (ground arith))
]

pub find_room_by_owner-Occurs :
    (c : ℕ) (rs : List Room) (r : Room)
    → find_room_by_owner c rs ≡ some r
    → Occurs r rs × (r.owner ≡ c)
unfolding find_room_by_owner
find_room_by_owner-Occurs c [] r h = cc
find_room_by_owner-Occurs c (x ∷ xs) r h = elim (Bool-cases (x.owner == c)) [
  | inl same ↦
      let e : x ≡ r = ground arith in
      (inl e, sym (ap (λ (y : Room). y.owner) e) ∙ (==_iff x.owner c).0 same)
  | inr other ↦ let rest = find_room_by_owner-Occurs c xs r (ground arith) in (inr rest.0, rest.1)
]

pub find_room_by_participant-Occurs :
    (c : ℕ) (rs : List Room) (r : Room)
    → find_room_by_participant c rs ≡ some r
    → Occurs r rs × (is_participant c r ≡ true)
unfolding find_room_by_participant
find_room_by_participant-Occurs c [] r h = cc
find_room_by_participant-Occurs c (x ∷ xs) r h = elim (Bool-cases (is_participant c x)) [
  | inl same ↦ let e : x ≡ r = ground arith in (inl e, ap (is_participant c) (sym e) ∙ same)
  | inr other ↦
      let rest = find_room_by_participant-Occurs c xs r (ground arith) in (inr rest.0, rest.1)
]

pub set_guest-Occurs :
    (r : Room) (ref : ℕ) (g : Option ℕ) (rs : List Room)
    → (r.ref == ref) ≡ false
    → Occurs r rs
    → Occurs r (set_guest ref g rs)
unfolding set_guest
set_guest-Occurs r ref g [] d o = o
set_guest-Occurs r ref g (x ∷ xs) d (inl e) = rw (ap (λ (y : Room). y.ref == ref) e ∙ d) (inl e)
set_guest-Occurs r ref g (x ∷ xs) d (inr o) = elim (Bool-cases (x.ref == ref)) [
  | inl same ↦ rw same (inr o)
  | inr other ↦ rw other (inr (set_guest-Occurs r ref g xs d o))
]

pub remove_room-Occurs :
    (r : Room) (ref : ℕ) (rs : List Room)
    → (r.ref == ref) ≡ false
    → Occurs r rs
    → Occurs r (remove_room ref rs)
unfolding remove_room
remove_room-Occurs r ref [] d o = o
remove_room-Occurs r ref (x ∷ xs) d (inl e) = rw (ap (λ (y : Room). y.ref == ref) e ∙ d) (inl e)
remove_room-Occurs r ref (x ∷ xs) d (inr o) = elim (Bool-cases (x.ref == ref)) [
  | inl same ↦ rw same o
  | inr other ↦ rw other (inr (remove_room-Occurs r ref xs d o))
]

pub append-Occurs : (r x : Room) (rs : List Room) → Occurs r rs → Occurs r (rs ++ x ∷ [])
append-Occurs r x [] o = absurd o
append-Occurs r x (y ∷ ys) (inl e) = inl e
append-Occurs r x (y ∷ ys) (inr o) = inr (append-Occurs r x ys o)

pub RefAbsent-differs :
    (x : ℕ) (r : Room) (rs : List Room) → RefAbsent x rs → Occurs r rs → (r.ref == x) ≡ false
RefAbsent-differs x r [] a o = absurd o
RefAbsent-differs x r (y ∷ ys) a (inl e) = ap (λ (z : Room). z.ref == x) (sym e) ∙ a.0
RefAbsent-differs x r (y ∷ ys) a (inr o) = RefAbsent-differs x r ys a.1 o

-- Rooms of the table that have one pointer are one room.
pub same_room :
    (next : ℕ) (r q : Room) (rs : List Room)
    → Separate next rs
    → Occurs r rs
    → Occurs q rs
    → (r ≡ q) ⊎ ((r.ref == q.ref) ≡ false)
same_room next r q [] v o p = absurd o
same_room next r q (x ∷ xs) v (inl e) (inl f) = inl (sym e ∙ f)
same_room next r q (x ∷ xs) v (inl e) (inr p) =
    let apart = RefAbsent-differs x.ref q xs v.1 p in
    let refs = ap (λ (z : Room). z.ref) e in inr (ground (arith, apart, refs))
same_room next r q (x ∷ xs) v (inr o) (inl f) =
    let apart = RefAbsent-differs x.ref r xs v.1 o in
    let refs = ap (λ (z : Room). z.ref) f in inr (ground (arith, apart, refs))
same_room next r q (x ∷ xs) v (inr o) (inr p) = same_room next r q xs v.3 o p

pub find_room_by_participant-none :
    (c : ℕ) (rs : List Room) (r : Room)
    → find_room_by_participant c rs ≡ none
    → Occurs r rs
    → is_participant c r ≡ false
unfolding find_room_by_participant
find_room_by_participant-none c [] r h o = absurd o
find_room_by_participant-none c (x ∷ xs) r h o = elim (Bool-cases (is_participant c x)) [
  | inl same ↦ ground arith
  | inr other ↦ elim o [
    | inl e ↦ ap (is_participant c) (sym e) ∙ other
    | inr later ↦ find_room_by_participant-none c xs r (ground arith) later
  ]
]
