-- ===== src/Pool/Invariant.antt =====
-- The free list of the pool: no container is in it twice, none that is in use, and at most 100.
use adb_remote.Prelude.{
  ℕ, ◌+◌, ◌≤◌, ◌<◌, ◌≡◌, refl, List, [], ◌∷◌, true, false, leb, ◌==◌, length, ok, arith, Bool-cases,
  ◌⊎◌, inl, inr, ==_refl, u32,
}
use adb_remote.Pool.{
  Container, ObjectPool, Call, obtains, disposes, updates, update, is_disposed, obtain, contents_of,
  update_counter, dispose, new_object_pool, step, run,
}

-- `r` is not in the list.
abbrev pub Absent : ℕ → List ℕ → Type 0
Absent r [] = Unit {0}
Absent r (x ∷ xs) = ((x == r) ≡ false) × Absent r xs

module _ {ℓ} {T : Type ℓ} where
  -- Each container of the list has been allocated and is disposed, and none occurs twice.
  abbrev pub Pooled : ℕ → (ℕ → Container T) → List ℕ → Type 0
  Pooled next f [] = Unit {0}
  Pooled next f (r ∷ rs) = (r < next) × (is_disposed (f r) ≡ true) × Absent r rs × Pooled next f rs

  pub record Inv (p : ObjectPool T) : Type ℓ where
    pub pooled : Pooled p.next_ref p.store p.free
    pub bounded : length p.free ≤ 100

  -- A store outside the list keeps it pooled.
  Pooled-update :
      (next : ℕ) (f : ℕ → Container T) (r : ℕ) (c : Container T) (rs : List ℕ)
      → Absent r rs
      → Pooled next f rs
      → Pooled next (update f r c) rs
  Pooled-update next f r c [] a v = tt
  Pooled-update next f r c (x ∷ xs) a v =
      (v.0, ground arith, v.2, Pooled-update next f r c xs a.1 v.3)

  -- A container in use, or not yet allocated, is not in the list.
  live-Absent :
      (next : ℕ) (f : ℕ → Container T) (r : ℕ) (rs : List ℕ)
      → Pooled next f rs
      → is_disposed (f r) ≡ false
      → Absent r rs
  live-Absent next f r [] v d = tt
  live-Absent next f r (x ∷ xs) v d = (ground arith, live-Absent next f r xs v.3 d)

  fresh-Absent : (next : ℕ) (f : ℕ → Container T) (rs : List ℕ) → Pooled next f rs → Absent next rs
  fresh-Absent next f [] v = tt
  fresh-Absent next f (x ∷ xs) v = (ground arith, fresh-Absent next f xs v.3)

  Pooled-grow :
      (next : ℕ) (f : ℕ → Container T) (rs : List ℕ) → Pooled next f rs → Pooled (next + 1) f rs
  Pooled-grow next f [] v = tt
  Pooled-grow next f (x ∷ xs) v = (omega arith, v.1, v.2, Pooled-grow next f xs v.3)

  -- An operation on a container that its caller may name.
  abbrev pub Allocated : ObjectPool T → Call T → Type 0
  Allocated p (obtains x) = Unit {0}
  Allocated p (disposes r) = r < p.next_ref
  Allocated p (updates r n) = r < p.next_ref

  obtain-Inv : (fresh : T) (p : ObjectPool T) → Inv p → Inv (obtain fresh p).0
  unfolding obtain
  obtain-Inv fresh p v = go p.free v.pooled v.bounded
    where
      go :
          (l : List ℕ)
          → Pooled p.next_ref p.store l
          → length l ≤ 100
          → Inv (obtain fresh (record p { free = l })).0
      go [] w b = record { pooled = tt; bounded = omega arith }
      go (r ∷ rs) w b = record {
        pooled = Pooled-update p.next_ref p.store r _ rs w.2 w.3;
        bounded = omega arith;
      }

  update_counter-Inv : (r n : ℕ) (p : ObjectPool T) → Inv p → Inv (update_counter r n p).0
  unfolding update_counter
  update_counter-Inv r n p v = elim (Bool-cases (is_disposed (p.store r))) [
    | inl gone ↦ rw gone v
    | inr live ↦ rw live (record {
      pooled =
          Pooled-update p.next_ref p.store r _ p.free
            (live-Absent p.next_ref p.store r p.free v.pooled live) v.pooled;
      bounded = v.bounded;
    })
  ]

  dispose-Inv : (r : ℕ) (p : ObjectPool T) → r < p.next_ref → Inv p → Inv (dispose r p).0
  unfolding dispose
  dispose-Inv r p a v = elim (Bool-cases (is_disposed (p.store r))) [
    | inl gone ↦ rw gone v
    | inr live ↦
        let c = record (p.store r) { current = u32 ((p.store r).current + 1) } in
        let away = live-Absent p.next_ref p.store r p.free v.pooled live in
        let kept = Pooled-update p.next_ref p.store r c p.free away v.pooled in
        rw live (elim (Bool-cases (is_disposed c)) [
          | inr used ↦ rw used (record { pooled = kept; bounded = v.bounded })
          | inl last ↦ rw last (elim (Bool-cases (leb 100 (length p.free))) [
            | inl full ↦ rw full (record { pooled = kept; bounded = v.bounded })
            | inr room ↦ rw room (record {
              pooled = (a, ground (arith, ==_refl r), away, kept);
              bounded = ground arith;
            })
          ])
        ])
  ]

  pub step-Inv : (c : Call T) (p : ObjectPool T) → Allocated p c → Inv p → Inv (step c p)
  unfolding step
  step-Inv (obtains fresh) p a v = obtain-Inv fresh p v
  step-Inv (disposes r) p a v = dispose-Inv r p a v
  step-Inv (updates r n) p a v = update_counter-Inv r n p v

  abbrev pub AllAllocated : ObjectPool T → List (Call T) → Type 0
  AllAllocated p [] = Unit {0}
  AllAllocated p (c ∷ cs) = Allocated p c × AllAllocated (step c p) cs

  run-Inv : (cs : List (Call T)) (p : ObjectPool T) → AllAllocated p cs → Inv p → Inv (run cs p)
  unfolding run
  run-Inv [] p a v = v
  run-Inv (c ∷ cs) p a v = run-Inv cs (step c p) a.1 (step-Inv c p a.0 v)

  -- After any calls by the holders of containers, the free list holds at most 100 containers, all of
  -- them disposed and no one twice.
  pub run-new-Inv :
      (f : ℕ → Container T) (cs : List (Call T))
      → AllAllocated (new_object_pool f) cs
      → Inv (run cs (new_object_pool f))
  unfolding new_object_pool
  run-new-Inv f cs a =
      run-Inv cs (new_object_pool f) a (record { pooled = tt; bounded = omega arith })

  -- What `Obtain` hands out can be used at once, is out of the free list, and was in use by nobody:
  -- it is new, or it had been disposed. Every other container is as it was.
  pub obtain_exclusive :
      (fresh : T) (p : ObjectPool T)
      → Inv p
      → let (q, r) = obtain fresh p in
        ((x : T) × (contents_of r q ≡ ok x))
        × Absent r q.free
        × ((r ≡ p.next_ref) ⊎ (is_disposed (p.store r) ≡ true))
        × ((o : ℕ) → (o == r) ≡ false → q.store o ≡ p.store o)
  unfolding obtain contents_of
  obtain_exclusive fresh p v = go p.free v.pooled
    where
      go :
          (l : List ℕ)
          → Pooled p.next_ref p.store l
          → let (q, r) = obtain fresh (record p { free = l }) in
            ((x : T) × (contents_of r q ≡ ok x))
            × Absent r q.free
            × ((r ≡ p.next_ref) ⊎ (is_disposed (p.store r) ≡ true))
            × ((o : ℕ) → (o == r) ≡ false → q.store o ≡ p.store o)
      go [] w = ((fresh, rw (==_refl p.next_ref)), tt, inl refl, λ o e. rw e)
      go (r ∷ rs) w = (((p.store r).contents, rw (==_refl r)), w.2, inr w.1, λ o e. rw e)
