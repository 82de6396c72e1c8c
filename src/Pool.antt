-- ===== src/Pool.antt =====
-- shared/utils/objectPool.go. Containers are shared by pointer, so they stand in a store under
-- references; `free` is `container[0:length]` with the last one first. Each method holds the mutex
-- for its whole body, so it is one step. `factory` gives a new object.
pub mod Invariant
pub mod Counting
use adb_remote.Prelude.{
  ℕ, ◌+◌, ◌≤◌, ◌<◌, ◌≡◌, Bool, true, false, List, [], ◌∷◌, ltb, leb, ◌==◌, if◌then◌else◌, length,
  Option, none, some, Error, already_disposed, Result, ok, err, M, u32,
}

abbrev pub pool_size_max : ℕ
pool_size_max = 100

pub record Container {ℓ} (T : Type ℓ) : Type ℓ where
  pub contents : T
  pub current : ℕ
  pub target : ℕ

pub record ObjectPool {ℓ} (T : Type ℓ) : Type ℓ where
  pub free : List ℕ
  pub next_ref : ℕ
  pub store : ℕ → Container T

module _ {ℓ} {T : Type ℓ} where
  abbrev pub update : (ℕ → Container T) → ℕ → Container T → ℕ → Container T
  update f r c q = if q == r then c else f q

  unfoldable pub new_disposable_object_container : T → Container T
  new_disposable_object_container x = record { contents = x; current = 0; target = 1 }

  unfoldable pub reset : Container T → Container T
  reset c = record c { current = 0; target = 1 }

  abbrev pub is_disposed : Container T → Bool
  is_disposed c = leb c.target c.current

  unfoldable pub obtain : T → ObjectPool T → ObjectPool T × ℕ
  unfolding new_disposable_object_container reset
  obtain fresh p = elim p.free [
    | [] ↦ (
      record p {
        next_ref = p.next_ref + 1;
        store = update p.store p.next_ref (new_disposable_object_container fresh);
      },
      p.next_ref,
    )
    | r ∷ rest ↦ (record p { free = rest; store = update p.store r (reset (p.store r)) }, r)
  ]

  unfoldable pub release : ℕ → ObjectPool T → ObjectPool T × Bool
  release r p =
      if leb pool_size_max (length p.free)
      then (p, false)
      else (record p { free = r ∷ p.free }, true)

  unfoldable pub contents_of : ℕ → ObjectPool T → Result T
  contents_of r p =
      if is_disposed (p.store r) then err already_disposed else ok (p.store r).contents

  unfoldable pub update_counter : ℕ → ℕ → ObjectPool T → ObjectPool T × Result (Unit {0})
  update_counter r target p =
      if is_disposed (p.store r)
      then (p, err already_disposed)
      else (record p { store = update p.store r (record (p.store r) { target = target }) }, ok tt)

  unfoldable pub dispose : ℕ → ObjectPool T → ObjectPool T × Result (Unit {0})
  unfolding release
  dispose r p =
      let c = record (p.store r) { current = u32 ((p.store r).current + 1) } in
      let p' = record p { store = update p.store r c } in
      if is_disposed (p.store r)
      then (p, err already_disposed)
      else if is_disposed c
      then ((release r p').0, ok tt)
      else (p', ok tt)

  unfoldable pub new_object_pool : (ℕ → Container T) → ObjectPool T
  new_object_pool store = record { free = []; next_ref = 0; store = store }

-- One call on the pool or on a container.
pub data Call {ℓ} (T : Type ℓ) : Type ℓ where
  obtains : T → Call T
  disposes : ℕ → Call T
  updates : ℕ → ℕ → Call T

module _ {ℓ} {T : Type ℓ} where
  unfoldable pub step : Call T → ObjectPool T → ObjectPool T
  step (obtains fresh) p = (obtain fresh p).0
  step (disposes r) p = (dispose r p).0
  step (updates r n) p = (update_counter r n p).0

  unfoldable pub run : List (Call T) → ObjectPool T → ObjectPool T
  run [] p = p
  run (c ∷ cs) p = run cs (step c p)
