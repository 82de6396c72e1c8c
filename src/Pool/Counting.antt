-- ===== src/Pool/Counting.antt =====
-- How often a container is disposed before it goes back to the pool.
use adb_remote.Prelude.{
  ℕ, zero, suc, ◌+◌, ◌≤◌, ◌<◌, ◌≡◌, refl, ◌∷◌, ok, err, arith, already_disposed, ==_refl, length,
  true, false, ◌∙◌, ap, subst, sym, Result,
}
use adb_remote.Pool.{Container, ObjectPool, is_disposed, update_counter, dispose, update}

module _ {ℓ} {T : Type ℓ} where
  -- `n` calls of `Dispose`, whatever they return.
  abbrev pub dispose_times : ℕ → ℕ → ObjectPool T → ObjectPool T
  dispose_times zero r p = p
  dispose_times (suc n) r p = dispose_times n r (dispose r p).0

  dispose_early :
      (r : ℕ) (p : ObjectPool T)
      → (p.store r).current + 1 < (p.store r).target
      → (p.store r).target < 4294967296
      → dispose r p ≡ (
        record p {
          store = update p.store r (record (p.store r) { current = (p.store r).current + 1 });
        },
        ok tt,
      )
  unfolding dispose
  dispose_early r p h w = ground arith

  dispose_last :
      (r : ℕ) (p : ObjectPool T)
      → (p.store r).current + 1 ≡ (p.store r).target
      → (p.store r).target < 4294967296
      → length p.free < 100
      → ((dispose r p).0.free ≡ r ∷ p.free) × (is_disposed ((dispose r p).0.store r) ≡ true)
  unfolding dispose
  dispose_last r p h w room = (ground arith, ground (arith, ==_refl r))

  pub dispose_twice :
      (r : ℕ) (p : ObjectPool T)
      → is_disposed (p.store r) ≡ true
      → dispose r p ≡ (p, err already_disposed)
  unfolding dispose
  dispose_twice r p h = rw h

  -- `k` calls later: the container has counted them, and the free list is untouched.
  abbrev pub Counted : ℕ → ℕ → ObjectPool T → ObjectPool T → Type 0
  Counted k r p q =
      (q.free ≡ p.free)
      × ((q.store r).current ≡ (p.store r).current + k)
      × ((q.store r).target ≡ (p.store r).target)

  countdown :
      (k : ℕ) (r : ℕ) (p : ObjectPool T)
      → (p.store r).current + k < (p.store r).target
      → (p.store r).target < 4294967296
      → Counted k r p (dispose_times k r p)
  countdown zero r p h w = (refl, omega arith, refl)
  countdown (suc k) r p h w =
      let c = record (p.store r) { current = (p.store r).current + 1 } in
      let q = record p { store = update p.store r c } in
      let self : update p.store r c r ≡ c = rw (==_refl r) in
      let counts : (update p.store r c r).current ≡ (p.store r).current + 1 =
        ap (λ (x : Container T). x.current) self in
      let aims : (update p.store r c r).target ≡ (p.store r).target =
        ap (λ (x : Container T). x.target) self in
      let rest = countdown k r q (omega (arith, counts, aims)) (omega (arith, aims)) in
      subst (λ (x : ObjectPool T × Result (Unit {0})). Counted (suc k) r p (dispose_times k r x.0))
        (sym (dispose_early r p (omega arith) w))
        (rest.0, omega (arith, rest.1, counts), rest.2 ∙ aims)

  dispose_times-suc :
      (k r : ℕ) (p : ObjectPool T) → dispose_times (suc k) r p ≡ (dispose r (dispose_times k r p)).0
  dispose_times-suc zero r p = refl
  dispose_times-suc (suc k) r p = dispose_times-suc k r (dispose r p).0

  -- After `UpdateCounter(n + 1)` on a container that nobody has disposed yet, `Dispose` can be called
  -- `n` times with the container still in use and out of the free list. One more call puts it there,
  -- once, and every later one is refused and changes nothing.
  pub dispose_exactly :
      (n r : ℕ) (p : ObjectPool T)
      → (p.store r).current ≡ 0
      → (p.store r).target ≡ 1
      → n + 1 < 4294967296
      → length p.free < 100
      → let q = (update_counter r (n + 1) p).0 in
        ((k : ℕ)
          → k ≤ n
          → ((dispose_times k r q).free ≡ p.free)
            × (is_disposed ((dispose_times k r q).store r) ≡ false))
        × ((dispose_times (suc n) r q).free ≡ r ∷ p.free)
        × (dispose r (dispose_times (suc n) r q)
            ≡ (dispose_times (suc n) r q, err already_disposed))
  dispose_exactly n r p zero_count one_target w room =
      let c = record (p.store r) { target = n + 1 } in
      let q = record p { store = update p.store r c } in
      let self : update p.store r c r ≡ c = rw (==_refl r) in
      let counts : (update p.store r c r).current ≡ 0 =
        ap (λ (x : Container T). x.current) self ∙ zero_count in
      let aims : (update p.store r c r).target ≡ n + 1 = ap (λ (x : Container T). x.target) self in
      let updated : (update_counter r (n + 1) p).0 ≡ q = unfold update_counter in (ground arith) in
      let early : (k : ℕ) → k ≤ n → Counted k r q (dispose_times k r q) =
        λ k h. countdown k r q (omega (arith, counts, aims)) (omega (arith, aims)) in
      let before = dispose_times n r q in
      let at_end = early n (omega arith) in
      let last =
        dispose_last r before (omega (arith, at_end.1, at_end.2, counts, aims))
          (omega (arith, at_end.2, aims)) (rw at_end.0 room) in
      rw (updated, dispose_times-suc n r q)
        (
          λ k h. let e = early k h in (e.0, ground (arith, e.1, e.2, counts, aims)),
          last.0 ∙ ap (◌∷◌ r) at_end.0,
          dispose_twice r (dispose r before).0 last.1,
        )
