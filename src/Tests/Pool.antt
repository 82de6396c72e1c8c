-- ===== src/Tests/Pool.antt =====
-- The object pool at small stores.
use adb_remote.Prelude.{ℕ, ◌≡◌, refl, List, [], ◌∷◌, ok, arith, true, false, ◌⊎◌, ◌==◌}
use adb_remote.Pool.{
  Container, ObjectPool, Call, obtains, disposes, updates, new_object_pool, obtain, run, dispose,
  update_counter, contents_of, is_disposed, step,
}
use adb_remote.Pool.Invariant.{Inv, Absent, run-new-Inv, obtain_exclusive}

abbrev store : ℕ → Container ℕ
store r = record { contents = 5; current = 0; target = 1 }

abbrev calls : List (Call ℕ)
calls = obtains 7 ∷ updates 0 2 ∷ disposes 0 ∷ disposes 0 ∷ disposes 0 ∷ obtains 8 ∷ []

run-new-Inv_example : Inv (run calls (new_object_pool store))
unfolding step new_object_pool obtain dispose update_counter
run-new-Inv_example =
    run-new-Inv store calls
      (tt, (omega arith, (omega arith, (omega arith, (omega arith, (tt, tt))))))

-- One container in the free list, disposed once of one.
abbrev one_free : ObjectPool ℕ
one_free = record {
  free = 3 ∷ [];
  next_ref = 4;
  store = λ r. record { contents = 5; current = 1; target = 1 };
}

one_free-Inv : Inv one_free
one_free-Inv = record { pooled = (omega arith, refl, tt, tt); bounded = omega arith }

obtain_exclusive_example :
    let (q, r) = obtain 9 one_free in
    ((x : ℕ) × (contents_of r q ≡ ok x))
    × Absent r q.free
    × ((r ≡ one_free.next_ref) ⊎ (is_disposed (one_free.store r) ≡ true))
    × ((o : ℕ) → (o == r) ≡ false → q.store o ≡ one_free.store o)
obtain_exclusive_example = obtain_exclusive 9 one_free one_free-Inv

abbrev in_use : ObjectPool ℕ
in_use = record { free = []; next_ref = 1; store = store }
