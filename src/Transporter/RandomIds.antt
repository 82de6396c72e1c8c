-- ===== src/Transporter/RandomIds.antt =====
-- transporter/utils: the ids of clients and rooms. `random_intn i n` is what the i-th call of `randomIntn(n)`
-- draws from crypto/rand.
use Prim.Native.Nat.{zero, suc}
use adb_remote.Prelude.{ℕ, ◌+◌, ◌≤◌, ◌<◌, ◌≡◌, refl, List, [], ◌∷◌, ◌++◌, length, arith}

module _ (random_intn : ℕ → ℕ → ℕ) where
  -- A segment of `count` characters, drawn from the `n` characters from `base` on.
  abbrev pub segment : ℕ → ℕ → ℕ → ℕ → List ℕ
  segment zero i n base = []
  segment (suc count) i n base = (random_intn i n + base) ∷ segment count (i + 1) n base

  unfoldable pub generate_client_id : ℕ → List ℕ
  generate_client_id i = segment 4 i 26 65 ++ segment 4 (i + 4) 10 48

-- Characters from `low` to `high`.
abbrev pub Within : ℕ → ℕ → List ℕ → Type 0
Within low high [] = Unit
Within low high (c ∷ cs) = (low ≤ c) × (c ≤ high) × Within low high cs

module _ (random_intn : ℕ → ℕ → ℕ) (bounded : (i n : ℕ) → 1 ≤ n → random_intn i n < n) where
  segment-Within :
      (count i n base high : ℕ)
      → 1 ≤ n
      → base + n ≤ high + 1
      → (length (segment random_intn count i n base) ≡ count)
        × Within base high (segment random_intn count i n base)
  segment-Within zero i n base high some' top = (refl, tt)
  segment-Within (suc count) i n base high some' top =
      let (long, within) = segment-Within count (i + 1) n base high some' top in
      (omega (arith, long), (omega arith, omega (arith, bounded i n some', top), within))

  -- An id is four capital letters and then four digits.
  pub generate_client_id-shape :
      (i : ℕ)
      → (letters digits : List ℕ) × (generate_client_id random_intn i ≡ letters ++ digits)
        × (length letters ≡ 4)
        × (length digits ≡ 4)
        × Within 65 90 letters
        × Within 48 57 digits
  unfolding generate_client_id
  generate_client_id-shape i =
      let (long, within) = segment-Within 4 i 26 65 90 (omega arith) (omega arith) in
      let (long', within') = segment-Within 4 (i + 4) 10 48 57 (omega arith) (omega arith) in
      (
        segment random_intn 4 i 26 65,
        segment random_intn 4 (i + 4) 10 48,
        refl,
        long,
        long',
        within,
        within',
      )
