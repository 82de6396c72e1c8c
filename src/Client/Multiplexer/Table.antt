-- ===== src/Client/Multiplexer/Table.antt =====
-- The table of streams in client/relay/owner.go: what stands in it, and what an id finds.
use adb_remote.Prelude.{
  ℕ, ◌≤◌, ◌<◌, ◌≡◌, ◌≢◌, refl, ◌∙◌, ap, false, List, [], ◌∷◌, ◌==◌, some, Bool-cases, arith, inl,
  inr, ◌⊎◌,
}
use adb_remote.Client.Multiplexer.{OwnerStream, find_stream, delete_stream}

-- Every entry leads, under its own id, to a stream that exists and is not closed.
unfoldable pub Entries : (ℕ → OwnerStream) → ℕ → List (ℕ × ℕ) → Type 0
Entries store n [] = Unit {0}
Entries store n ((id, r) ∷ rest) =
    ((store r).own_id ≡ id) × ((store r).closed ≡ false) × (r < n) × Entries store n rest

-- A reference that stands in the table.
unfoldable pub Listed : ℕ → List (ℕ × ℕ) → Type 0
Listed r [] = ⊥
Listed r ((_, q) ∷ rest) = (q ≡ r) ⊎ Listed r rest

pub find-Listed : (id r : ℕ) (xs : List (ℕ × ℕ)) → find_stream id xs ≡ some r → Listed r xs
unfolding find_stream Listed
find-Listed id r [] e = cc
find-Listed id r ((k, q) ∷ rest) e = elim (Bool-cases (k == id)) [
  | inl same ↦ inl (ground (arith, same, e))
  | inr other ↦ inr (find-Listed id r rest (ground (arith, other, e)))
]

pub find-delete_ne :
    (id k : ℕ) (xs : List (ℕ × ℕ))
    → (k == id) ≡ false
    → find_stream id (delete_stream k xs) ≡ find_stream id xs
unfolding find_stream delete_stream
find-delete_ne id k [] other = refl
find-delete_ne id k ((j, q) ∷ rest) other = ground (arith, other, find-delete_ne id k rest other)

-- Deleting keeps the entries, also in a store that changed for the streams of the deleted id alone.
pub Entries-delete :
    (store store' : ℕ → OwnerStream) (n n' k : ℕ) (xs : List (ℕ × ℕ))
    → n ≤ n'
    → ((q : ℕ) → q < n → (store q).own_id ≢ k → store' q ≡ store q)
    → Entries store n xs
    → Entries store' n' (delete_stream k xs)
unfolding Entries delete_stream
Entries-delete store store' n n' k [] le same h = tt
Entries-delete store store' n n' k ((id, q) ∷ rest) le same (own, live, below, h) =
    let others = Entries-delete store store' n n' k rest le same h in
    elim (Bool-cases (id == k)) [
      | inl e ↦ rw e others
      | inr e ↦
          let kept = same q below (λ eq. ground (arith, e, own, eq)) in
          rw e (
            ap (λ (x : OwnerStream). x.own_id) kept ∙ own,
            ap (λ (x : OwnerStream). x.closed) kept ∙ live,
            omega arith,
            others,
          )
    ]

-- A store that agrees on the ids and on what is closed.
pub Entries-same :
    (store store' : ℕ → OwnerStream) (n : ℕ) (xs : List (ℕ × ℕ))
    → ((q : ℕ) → ((store' q).own_id ≡ (store q).own_id) × ((store' q).closed ≡ (store q).closed))
    → Entries store n xs
    → Entries store' n xs
unfolding Entries
Entries-same store store' n [] same h = tt
Entries-same store store' n ((id, q) ∷ rest) same (own, live, below, h) =
    ((same q).0 ∙ own, (same q).1 ∙ live, below, Entries-same store store' n rest same h)
