-- ===== src/Client/Multiplexer/RunOwner/Cleanup.antt =====
-- What RunOwner of client/relay/owner.go leaves behind, whichever way it returns.
use adb_remote.Prelude.{
  ℕ, ◌<◌, ◌≡◌, ◌≢◌, sym, ◌∙◌, ap, Bool, List, [], ◌∷◌, ◌++◌, append-nil, inl, inr, subst,
}
use adb_remote.Client.Multiplexer.{OwnerMultiplexer}
use adb_remote.Client.Multiplexer.Streams.{closings, Inv, new-Inv}
use adb_remote.Client.Multiplexer.Leaks.{closes_all, step_closes-next_ref}
use adb_remote.Client.Multiplexer.RunOwner.{Turn, running, OwnerRun, start_owner, turn, run_owner}
use adb_remote.Client.Multiplexer.RunOwner.Turns.{
  containers, containers-snoc, turn-Left, run_owner-Inv, run_owner_snoc, turn-disposed,
  run_owner-disposed,
}

module _ (fails : ℕ → Bool) where
  start-Inv : Inv start_owner.multiplexer
  unfolding start_owner
  start-Inv = new-Inv

  abbrev Clean : OwnerRun → Type 0
  Clean s =
      (s.multiplexer.streams ≡ [])
      × ((r : ℕ) → r < s.multiplexer.next_ref → closings r s.multiplexer.trace ≡ 1)

  -- The turn at which the loop returns closes every stream.
  turn_cleans :
      (t : Turn) (s : OwnerRun)
      → Inv s.multiplexer
      → s.outcome ≡ running
      → (turn fails t s).outcome ≢ running
      → (turn fails t s).multiplexer.next_ref < 4294967296
      → Clean (turn fails t s)
  turn_cleans t s v live ended few = elim (turn-Left fails t s v live) [
    | inl (_, live') ↦ absurd (ended live')
    | inr (m, v', _, e) ↦
        let same = step_closes-next_ref fails m in
        let few' : m.next_ref < 4294967296 =
          subst (λ n. n < 4294967296) (ap (λ (x : OwnerMultiplexer). x.next_ref) e ∙ same) few in
        let (empty, once) = closes_all fails m v' few' in
        subst
          (λ (x : OwnerMultiplexer).
            (x.streams ≡ []) × ((r : ℕ) → r < x.next_ref → closings r x.trace ≡ 1))
          (sym e) (empty, λ r below. once r (subst (λ n. r < n) same below))
  ]

  -- Whatever turns RunOwner takes and whichever calls fail: with the turn `t` at which it returns, a panic
  -- included, every container that it received was disposed of exactly once, no stream is left in the table and
  -- the device's connection of every stream was closed exactly once, if fewer than 2^32 were opened.
  pub run_owner_cleans :
      (ts : List Turn) (t : Turn)
      → (run_owner fails ts start_owner).outcome ≡ running
      → (run_owner fails (ts ++ t ∷ []) start_owner).outcome ≢ running
      → (run_owner fails (ts ++ t ∷ []) start_owner).multiplexer.next_ref < 4294967296
      → let s = run_owner fails (ts ++ t ∷ []) start_owner in
        (s.disposed ≡ containers (ts ++ t ∷ []))
        × (s.multiplexer.streams ≡ [])
        × ((r : ℕ) → r < s.multiplexer.next_ref → closings r s.multiplexer.trace ≡ 1)
  unfolding start_owner
  run_owner_cleans ts t live ended few =
      let s = run_owner fails ts start_owner in
      let last = run_owner_snoc fails ts t start_owner live in
      let v = run_owner-Inv fails ts start_owner start-Inv live in
      let end = turn fails t s in
      let ended' : end.outcome ≢ running = λ e. ended (ap (λ (x : OwnerRun). x.outcome) last ∙ e) in
      let few' : end.multiplexer.next_ref < 4294967296 =
        subst (λ (x : OwnerRun). x.multiplexer.next_ref < 4294967296) last few in
      let (empty, once) = subst Clean (sym last) (turn_cleans t s v live ended' few') in
      (
        ap (λ (x : OwnerRun). x.disposed) last
            ∙ turn-disposed fails t s
            ∙ ap (λ cs. containers (t ∷ []) ++ cs)
                (run_owner-disposed fails ts start_owner live ∙ append-nil (containers ts))
            ∙ sym (containers-snoc ts t),
        empty,
        once,
      )
