-- ===== src/Transporter/ConnectionManager/Stopping.antt =====
-- What `Stop` of connectionManager.go closes.
use adb_remote.Prelude.{
  ℕ, ◌≡◌, refl, ap, sym, ◌∙◌, false, List, [], ◌∷◌, ◌==◌, arith, Bool-cases, inl, inr, ==_iff,
  ==_refl,
}
use adb_remote.Transporter.ConnectionManager.{
  ConnectionManager, create_connection_manager, put_connection, register_connection, registered,
  internal_close_client, internal_close, close_connections, begin_stop, end_stop, Event, accepts,
  stop_begins, stop_ends, step, run,
}
use adb_remote.Transporter.ConnectionManager.Registered.{
  count, bit, Inv, create-Inv, run-Inv, remove-count, internal_close-Inv,
}

-- What closing `r` does to the list: `r` is not in it any more, and the others are as before.
closing-gone :
    (r : ℕ) (cm : ConnectionManager) → Inv cm → count r (internal_close r cm).connections ≡ 0
unfolding internal_close internal_close_client put_connection
closing-gone r cm h = elim (Bool-cases (cm.store r).close_once) [
  | inl used ↦ rw used (h.closed r used)
  | inr unused ↦ (internal_close-Inv r cm h).closed r (
      rw unused (elim (Bool-cases (registered r cm.connections)) [
        | inl e ↦ rw (e, ==_refl r) refl
        | inr e ↦ rw (e, ==_refl r) refl
      ]))
]

closing-others :
    (r q : ℕ) (cm : ConnectionManager)
    → (r == q) ≡ false
    → count q (internal_close r cm).connections ≡ count q cm.connections
unfolding internal_close internal_close_client put_connection
closing-others r q cm other = elim (Bool-cases (cm.store r).close_once) [
  | inl used ↦ rw used refl
  | inr unused ↦ elim (Bool-cases (registered r cm.connections)) [
    | inl e ↦ rw (unused, e) (omega (arith, remove-count r q cm.connections e, ap bit other))
    | inr e ↦ rw (unused, e) refl
  ]
]

close_connections-gone :
    (rs : List ℕ) (cm : ConnectionManager) (q : ℕ)
    → Inv cm
    → (count q rs ≡ 0 → count q cm.connections ≡ 0)
    → count q (close_connections rs cm).connections ≡ 0
unfolding close_connections count
close_connections-gone [] cm q h all = all refl
close_connections-gone (r ∷ rs) cm q h all = elim (Bool-cases (r == q)) [
  | inl same ↦
      let e = (==_iff r q).0 same in
      let gone : count q (internal_close r cm).connections ≡ 0 =
        ap (λ (k : ℕ). count k (internal_close r cm).connections) (sym e) ∙ closing-gone r cm h in
      close_connections-gone rs (internal_close r cm) q (internal_close-Inv r cm h) (λ _. gone)
  | inr other ↦
      close_connections-gone rs (internal_close r cm) q (internal_close-Inv r cm h)
        (λ none'. closing-others r q cm other ∙ all (omega (arith, none', ap bit other)))
]

close_connections-others :
    (rs : List ℕ) (cm : ConnectionManager) (q : ℕ)
    → count q rs ≡ 0
    → count q (close_connections rs cm).connections ≡ count q cm.connections
unfolding close_connections count
close_connections-others [] cm q h = refl
close_connections-others (r ∷ rs) cm q h = elim (Bool-cases (r == q)) [
  | inl same ↦ omega (arith, h, ap bit same)
  | inr other ↦
      close_connections-others rs (internal_close r cm) q (omega (arith, h))
      ∙ closing-others r q cm other
]

late_accept_survives :
    (cm : ConnectionManager)
    → Inv cm
    → count cm.next_ref (run cm (stop_begins ∷ accepts ∷ stop_ends cm.connections ∷ [])).connections
      ≡ 1
unfolding run step begin_stop end_stop register_connection
late_accept_survives cm h =
    let fresh : count cm.next_ref cm.connections ≡ 0 = ground (arith, h.once cm.next_ref) in
    close_connections-others cm.connections _ cm.next_ref fresh
    ∙ unfold count in omega (arith, fresh, ap bit (==_refl cm.next_ref))

-- After a `Stop` in which nothing is accepted, no connection is registered. But a connection that is accepted
-- after `Stop` has copied the list, and before it has closed the listener, stays registered.
pub stop_closes_copied :
    (es : List Event)
    → let cm = run create_connection_manager es in
      ((r : ℕ) → count r (run cm (stop_begins ∷ stop_ends cm.connections ∷ [])).connections ≡ 0)
      × (count cm.next_ref
            (run cm (stop_begins ∷ accepts ∷ stop_ends cm.connections ∷ [])).connections
          ≡ 1)
unfolding run step begin_stop end_stop
stop_closes_copied es =
    let cm = run create_connection_manager es in
    let h = run-Inv es create_connection_manager create-Inv in
    (
      λ r.
          close_connections-gone cm.connections _ r (record { once = h.once; closed = h.closed })
            (λ e. e),
      late_accept_survives cm h,
    )
