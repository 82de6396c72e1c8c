-- ===== src/Transporter/ConnectionManager/Registered.antt =====
-- Every connection of the transporter is registered until it ends, and its end is reported once.
use adb_remote.Prelude.{
  ℕ, ◌+◌, ◌≡◌, refl, ap, sym, ◌∙◌, Bool, true, false, List, [], ◌∷◌, ◌==◌, ltb, arith, Bool-cases,
  inl, inr, ==_iff,
}
use adb_remote.Transporter.ConnectionManager.{
  ClientConnection, ConnectionManager, create_connection_manager, put_connection,
  register_connection, registered, remove, internal_close_client, internal_close, close_connections,
  begin_stop, end_stop, Event, accepts, ends, refuses, stop_begins, stop_ends, step, run,
}

abbrev pub bit : Bool → ℕ
bit true = 1
bit false = 0

-- How often a reference stands in a list.
unfoldable pub count : ℕ → List ℕ → ℕ
count r [] = 0
count r (q ∷ rest) = bit (q == r) + count r rest

-- Each connection that was accepted is registered or was reported, once; and one that used `closeOnce` is
-- not registered.
pub record Inv (cm : ConnectionManager) : Type 0 where
  pub once : (r : ℕ) → count r cm.connections + count r cm.disconnected ≡ bit (ltb r cm.next_ref)
  pub closed : (r : ℕ) → (cm.store r).close_once ≡ true → count r cm.connections ≡ 0

pub remove-count :
    (r q : ℕ) (xs : List ℕ)
    → registered r xs ≡ true
    → count q (remove r xs) + bit (r == q) ≡ count q xs
unfolding remove registered count
remove-count r q [] h = cc
remove-count r q (x ∷ xs) h = elim (Bool-cases (x == r)) [
  | inl e ↦ rw e (omega (arith, ap (λ (k : ℕ). bit (k == q)) ((==_iff x r).0 e)))
  | inr e ↦
      let later : registered r xs ≡ true = ground (arith, e, h) in
      rw e (omega (arith, remove-count r q xs later))
]

registered-count : (r : ℕ) (xs : List ℕ) → registered r xs ≡ false → count r xs ≡ 0
unfolding registered count
registered-count r [] h = refl
registered-count r (x ∷ xs) h = elim (Bool-cases (x == r)) [
  | inl e ↦ ground (arith, e, h)
  | inr e ↦
      let later : registered r xs ≡ false = ground (arith, e, h) in
      rw e (omega (arith, registered-count r xs later))
]

pub create-Inv : Inv create_connection_manager
unfolding create_connection_manager count
create-Inv = record { once = λ r. ground arith; closed = λ r e. refl }

register_connection-Inv : (cm : ConnectionManager) → Inv cm → Inv (register_connection cm)
unfolding register_connection put_connection count
register_connection-Inv cm h = record {
  once = λ r. elim (Bool-cases (cm.next_ref == r)) [
    | inl e ↦ rw e (ground (arith, h.once r, (==_iff cm.next_ref r).0 e))
    | inr e ↦ rw e (ground (arith, h.once r, e))
  ];
  closed = λ r e. elim (Bool-cases (r == cm.next_ref)) [
    | inl e' ↦ ground (arith, e, e')
    | inr e' ↦ ground (arith, e, e', h.closed r)
  ];
}

-- A store that differs at `r` alone.
abbrev Beside : ℕ → (ℕ → ClientConnection) → (ℕ → ClientConnection) → Type 0
Beside r store store' = (q : ℕ) → (q == r) ≡ false → store' q ≡ store q

removed-Inv :
    (r : ℕ) (cm : ConnectionManager) (store : ℕ → ClientConnection)
    → Beside r cm.store store
    → registered r cm.connections ≡ true
    → Inv cm
    → Inv (record cm {
      connections = remove r cm.connections;
      store = store;
      disconnected = r ∷ cm.disconnected;
    })
unfolding count
removed-Inv r cm store beside e h = record {
  once = λ q. omega (arith, h.once q, remove-count r q cm.connections e);
  closed = λ q used. elim (Bool-cases (q == r)) [
    | inl same ↦
        let at : bit (r == q) ≡ 1 = ground (arith, same) in
        ground (arith, at, h.once q, remove-count r q cm.connections e)
    | inr other ↦ omega (
      arith,
      h.closed q (ap (λ (x : ClientConnection). x.close_once) (sym (beside q other)) ∙ used),
      remove-count r q cm.connections e,
    )
  ];
}

unregistered-Inv :
    (r : ℕ) (cm : ConnectionManager) (store : ℕ → ClientConnection)
    → Beside r cm.store store
    → registered r cm.connections ≡ false
    → Inv cm
    → Inv (record cm { store = store })
unregistered-Inv r cm store beside e h = record {
  once = h.once;
  closed = λ q used. elim (Bool-cases (q == r)) [
    | inl same ↦ rw ((==_iff q r).0 same) (registered-count r cm.connections e)
    | inr other ↦
        h.closed q (ap (λ (x : ClientConnection). x.close_once) (sym (beside q other)) ∙ used)
  ];
}

pub internal_close-Inv : (r : ℕ) (cm : ConnectionManager) → Inv cm → Inv (internal_close r cm)
unfolding internal_close internal_close_client put_connection
internal_close-Inv r cm h = elim (Bool-cases (cm.store r).close_once) [
  | inl used ↦ rw used h
  | inr unused ↦ elim (Bool-cases (registered r cm.connections)) [
    | inl e ↦ rw (unused, e) (removed-Inv r cm _ (λ q other. rw other refl) e h)
    | inr e ↦ rw (unused, e) (unregistered-Inv r cm _ (λ q other. rw other refl) e h)
  ]
]

internal_close_client-Inv :
    (r : ℕ) (cm : ConnectionManager) → Inv cm → Inv (internal_close_client r cm)
unfolding internal_close_client put_connection
internal_close_client-Inv r cm h = elim (Bool-cases (registered r cm.connections)) [
  | inl e ↦ rw e (removed-Inv r cm _ (λ q other. rw other refl) e h)
  | inr e ↦ rw e (unregistered-Inv r cm _ (λ q other. rw other refl) e h)
]

close_connections-Inv :
    (rs : List ℕ) (cm : ConnectionManager) → Inv cm → Inv (close_connections rs cm)
unfolding close_connections
close_connections-Inv [] cm h = h
close_connections-Inv (r ∷ rs) cm h =
    close_connections-Inv rs (internal_close r cm) (internal_close-Inv r cm h)

step-Inv : (e : Event) (cm : ConnectionManager) → Inv cm → Inv (step cm e)
unfolding step begin_stop end_stop
step-Inv accepts cm h = register_connection-Inv cm h
step-Inv (ends r) cm h = internal_close-Inv r cm h
step-Inv (refuses r) cm h = internal_close_client-Inv r cm h
step-Inv stop_begins cm h = record { once = h.once; closed = h.closed }
step-Inv (stop_ends copied) cm h =
    close_connections-Inv copied _ (record { once = h.once; closed = h.closed })

pub run-Inv : (es : List Event) (cm : ConnectionManager) → Inv cm → Inv (run cm es)
unfolding run
run-Inv [] cm h = h
run-Inv (e ∷ es) cm h = run-Inv es (step cm e) (step-Inv e cm h)
