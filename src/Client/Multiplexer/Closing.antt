-- ===== src/Client/Multiplexer/Closing.antt =====
-- Calls and closeStream of client/relay/owner.go keep the invariant of the streams.
use adb_remote.Prelude.{
  ℕ, ◌+◌, ◌<◌, ◌≡◌, refl, sym, ◌∙◌, ap, Bool, true, false, ◌∷◌, ◌==◌, if◌then◌else◌, ltb,
  Bool-cases, ==_iff, arith, inl, inr,
}
use adb_remote.Client.Multiplexer.{
  OwnerStream, OwnerMultiplexer, Action, close_device, send_close, delete_stream, put_stream, note,
  call, close_stream,
}
use adb_remote.Client.Multiplexer.Table.{Entries-delete, find-delete_ne}
use adb_remote.Client.Multiplexer.Streams.{closings, Inv, Other}

-- The store once the stream `r` is closed.
abbrev pub shut : ℕ → (ℕ → OwnerStream) → ℕ → OwnerStream
shut r store q = if q == r then record (store r) { closed = true } else store q

shut-own_id : (r : ℕ) (store : ℕ → OwnerStream) (q : ℕ) → (shut r store q).own_id ≡ (store q).own_id
shut-own_id r store q = elim (Bool-cases (q == r)) [
  | inl e ↦ rw (e, (==_iff q r).0 e) refl
  | inr e ↦ rw e refl
]

shut_ne : (r : ℕ) (store : ℕ → OwnerStream) (q : ℕ) → (q == r) ≡ false → shut r store q ≡ store q
shut_ne r store q other = rw other refl

-- What is still open was not the stream that was closed.
shut-open :
    (r : ℕ) (store : ℕ → OwnerStream) (q : ℕ) → (shut r store q).closed ≡ false → (q == r) ≡ false
shut-open r store q live = elim (Bool-cases (q == r)) [
  | inl e ↦ let closed_now : (shut r store q).closed ≡ true = rw e refl in cc
  | inr e ↦ e
]

pub opened_below :
    (r : ℕ) (s : OwnerMultiplexer) → (s.store r).closed ≡ false → Inv s → r < s.next_ref
opened_below r s live v = elim (Bool-cases (ltb r s.next_ref)) [
  | inl e ↦ ground (arith, e)
  | inr e ↦ let shut_already = v.unopened r (ground (arith, e)) in cc
]

close-Inv :
    (r : ℕ) (s : OwnerMultiplexer)
    → (s.store r).closed ≡ false
    → Inv s
    → Inv (record s {
      store = shut r s.store;
      streams = delete_stream (s.store r).own_id s.streams;
      calls = s.calls + 1;
      trace = close_device r ∷ s.trace;
    })
unfolding closings
close-Inv r s live v =
    let n = s.next_ref in
    let own = (s.store r).own_id in
    let below = opened_below r s live v in
    record {
      entries =
          Entries-delete s.store (shut r s.store) n n own s.streams (omega arith)
            (λ q h other. shut_ne r s.store q (elim (Bool-cases (q == r)) [
              | inl e ↦ absurd (other (ap (λ k. (s.store k).own_id) ((==_iff q r).0 e)))
              | inr e ↦ e
            ]))
            v.entries;
      numbered = v.numbered;
      owned = λ few q h. shut-own_id r s.store q ∙ v.owned few q h;
      found = λ few q h live'.
          let other = shut-open r s.store q live' in
          let still =
            ap (λ (y : OwnerStream). y.closed) (sym (shut_ne r s.store q other)) ∙ live' in
          find-delete_ne (q + 1) own s.streams (ground (arith, v.owned few r below, other))
          ∙ v.found few q h still;
      unopened = λ q h.
          ap (λ (y : OwnerStream). y.closed) (shut_ne r s.store q (ground (arith, below, h)))
          ∙ v.unopened q h;
      counted = λ q. elim (Bool-cases (q == r)) [
        | inl e ↦ rw e (ground (arith, v.counted q, (==_iff q r).0 e, live, below))
        | inr e ↦ rw e (omega (arith, v.counted q))
      ];
    }

pub either-Inv : (b : Bool) (s t : OwnerMultiplexer) → Inv s → Inv t → Inv (if b then s else t)
either-Inv true s t v w = v
either-Inv false s t v w = w

module _ (fails : ℕ → Bool) where
  pub call-Inv : (a : Action) (s : OwnerMultiplexer) → Other a → Inv s → Inv (call fails a s).0
  unfolding call note closings
  call-Inv a s other v = record {
    entries = v.entries;
    numbered = v.numbered;
    owned = v.owned;
    found = v.found;
    unopened = v.unopened;
    counted = λ r. omega (arith, other r, v.counted r);
  }

  pub close_stream-Inv :
      (r : ℕ) (notify : Bool) (s : OwnerMultiplexer) → Inv s → Inv (close_stream fails r notify s)
  unfolding close_stream call note put_stream
  close_stream-Inv r notify s v = elim (Bool-cases (s.store r).closed) [
    | inl e ↦ rw e v
    | inr e ↦
        let x = s.store r in
        let v' = close-Inv r s e v in
        rw e (either-Inv notify _ _ (call-Inv (send_close x.own_id x.guest_id) _ (λ _. refl) v') v')
  ]
