-- ===== src/Client/Multiplexer/Leaks.antt =====
-- The closing of streams in client/relay/owner.go over whole runs, and what `Close` leaves of them.
use adb_remote.Prelude.{
  ℕ, ◌+◌, ◌≤◌, ◌<◌, ◌≡◌, refl, ◌∙◌, Bool, true, false, List, [], ◌∷◌, ◌==◌, Bool-cases, ==_refl,
  arith, inl, inr,
}
use adb_remote.Client.Multiplexer.{
  reading, OwnerStream, OwnerMultiplexer, Action, open_stream, write_device, close_device,
  send_okay, send_write, send_close, got_okay, new_owner_multiplexer, put_stream, note, call,
  close_stream, close_all, close_all_streams, Event, closes, step, run,
}
use adb_remote.Client.Multiplexer.Table.{Entries, Listed, find-Listed}
use adb_remote.Client.Multiplexer.Streams.{
  closings, Inv, new-Inv, put_stream-Inv, handle_okay-Inv, add_stream-Inv,
}
use adb_remote.Client.Multiplexer.Closing.{call-Inv, close_stream-Inv, opened_below}
use adb_remote.Client.Multiplexer.Runs.{Plain, Kept, step_kept, run_kept}

all_closed-empty :
    (store : ℕ → OwnerStream) (n : ℕ) (xs : List (ℕ × ℕ))
    → ((r : ℕ) → (store r).closed ≡ true)
    → Entries store n xs
    → xs ≡ []
unfolding Entries
all_closed-empty store n [] shut h = refl
all_closed-empty store n ((id, r) ∷ rest) shut (own, live, below, h) = let closed = shut r in cc

module _ (fails : ℕ → Bool) where
  called-Inv : (a : Action) (s : OwnerMultiplexer) → Plain a → Inv s → Inv (call fails a s).0
  unfolding Plain
  called-Inv (open_stream _) s plain v = call-Inv fails _ s (λ _. refl) v
  called-Inv (write_device _ _) s plain v = call-Inv fails _ s (λ _. refl) v
  called-Inv (send_okay _ _) s plain v = call-Inv fails _ s (λ _. refl) v
  called-Inv (send_close _ _) s plain v = call-Inv fails _ s (λ _. refl) v
  called-Inv (close_device _) s plain v = absurd plain
  called-Inv (send_write _ _ _ _) s plain v = absurd plain
  called-Inv (got_okay _) s plain v = absurd plain

  pub Inv-Kept : Kept fails Inv
  Inv-Kept = record {
    pumps = λ q p s v. put_stream-Inv q (record (s.store q) { pump = p }) s refl refl v;
    okayed = handle_okay-Inv;
    added = add_stream-Inv;
    called = called-Inv;
    sent = λ q bytes s permit v.
        let x = s.store q in
        call-Inv fails (send_write q x.own_id x.guest_id bytes) _ (λ _. refl)
          (put_stream-Inv q (record x { permit = false; pump = reading }) s refl refl v);
    shut = close_stream-Inv fails;
  }

  -- Closing a stream opens none and closes that one.
  close_stream_closed :
      (q : ℕ) (s : OwnerMultiplexer) → ((close_stream fails q false s).store q).closed ≡ true
  unfolding close_stream call note put_stream
  close_stream_closed q s = elim (Bool-cases (s.store q).closed) [
    | inl e ↦ rw e e
    | inr e ↦ rw (e, ==_refl q) refl
  ]

  close_stream_stays :
      (q r : ℕ) (s : OwnerMultiplexer)
      → (s.store r).closed ≡ true
      → ((close_stream fails q false s).store r).closed ≡ true
  unfolding close_stream call note put_stream
  close_stream_stays q r s shut = elim (Bool-cases (s.store q).closed) [
    | inl e ↦ rw e shut
    | inr e ↦ elim (Bool-cases (r == q)) [
      | inl same ↦ rw (e, same) refl
      | inr other ↦ rw (e, other) shut
    ]
  ]

  close_stream-next_ref :
      (q : ℕ) (s : OwnerMultiplexer) → (close_stream fails q false s).next_ref ≡ s.next_ref
  unfolding close_stream call note put_stream
  close_stream-next_ref q s = elim (Bool-cases (s.store q).closed) [
    | inl e ↦ rw e refl
    | inr e ↦ rw e refl
  ]

  close_all-next_ref :
      (xs : List (ℕ × ℕ)) (s : OwnerMultiplexer) → (close_all fails xs s).next_ref ≡ s.next_ref
  unfolding close_all
  close_all-next_ref [] s = refl
  close_all-next_ref ((id, q) ∷ rest) s =
      close_all-next_ref rest (close_stream fails q false s) ∙ close_stream-next_ref q s

  close_all_stays :
      (xs : List (ℕ × ℕ)) (r : ℕ) (s : OwnerMultiplexer)
      → (s.store r).closed ≡ true
      → ((close_all fails xs s).store r).closed ≡ true
  unfolding close_all
  close_all_stays [] r s shut = shut
  close_all_stays ((id, q) ∷ rest) r s shut =
      close_all_stays rest r (close_stream fails q false s) (close_stream_stays q r s shut)

  close_all_closed :
      (xs : List (ℕ × ℕ)) (r : ℕ) (s : OwnerMultiplexer)
      → Listed r xs
      → ((close_all fails xs s).store r).closed ≡ true
  unfolding close_all Listed
  close_all_closed [] r s h = absurd h
  close_all_closed ((id, q) ∷ rest) r s (inl e) =
      rw (← e) (close_all_stays rest q (close_stream fails q false s) (close_stream_closed q s))
  close_all_closed ((id, q) ∷ rest) r s (inr h) =
      close_all_closed rest r (close_stream fails q false s) h

  -- `Close` leaves no stream open.
  step_closes :
      (s : OwnerMultiplexer) (r : ℕ)
      → Inv s
      → s.next_ref < 4294967296
      → ((step fails s closes).store r).closed ≡ true
  unfolding step close_all_streams
  step_closes s r v few = elim (Bool-cases (s.store r).closed) [
    | inl e ↦ close_all_stays s.streams r s e
    | inr e ↦
        close_all_closed s.streams r s
          (find-Listed (r + 1) r s.streams (v.found few r (opened_below r s e v) e))
  ]

  pub step_closes-next_ref : (s : OwnerMultiplexer) → (step fails s closes).next_ref ≡ s.next_ref
  unfolding step close_all_streams
  step_closes-next_ref s = close_all-next_ref s.streams s

  -- Whatever the guest sends, however the pumps' steps interleave with it and whichever calls fail, the device's
  -- connection of a stream is closed at most once.
  pub closed_once :
      (es : List Event) (r : ℕ) → closings r (run fails new_owner_multiplexer es).trace ≤ 1
  closed_once es r =
      ground (arith, (run_kept fails Inv Inv-Kept new_owner_multiplexer es new-Inv).counted r)

  pub closes_all :
      (s : OwnerMultiplexer)
      → Inv s
      → s.next_ref < 4294967296
      → ((step fails s closes).streams ≡ [])
        × ((r : ℕ) → r < s.next_ref → closings r (step fails s closes).trace ≡ 1)
  closes_all s v few =
      let t = step fails s closes in
      let w : Inv t = step_kept fails Inv Inv-Kept s closes v in
      let shut : (r : ℕ) → (t.store r).closed ≡ true = λ r. step_closes s r v few in
      (
        all_closed-empty t.store t.next_ref t.streams shut w.entries,
        λ r below. ground (arith, w.counted r, shut r, step_closes-next_ref s, below),
      )

  -- After `Close`, behind any run that opened fewer than 2^32 streams, the table of streams is empty and the
  -- device's connection of every stream that was opened was closed exactly once.
  pub none_leaks :
      (es : List Event)
      → (run fails new_owner_multiplexer es).next_ref < 4294967296
      → let s = run fails new_owner_multiplexer es in
        ((step fails s closes).streams ≡ [])
        × ((r : ℕ) → r < s.next_ref → closings r (step fails s closes).trace ≡ 1)
  none_leaks es few =
      closes_all (run fails new_owner_multiplexer es)
        (run_kept fails Inv Inv-Kept new_owner_multiplexer es new-Inv) few
