-- ===== src/Client/Multiplexer/FlowControl.antt =====
-- ADB's flow control over whole runs of the multiplexer of client/relay/owner.go.
use adb_remote.Prelude.{
  ℕ, ◌+◌, ◌≤◌, ◌≡◌, refl, Bool, true, false, List, ◌==◌, Bool-cases, arith, inl, inr, ==_iff, ap,
}
use adb_remote.Client.Multiplexer.{
  reading, OwnerStream, OwnerMultiplexer, Action, open_stream, write_device, close_device,
  send_okay, send_write, send_close, got_okay, new_owner_multiplexer, put_stream, note, call, Event,
  run,
}
use adb_remote.Client.Multiplexer.Flow.{
  bit, writes, okays, Inv, new-Inv, put_stream-Inv, add_stream-Inv, handle_okay-Inv, call-Inv,
  close_stream-Inv,
}
use adb_remote.Client.Multiplexer.Runs.{Plain, Kept, run_kept}

module _ (fails : ℕ → Bool) where
  -- The call that sends the WRTE, with the token taken.
  send_call-Inv :
      (q own guest : ℕ) (bytes : List ℕ) (x : OwnerStream) (s : OwnerMultiplexer)
      → (s.store q).permit ≡ true
      → x.permit ≡ false
      → Inv s
      → Inv (call fails (send_write q own guest bytes) (put_stream q x s)).0
  unfolding call note put_stream writes okays
  send_call-Inv q own guest bytes x s permit taken v r = elim (Bool-cases (r == q)) [
    | inl e ↦
        let same = (==_iff r q).0 e in
        rw (e, taken) (omega (arith, v r, ap (λ k. bit (s.store k).permit) same, ap bit permit))
    | inr e ↦ rw e (omega (arith, v r))
  ]

  called-Inv : (a : Action) (s : OwnerMultiplexer) → Plain a → Inv s → Inv (call fails a s).0
  unfolding Plain
  called-Inv (open_stream _) s plain v = call-Inv fails _ s (λ _. (refl, refl)) v
  called-Inv (write_device _ _) s plain v = call-Inv fails _ s (λ _. (refl, refl)) v
  called-Inv (send_okay _ _) s plain v = call-Inv fails _ s (λ _. (refl, refl)) v
  called-Inv (send_close _ _) s plain v = call-Inv fails _ s (λ _. (refl, refl)) v
  called-Inv (close_device _) s plain v = absurd plain
  called-Inv (send_write _ _ _ _) s plain v = absurd plain
  called-Inv (got_okay _) s plain v = absurd plain

  Inv-Kept : Kept fails Inv
  Inv-Kept = record {
    pumps = λ q p s v. put_stream-Inv q (record (s.store q) { pump = p }) s refl v;
    okayed = handle_okay-Inv;
    added = add_stream-Inv;
    called = called-Inv;
    sent = λ q bytes s permit v.
        let x = s.store q in
        send_call-Inv q x.own_id x.guest_id bytes (record x { permit = false; pump = reading }) s
          permit refl v;
    shut = close_stream-Inv fails;
  }

  -- Whatever messages come from the guest, however the pumps' steps interleave with them and whichever calls
  -- fail, every stream has sent at most one WRTE more than it has received OKAYs.
  pub flow_control :
      (es : List Event) (r : ℕ)
      → let s = run fails new_owner_multiplexer es in writes r s.trace ≤ 1 + okays r s.trace
  flow_control es r =
      let s = run fails new_owner_multiplexer es in
      ground (arith, run_kept fails Inv Inv-Kept new_owner_multiplexer es new-Inv r)
