-- ===== src/Client/Multiplexer/Flow.antt =====
-- ADB's flow control in client/relay/owner.go: a stream sends a WRTE only with a token, which it has once
-- from the start and then for an OKAY.
use adb_remote.Prelude.{
  ℕ, ◌+◌, ◌≤◌, ◌≡◌, refl, Bool, true, false, List, [], ◌∷◌, ◌==◌, ltb, if◌then◌else◌, Option-cases,
  Bool-cases, ==_iff, ap, arith, inl, inr,
}
use adb_remote.Client.Multiplexer.{
  Pump, stopped, reading, waiting, OwnerStream, OwnerMultiplexer, Action, open_stream, write_device,
  close_device, send_okay, send_write, send_close, got_okay, new_owner_multiplexer, lookup,
  put_stream, note, handle_okay, add_stream, call, close_stream, handle_open, write_stream,
  handle_write, handle_close, stop_pump, pump_read, send_read, pump_send, pump_done, close_all,
  close_all_streams, open_command, write_command, dispatch, trim_right, Event, message, reads,
  sends, finishes, closes, step, run,
}

abbrev pub bit : Bool → ℕ
bit true = 1
bit false = 0

-- Whether an action is a WRTE, or an OKAY, of the stream `r`.
abbrev pub is_write : ℕ → Action → ℕ
is_write r (send_write q own guest bytes) = bit (r == q)
is_write r (open_stream _) = 0
is_write r (write_device _ _) = 0
is_write r (close_device _) = 0
is_write r (send_okay _ _) = 0
is_write r (send_close _ _) = 0
is_write r (got_okay _) = 0

abbrev pub is_okay : ℕ → Action → ℕ
is_okay r (got_okay q) = bit (r == q)
is_okay r (open_stream _) = 0
is_okay r (write_device _ _) = 0
is_okay r (close_device _) = 0
is_okay r (send_okay _ _) = 0
is_okay r (send_write _ _ _ _) = 0
is_okay r (send_close _ _) = 0

unfoldable pub writes : ℕ → List Action → ℕ
writes r [] = 0
writes r (a ∷ rest) = is_write r a + writes r rest

unfoldable pub okays : ℕ → List Action → ℕ
okays r [] = 0
okays r (a ∷ rest) = is_okay r a + okays r rest

-- The WRTEs of a stream, with its token, against its OKAYs and, once it is open, its first token.
abbrev pub Inv : OwnerMultiplexer → Type 0
Inv s =
    (r : ℕ) → writes r s.trace + bit (s.store r).permit ≤ okays r s.trace + bit (ltb r s.next_ref)

abbrev pub Neutral : Action → Type 0
Neutral a = (r : ℕ) → (is_write r a ≡ 0) × (is_okay r a ≡ 0)

either-Inv : (b : Bool) (s t : OwnerMultiplexer) → Inv s → Inv t → Inv (if b then s else t)
either-Inv true s t v w = v
either-Inv false s t v w = w

pub new-Inv : Inv new_owner_multiplexer
unfolding new_owner_multiplexer writes okays
new-Inv r = omega arith

pub put_stream-Inv :
    (q : ℕ) (x : OwnerStream) (s : OwnerMultiplexer)
    → x.permit ≡ (s.store q).permit
    → Inv s
    → Inv (put_stream q x s)
unfolding put_stream
put_stream-Inv q x s same v r = elim (Bool-cases (r == q)) [
  | inl e ↦ rw e (
      let h = v r in
      let at = (==_iff r q).0 e in
      omega (arith, h, ap (λ k. bit (s.store k).permit) at, ap bit same))
  | inr e ↦ rw e (v r)
]

pub add_stream-Inv : (guest : ℕ) (s : OwnerMultiplexer) → Inv s → Inv (add_stream guest s)
unfolding add_stream
add_stream-Inv guest s v r = elim (Bool-cases (r == s.next_ref)) [
  | inl e ↦ rw e (ground (arith, v r, (==_iff r s.next_ref).0 e))
  | inr e ↦ rw e (ground (arith, v r))
]

pub handle_okay-Inv : (own : ℕ) (s : OwnerMultiplexer) → Inv s → Inv (handle_okay own s)
unfolding handle_okay note put_stream writes okays
handle_okay-Inv own s v r = elim (Option-cases (lookup own s)) [
  | inl e ↦ rw (handle_okay, e) (v r)
  | inr (q, e) ↦
      rw (handle_okay, e)
        (elim (Bool-cases (r == q)) [
          | inl h ↦ rw h (ground (arith, v r))
          | inr h ↦ rw h (omega (arith, v r))
        ])
]

module _ (fails : ℕ → Bool) where
  pub call-Inv : (a : Action) (s : OwnerMultiplexer) → Neutral a → Inv s → Inv (call fails a s).0
  unfolding call note writes okays
  call-Inv a s neutral v r = omega (arith, v r, (neutral r).0, (neutral r).1)

  pub close_stream-Inv :
      (q : ℕ) (notify : Bool) (s : OwnerMultiplexer) → Inv s → Inv (close_stream fails q notify s)
  unfolding close_stream
  close_stream-Inv q notify s v =
      let x = s.store q in
      let s1 = put_stream q (record x { closed = true }) s in
      let v' =
        call-Inv (close_device q) s1 (λ _. (refl, refl))
          (put_stream-Inv q (record x { closed = true }) s refl v) in
      let s2 = (call fails (close_device q) s1).0 in
      let s3 : OwnerMultiplexer = record s2 {
        streams = adb_remote.Client.Multiplexer.delete_stream x.own_id s2.streams;
      } in
      either-Inv x.closed s _ v (
        either-Inv notify _ s3 (call-Inv (send_close x.own_id x.guest_id) s3 (λ _. (refl, refl)) v')
          v')
