-- ===== src/Client/Multiplexer/Streams.antt =====
-- What the single operations of client/relay/owner.go keep of the streams: the table leads to the open ones,
-- and a connection to the device was closed as often as its stream says.
use adb_remote.Prelude.{
  ℕ, ◌+◌, ◌≤◌, ◌<◌, ◌≡◌, refl, sym, ◌∙◌, ap, true, false, List, [], ◌∷◌, ◌==◌, if◌then◌else◌,
  Option, none, some, u32, ltb, Bool-cases, ==_iff, ==_refl, arith, inl, inr,
}
use adb_remote.Client.Multiplexer.{
  OwnerStream, OwnerMultiplexer, Action, open_stream, write_device, close_device, send_okay,
  send_write, send_close, got_okay, new_owner_multiplexer, find_stream, lookup, put_stream, note,
  handle_okay, add_stream, stopped,
}
use adb_remote.Client.Multiplexer.Flow.{bit}
use adb_remote.Client.Multiplexer.Table.{Entries, Entries-delete, Entries-same, find-delete_ne}

-- Whether an action closes the device's connection of the stream `r`.
abbrev pub is_closing : ℕ → Action → ℕ
is_closing r (close_device q) = bit (r == q)
is_closing r (open_stream _) = 0
is_closing r (write_device _ _) = 0
is_closing r (send_okay _ _) = 0
is_closing r (send_write _ _ _ _) = 0
is_closing r (send_close _ _) = 0
is_closing r (got_okay _) = 0

unfoldable pub closings : ℕ → List Action → ℕ
closings r [] = 0
closings r (a ∷ rest) = is_closing r a + closings r rest

-- Until 2^32 streams were opened, the ids are the references plus one and none is used again.
pub record Inv (s : OwnerMultiplexer) : Type 0 where
  pub entries : Entries s.store s.next_ref s.streams
  pub numbered : s.next_ref < 4294967296 → s.next_id ≡ s.next_ref
  pub owned : s.next_ref < 4294967296 → (r : ℕ) → r < s.next_ref → (s.store r).own_id ≡ r + 1
  pub found :
      s.next_ref < 4294967296
      → (r : ℕ) → r < s.next_ref
      → (s.store r).closed ≡ false
      → find_stream (r + 1) s.streams ≡ some r
  pub unopened : (r : ℕ) → s.next_ref ≤ r → (s.store r).closed ≡ true
  pub counted :
      (r : ℕ) → closings r s.trace ≡ (if ltb r s.next_ref then bit (s.store r).closed else 0)

pub new-Inv : Inv new_owner_multiplexer
unfolding new_owner_multiplexer closings Entries
new-Inv = record {
  entries = tt;
  numbered = λ _. refl;
  owned = λ _ r h. absurd (omega arith);
  found = λ _ r h. absurd (omega arith);
  unopened = λ r h. refl;
  counted = λ r. ground arith;
}

-- Anything but a closing of a device's connection may be added to the trace.
abbrev pub Other : Action → Type 0
Other a = (r : ℕ) → is_closing r a ≡ 0

pub note-Inv : (a : Action) (s : OwnerMultiplexer) → Other a → Inv s → Inv (note a s)
unfolding note closings
note-Inv a s other v = record {
  entries = v.entries;
  numbered = v.numbered;
  owned = v.owned;
  found = v.found;
  unopened = v.unopened;
  counted = λ r. omega (arith, other r, v.counted r);
}

pub put_stream-Inv :
    (q : ℕ) (x : OwnerStream) (s : OwnerMultiplexer)
    → x.own_id ≡ (s.store q).own_id
    → x.closed ≡ (s.store q).closed
    → Inv s
    → Inv (put_stream q x s)
unfolding put_stream
put_stream-Inv q x s own shut v =
    let same : (r : ℕ)
        → ((if r == q then x else s.store r).own_id ≡ (s.store r).own_id)
          × ((if r == q then x else s.store r).closed ≡ (s.store r).closed) =
      λ r. elim (Bool-cases (r == q)) [
        | inl e ↦ rw (e, (==_iff r q).0 e) (own, shut)
        | inr e ↦ rw e (refl, refl)
      ] in
    record {
      entries = Entries-same s.store _ s.next_ref s.streams same v.entries;
      numbered = v.numbered;
      owned = λ few r h. (same r).0 ∙ v.owned few r h;
      found = λ few r h live. v.found few r h (sym (same r).1 ∙ live);
      unopened = λ r h. (same r).1 ∙ v.unopened r h;
      counted = λ r. rw (same r).1 (v.counted r);
    }

pub add_stream-Inv : (guest : ℕ) (s : OwnerMultiplexer) → Inv s → Inv (add_stream guest s)
unfolding add_stream Entries find_stream
add_stream-Inv guest s v =
    let n = s.next_ref in
    let own = u32 (s.next_id + 1) in
    let x : OwnerStream = record {
      guest_id = guest;
      own_id = own;
      permit = true;
      closed = false;
      pump = stopped;
    } in
    let store' : ℕ → OwnerStream = λ q. if q == n then x else s.store q in
    let at : store' n ≡ x = rw (==_refl n) refl in
    let old : (q : ℕ) → q < n → store' q ≡ s.store q =
      λ q h. let other : (q == n) ≡ false = ground (arith, h) in rw other refl in
    let numbered : n + 1 < 4294967296 → own ≡ n + 1 =
      λ few. ground (arith, few, v.numbered (omega arith)) in
    record {
      entries = (
        ap (λ (y : OwnerStream). y.own_id) at,
        ap (λ (y : OwnerStream). y.closed) at,
        omega arith,
        Entries-delete s.store store' n (n + 1) own s.streams (omega arith) (λ q h _. old q h)
            v.entries,
      );
      numbered = numbered;
      owned = λ few r h. elim (Bool-cases (r == n)) [
        | inl e ↦ let same = (==_iff r n).0 e in rw e (numbered few ∙ ap (λ k. k + 1) (sym same))
        | inr e ↦ rw e (v.owned (omega arith) r (ground (arith, e, h)))
      ];
      found = λ few r h live. elim (Bool-cases (r == n)) [
        | inl e ↦
            let same = (==_iff r n).0 e in
            let mine : (own == r + 1) ≡ true = ground (arith, numbered few, same) in
            rw mine (ap some (sym same))
        | inr e ↦
            let other : (own == r + 1) ≡ false = ground (arith, numbered few, e) in
            let below : r < n = ground (arith, e, h) in
            let live' = ap (λ (y : OwnerStream). y.closed) (sym (old r below)) ∙ live in
            rw other
              (find-delete_ne (r + 1) own s.streams other ∙ v.found (omega arith) r below live')
      ];
      unopened = λ r h.
          let other : (r == n) ≡ false = ground (arith, h) in
          rw other (v.unopened r (omega (arith, h)));
      counted = λ r. elim (Bool-cases (r == n)) [
        | inl e ↦ rw e (ground (arith, v.counted r, (==_iff r n).0 e))
        | inr e ↦ rw e (ground (arith, v.counted r))
      ];
    }

pub handle_okay-Inv : (own : ℕ) (s : OwnerMultiplexer) → Inv s → Inv (handle_okay own s)
unfolding handle_okay
handle_okay-Inv own s v = go (lookup own s)
  where
    go :
        (o : Option ℕ)
        → Inv (elim o [
          | none ↦ s
          | some r ↦ note (got_okay r) (put_stream r (record (s.store r) { permit = true }) s)
        ])
    go none = v
    go (some r) =
        note-Inv (got_okay r) _ (λ _. refl)
          (put_stream-Inv r (record (s.store r) { permit = true }) s refl refl v)
