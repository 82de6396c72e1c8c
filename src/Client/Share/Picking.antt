-- ===== src/Client/Share/Picking.antt =====
-- Which device the user interface of client/tui/share.go picks, and how often.
use adb_remote.Prelude.{
  ascii, subst, ℕ, ◌+◌, ◌-◌, ◌≤◌, ◌<◌, ltb→lt, ◌==◌, ◌≡◌, refl, Bool, true, false, List, [], ◌∷◌,
  ◌++◌, length, Option, none, some, Error, Result, ok, err, panic, arith, ap, inl, inr, Bool-cases,
  zero, suc, length-append, length-drop, ltb,
}
use adb_remote.Client.SmartSocket.{Device}
use adb_remote.Client.OwnerEvent.{
  OwnerEvent, room_created, join_requested, join_decided, join_failed, guest_left,
}
use adb_remote.Client.Share.{
  ShareStage, loading_devices, select_device, connecting, room_active, session_ended, failed,
  ShareModel, Command, no_command, quit_program, tick_stats, Key, ctrl_c, key_y, key_n, key_up,
  key_k, key_down, key_j, key_r, key_enter, key_q, other_key, Message, window_size, transfer_tick,
  key_pressed, devices_loaded, client_identified, owner_event, join_request, share_error,
  session_timeout, new_share_model, append_activity, answer_prompt, device_at, cursor_up,
  cursor_down, pick_device, stage_key, handle_key, drop_prompt, handle_owner_event, update,
  is_ctrl_c, left_id, decision, connect_to, init, quit_on_q, is_q,
}
use adb_remote.Client.Share.Session.{
  Session, asks, answers_fetch, Possible, started, Follows, now, next,
}

-- Whether the list of devices can be picked from.
abbrev pub picking : ShareStage → ℕ
picking select_device = 1
picking loading_devices = 0
picking connecting = 0
picking room_active = 0
picking session_ended = 0
picking failed = 0

-- With `f` requests for the devices under way: there is at most one request, list to pick from or picked device,
-- the cursor is on a device if there is one, and the activity is no longer than the limit.
pub record Sound (f : ℕ) (m : ShareModel) : Type 0 where
  pub once : f + (picking m.stage + length m.selected) ≤ 1
  pub cursor : m.cursor ≤ length m.devices - 1
  pub short : length m.activity ≤ 10

-- The outcome is no panic, and is sound again.
pub Kept : ℕ → Result (ShareModel × Command) → Type 0
Kept f (ok (m, c)) = Sound (f + asks c) m
Kept f (err e) = ⊥
Kept f panic = ⊥

append_activity-Sound :
    (f : ℕ) (line : List ℕ) (m : ShareModel) → Sound f m → Sound f (append_activity line m)
unfolding append_activity
append_activity-Sound f line m h = record {
  once = h.once;
  cursor = h.cursor;
  short = ground (
    arith,
    h.short,
    length-append m.activity (line ∷ []),
    length-drop (length (m.activity ++ (line ∷ [])) - 10) (m.activity ++ (line ∷ [])),
  );
}

device_at-Kept :
    (f : ℕ) (m : ShareModel) (n : ℕ) (ds : List Device)
    → Sound f m
    → picking m.stage ≡ 1
    → n < length ds
    → Kept f (connect_to m (device_at n ds))
unfolding Kept device_at
device_at-Kept f m n [] h at inside = omega arith
device_at-Kept f m zero (d ∷ ds) h at inside = record {
  once = omega (arith, at, h.once);
  cursor = h.cursor;
  short = h.short;
}
device_at-Kept f m (suc n) (d ∷ ds) h at inside = device_at-Kept f m n ds h at (omega arith)

same-Kept : (f : ℕ) (m : ShareModel) (c : Command) → asks c ≡ 0 → Sound f m → Kept f (ok (m, c))
unfolding Kept
same-Kept f m c none' h = record {
  once = omega (arith, h.once);
  cursor = h.cursor;
  short = h.short;
}

cursor_up-Sound : (f : ℕ) (m : ShareModel) → Sound f m → Sound f (cursor_up m)
unfolding cursor_up
cursor_up-Sound f m h = elim (Bool-cases (ltb 0 m.cursor)) [
  | inl e ↦ rw e (record { once = h.once; cursor = omega (arith, h.cursor); short = h.short })
  | inr e ↦ rw e h
]

cursor_down-Sound : (f : ℕ) (m : ShareModel) → Sound f m → Sound f (cursor_down m)
unfolding cursor_down
cursor_down-Sound f m h = elim (Bool-cases (ltb (m.cursor + 1) (length m.devices))) [
  | inl e ↦ rw e (record {
    once = h.once;
    cursor = omega (arith, ltb→lt (m.cursor + 1) (length m.devices) e);
    short = h.short;
  })
  | inr e ↦ rw e h
]

pick_device-Kept :
    (f : ℕ) (k : Key) (m : ShareModel) → Sound f m → picking m.stage ≡ 1 → Kept f (pick_device k m)
unfolding pick_device
pick_device-Kept f key_up m h at = same-Kept f (cursor_up m) no_command refl (cursor_up-Sound f m h)
pick_device-Kept f key_k m h at = same-Kept f (cursor_up m) no_command refl (cursor_up-Sound f m h)
pick_device-Kept f key_down m h at =
    same-Kept f (cursor_down m) no_command refl (cursor_down-Sound f m h)
pick_device-Kept f key_j m h at =
    same-Kept f (cursor_down m) no_command refl (cursor_down-Sound f m h)
pick_device-Kept f key_r m h at =
    unfold Kept in record { once = omega (arith, at, h.once); cursor = h.cursor; short = h.short }
pick_device-Kept f key_enter m h at = elim (Bool-cases (length m.devices == 0)) [
  | inl e ↦ rw e (same-Kept f m no_command refl h)
  | inr e ↦ rw e (device_at-Kept f m m.cursor m.devices h at (ground (arith, e, h.cursor)))
]
pick_device-Kept f key_q m h at = same-Kept f m quit_program refl h
pick_device-Kept f ctrl_c m h at = same-Kept f m no_command refl h
pick_device-Kept f key_y m h at = same-Kept f m no_command refl h
pick_device-Kept f key_n m h at = same-Kept f m no_command refl h
pick_device-Kept f other_key m h at = same-Kept f m no_command refl h

quit_on_q-Kept : (f : ℕ) (k : Key) (m : ShareModel) → Sound f m → Kept f (quit_on_q k m)
quit_on_q-Kept f k m h = elim (Bool-cases (is_q k)) [
  | inl e ↦ rw e (same-Kept f m quit_program refl h)
  | inr e ↦ rw e (same-Kept f m no_command refl h)
]

stage_key-Kept :
    (f : ℕ) (stage : ShareStage) (k : Key) (m : ShareModel)
    → Sound f m
    → m.stage ≡ stage
    → Kept f (stage_key stage k m)
unfolding stage_key
stage_key-Kept f select_device k m h at = pick_device-Kept f k m h (ap picking at)
stage_key-Kept f room_active k m h at = quit_on_q-Kept f k m h
stage_key-Kept f failed k m h at = quit_on_q-Kept f k m h
stage_key-Kept f loading_devices k m h at = quit_on_q-Kept f k m h
stage_key-Kept f connecting k m h at = quit_on_q-Kept f k m h
stage_key-Kept f session_ended k m h at = same-Kept f m no_command refl h

answer_prompt-Sound :
    (f ref : ℕ) (d : Option Bool) (m : ShareModel) → Sound f m → Sound f (answer_prompt ref d m)
unfolding answer_prompt
answer_prompt-Sound f ref none m h = h
answer_prompt-Sound f ref (some a) m h = record {
  once = h.once;
  cursor = h.cursor;
  short = h.short;
}

handle_key-Kept : (f : ℕ) (k : Key) (m : ShareModel) → Sound f m → Kept f (handle_key k m)
unfolding handle_key
handle_key-Kept f k m h = elim (Bool-cases (is_ctrl_c k)) [
  | inl e ↦ rw e (same-Kept f m quit_program refl h)
  | inr e ↦ rw e (prompted m.pending_respond)
]
  where
    prompted :
        (p : Option ℕ)
        → Kept f (elim p [
          | some ref ↦ ok (answer_prompt ref (decision k) m, no_command)
          | none ↦ stage_key m.stage k m
        ])
    prompted (some ref) =
        same-Kept f (answer_prompt ref (decision k) m) no_command refl
          (answer_prompt-Sound f ref (decision k) m h)
    prompted none = stage_key-Kept f m.stage k m h refl

drop_prompt-Sound : (f : ℕ) (p : Option ℕ) (m : ShareModel) → Sound f m → Sound f (drop_prompt p m)
unfolding drop_prompt
drop_prompt-Sound f none m h = h
drop_prompt-Sound f (some ref) m h = record { once = h.once; cursor = h.cursor; short = h.short }

module _ (fingerprint : List ℕ → List ℕ) (error_text : Error → List ℕ) where
  handle_owner_event-Sound :
      (f : ℕ) (e : OwnerEvent) (m : ShareModel)
      → Sound f m
      → Sound f (handle_owner_event fingerprint error_text e m)
  unfolding handle_owner_event
  handle_owner_event-Sound f (room_created id) m h = record {
    once = omega (arith, h.once);
    cursor = h.cursor;
    short = h.short;
  }
  handle_owner_event-Sound f (join_requested guest key) m h = append_activity-Sound f _ m h
  handle_owner_event-Sound f (join_decided guest key true) m h =
      append_activity-Sound f _ _ (record { once = h.once; cursor = h.cursor; short = h.short })
  handle_owner_event-Sound f (join_decided guest key false) m h = append_activity-Sound f _ m h
  handle_owner_event-Sound f (join_failed guest e) m h = append_activity-Sound f _ m h
  handle_owner_event-Sound f guest_left m h =
      let line = ascii "clientId " ++ left_id m ++ ascii ": disconnected" in
      let m' = append_activity line m in
      let h' = append_activity-Sound f line m h in
      let h3 =
        drop_prompt-Sound f m'.pending_respond
          (record m' { connected_guest_id = []; connected_guest_fingerprint = [] })
          (record { once = h'.once; cursor = h'.cursor; short = h'.short }) in
      record { once = h3.once; cursor = h3.cursor; short = h3.short }

  unasked : (f : ℕ) (r : Result (ShareModel × Command)) → Kept f r → Kept (f - 0) r
  unasked f r h = subst (λ (n : ℕ). Kept n r) (omega arith) h

  update-Kept :
      (f : ℕ) (msg : Message) (m : ShareModel)
      → answers_fetch msg ≤ f
      → Sound f m
      → Kept (f - answers_fetch msg) (update fingerprint error_text msg m)
  unfolding update
  update-Kept f (window_size w t) m _ h =
      unfold Kept in record { once = omega (arith, h.once); cursor = h.cursor; short = h.short }
  update-Kept f transfer_tick m _ h = unasked f _ (same-Kept f m tick_stats refl h)
  update-Kept f (key_pressed k) m _ h = unasked f _ (handle_key-Kept f k m h)
  update-Kept f (devices_loaded ds e) m asked h =
      unfold Kept in
      record { once = omega (arith, h.once, asked); cursor = ground arith; short = h.short }
  update-Kept f (client_identified id) m _ h =
      unfold Kept in record { once = omega (arith, h.once); cursor = h.cursor; short = h.short }
  update-Kept f (owner_event e) m _ h =
      unasked f _ (same-Kept f _ no_command refl (handle_owner_event-Sound f e m h))
  update-Kept f (join_request guest print ref) m _ h =
      unfold Kept in record { once = omega (arith, h.once); cursor = h.cursor; short = h.short }
  update-Kept f (share_error e) m _ h =
      unfold Kept in record { once = omega (arith, h.once); cursor = h.cursor; short = h.short }
  update-Kept f session_timeout m _ h =
      unfold Kept in record { once = omega (arith, h.once); cursor = h.cursor; short = h.short }

  Possible-answers_fetch :
      (msg : Message) (s : Session) → Possible msg s → answers_fetch msg ≤ s.fetching
  unfolding Possible
  Possible-answers_fetch (devices_loaded ds e) s p = p
  Possible-answers_fetch (window_size w t) s p = omega arith
  Possible-answers_fetch transfer_tick s p = omega arith
  Possible-answers_fetch (key_pressed k) s p = omega arith
  Possible-answers_fetch (client_identified id) s p = omega arith
  Possible-answers_fetch (owner_event e) s p = omega arith
  Possible-answers_fetch (join_request guest print ref) s p = omega arith
  Possible-answers_fetch (share_error e) s p = omega arith
  Possible-answers_fetch session_timeout s p = omega arith

  Kept-ok :
      (f : ℕ) (x : ShareModel × Command) (r : Result (ShareModel × Command))
      → r ≡ ok x
      → Kept f r
      → Sound (f + asks x.1) x.0
  Kept-ok f x r e h = unfold Kept in subst (Kept f) e h

  Follows-Sound :
      (s s' : Session)
      → Sound s.fetching s.model
      → Follows fingerprint error_text s s'
      → Sound s'.fetching s'.model
  Follows-Sound s _ h now = h
  Follows-Sound s _ h (next s' msg x before possible e) =
      Kept-ok (s'.fetching - answers_fetch msg) x _ e (
        update-Kept s'.fetching msg s'.model (Possible-answers_fetch msg s' possible)
          (Follows-Sound s s' h before))

  started-Sound :
      (preset : List ℕ) (auto : Bool) (own : List ℕ)
      → Sound (started preset auto own).fetching (started preset auto own).model
  unfolding new_share_model init
  started-Sound preset auto own = elim (Bool-cases (length preset == 0)) [
    | inl e ↦ rw e (record { once = omega arith; cursor = omega arith; short = omega arith })
    | inr e ↦ rw e (record { once = omega arith; cursor = omega arith; short = omega arith })
  ]

  succeeded :
      (f : ℕ) (r : Result (ShareModel × Command))
      → Kept f r
      → (x : ShareModel × Command) × (r ≡ ok x)
  unfolding Kept
  succeeded f (ok x) k = (x, refl)
  succeeded f (err e) k = absurd k
  succeeded f panic k = absurd k

  -- However a session of the `share` command goes on, one device at most is sent on `selectedDevice`, so that
  -- the send never blocks; the activity has at most ten lines; and the next message makes
  -- `Update` neither index the devices out of range nor fail.
  pub picks_once :
      (preset : List ℕ) (auto : Bool) (own : List ℕ) (s : Session) (msg : Message)
      → Follows fingerprint error_text (started preset auto own) s
      → Possible msg s
      → (length s.model.selected ≤ 1)
        × (length s.model.activity ≤ 10)
        × ((x : ShareModel × Command) × (update fingerprint error_text msg s.model ≡ ok x))
  picks_once preset auto own s msg run possible =
      let h = Follows-Sound (started preset auto own) s (started-Sound preset auto own) run in
      let kept = update-Kept s.fetching msg s.model (Possible-answers_fetch msg s possible) h in
      (omega (arith, h.once), h.short, succeeded (s.fetching - answers_fetch msg) _ kept)
