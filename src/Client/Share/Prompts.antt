-- ===== src/Client/Share/Prompts.antt =====
-- What the channels of the join requests are sent in client/tui/share.go.
use adb_remote.Prelude.{
  subst, ℕ, ◌+◌, ◌≤◌, ◌<◌, ◌≢◌, sym, ◌∙◌, ◌==◌, ◌≡◌, refl, Bool, true, false, List, [], ◌∷◌, length,
  Option, none, some, Error, Result, ok, err, panic, arith, ap, inl, inr, Bool-cases, zero, suc,
  ltb,
}
use adb_remote.Client.SmartSocket.{Device}
use adb_remote.Client.OwnerEvent.{
  OwnerEvent, room_created, join_requested, join_decided, join_failed, guest_left,
}
use adb_remote.Client.Share.{
  ShareStage, loading_devices, select_device, connecting, room_active, session_ended, failed,
  ShareModel, Command, no_command, quit_program, Key, ctrl_c, key_y, key_n, key_up, key_k, key_down,
  key_j, key_r, key_enter, key_q, other_key, Message, window_size, transfer_tick, key_pressed,
  devices_loaded, client_identified, owner_event, join_request, share_error, session_timeout,
  append_activity, answer_prompt, device_at, cursor_up, cursor_down, pick_device, stage_key,
  handle_key, drop_prompt, handle_owner_event, update, is_ctrl_c, decision, connect_to,
}
use adb_remote.Client.Share.Session.{Session, opens, Possible}

-- What a message does to the pending prompt and to the answers: nothing, an answer to the pending prompt, or a
-- new prompt.
pub data Change (n : ℕ) (m m' : ShareModel) : ℕ → Type 0 where
  kept : m'.pending_respond ≡ m.pending_respond → m'.answered ≡ m.answered → Change n m m' 0
  answered_one :
      (ref : ℕ) (accepted : Bool)
      → m.pending_respond ≡ some ref
      → m'.pending_respond ≡ none
      → m'.answered ≡ (ref, accepted) ∷ m.answered
      → Change n m m' 0
  prompted : m'.pending_respond ≡ some n → m'.answered ≡ m.answered → Change n m m' 1

pub Changed : ℕ → ShareModel → ℕ → Result (ShareModel × Command) → Type 0
Changed n m k (ok (m', c)) = Change n m m' k
Changed n m k (err e) = Unit
Changed n m k panic = Unit

unchanged :
    (n : ℕ) (m m' : ShareModel) (c : Command)
    → m'.pending_respond ≡ m.pending_respond
    → m'.answered ≡ m.answered
    → Changed n m 0 (ok (m', c))
unfolding Changed
unchanged n m m' c e e' = kept e e'

device_at-Changed :
    (n : ℕ) (m : ShareModel) (k : ℕ) (ds : List Device)
    → Changed n m 0 (connect_to m (device_at k ds))
unfolding Changed device_at
device_at-Changed n m k [] = tt
device_at-Changed n m zero (d ∷ ds) = kept refl refl
device_at-Changed n m (suc k) (d ∷ ds) = device_at-Changed n m k ds

cursor_up-Change : (n : ℕ) (m : ShareModel) → Change n m (cursor_up m) 0
unfolding cursor_up
cursor_up-Change n m = elim (Bool-cases (ltb 0 m.cursor)) [
  | inl e ↦ rw e (kept refl refl)
  | inr e ↦ rw e (kept refl refl)
]

cursor_down-Change : (n : ℕ) (m : ShareModel) → Change n m (cursor_down m) 0
unfolding cursor_down
cursor_down-Change n m = elim (Bool-cases (ltb (m.cursor + 1) (length m.devices))) [
  | inl e ↦ rw e (kept refl refl)
  | inr e ↦ rw e (kept refl refl)
]

pick_device-Changed : (n : ℕ) (k : Key) (m : ShareModel) → Changed n m 0 (pick_device k m)
unfolding pick_device Changed
pick_device-Changed n key_up m = cursor_up-Change n m
pick_device-Changed n key_k m = cursor_up-Change n m
pick_device-Changed n key_down m = cursor_down-Change n m
pick_device-Changed n key_j m = cursor_down-Change n m
pick_device-Changed n key_r m = kept refl refl
pick_device-Changed n key_enter m = elim (Bool-cases (length m.devices == 0)) [
  | inl e ↦ rw e (kept refl refl)
  | inr e ↦ rw e (device_at-Changed n m m.cursor m.devices)
]
pick_device-Changed n key_q m = kept refl refl
pick_device-Changed n ctrl_c m = kept refl refl
pick_device-Changed n key_y m = kept refl refl
pick_device-Changed n key_n m = kept refl refl
pick_device-Changed n other_key m = kept refl refl

stage_key-Changed :
    (n : ℕ) (stage : ShareStage) (k : Key) (m : ShareModel) → Changed n m 0 (stage_key stage k m)
unfolding stage_key
stage_key-Changed n select_device k m = pick_device-Changed n k m
stage_key-Changed n room_active k m = unchanged n m m _ refl refl
stage_key-Changed n failed k m = unchanged n m m _ refl refl
stage_key-Changed n loading_devices k m = unchanged n m m _ refl refl
stage_key-Changed n connecting k m = unchanged n m m _ refl refl
stage_key-Changed n session_ended k m = unchanged n m m _ refl refl

answer_prompt-Change :
    (n ref : ℕ) (d : Option Bool) (m : ShareModel)
    → m.pending_respond ≡ some ref
    → Change n m (answer_prompt ref d m) 0
unfolding answer_prompt
answer_prompt-Change n ref none m e = kept refl refl
answer_prompt-Change n ref (some a) m e = answered_one ref a e refl refl

handle_key-Changed : (n : ℕ) (k : Key) (m : ShareModel) → Changed n m 0 (handle_key k m)
unfolding handle_key
handle_key-Changed n k m = elim (Bool-cases (is_ctrl_c k)) [
  | inl e ↦ rw e (unchanged n m m quit_program refl refl)
  | inr e ↦ rw e (by_prompt m.pending_respond refl)
]
  where
    by_prompt :
        (p : Option ℕ)
        → m.pending_respond ≡ p
        → Changed n m 0 (elim p [
          | some ref ↦ ok (answer_prompt ref (decision k) m, no_command)
          | none ↦ stage_key m.stage k m
        ])
    by_prompt (some ref) e = unfold Changed in answer_prompt-Change n ref (decision k) m e
    by_prompt none e = stage_key-Changed n m.stage k m

drop_prompt-Change :
    (n : ℕ) (p : Option ℕ) (m m' : ShareModel)
    → m.pending_respond ≡ p
    → m'.answered ≡ m.answered
    → let left = drop_prompt p m' in
      Change n m
        (record left { pending_guest_id = []; pending_fingerprint = []; pending_respond = none })
        0
unfolding drop_prompt
drop_prompt-Change n none m m' e same = kept (sym e) same
drop_prompt-Change n (some ref) m m' e same =
    answered_one ref false e refl (ap (λ (a : List (ℕ × Bool)). (ref, false) ∷ a) same)

module _ (fingerprint : List ℕ → List ℕ) (error_text : Error → List ℕ) where
  handle_owner_event-Change :
      (n : ℕ) (e : OwnerEvent) (m : ShareModel)
      → Change n m (handle_owner_event fingerprint error_text e m) 0
  unfolding handle_owner_event append_activity
  handle_owner_event-Change n (room_created id) m = kept refl refl
  handle_owner_event-Change n (join_requested guest key) m = kept refl refl
  handle_owner_event-Change n (join_decided guest key true) m = kept refl refl
  handle_owner_event-Change n (join_decided guest key false) m = kept refl refl
  handle_owner_event-Change n (join_failed guest e) m = kept refl refl
  handle_owner_event-Change n guest_left m = drop_prompt-Change n m.pending_respond m _ refl refl

  pub update-Changed :
      (msg : Message) (s : Session)
      → Possible msg s
      → Changed s.next_channel s.model (opens msg) (update fingerprint error_text msg s.model)
  unfolding update Possible
  update-Changed (window_size w t) s p = unfold Changed in kept refl refl
  update-Changed transfer_tick s p = unfold Changed in kept refl refl
  update-Changed (key_pressed k) s p = handle_key-Changed s.next_channel k s.model
  update-Changed (devices_loaded ds e) s p = unfold Changed in kept refl refl
  update-Changed (client_identified id) s p = unfold Changed in kept refl refl
  update-Changed (owner_event e) s p =
      unfold Changed in handle_owner_event-Change s.next_channel e s.model
  update-Changed (join_request guest print ref) s p =
      unfold Changed in prompted (ap (λ (r : ℕ). some r) p) refl
  update-Changed (share_error e) s p = unfold Changed in kept refl refl
  update-Changed session_timeout s p = unfold Changed in kept refl refl

  pub Changed-ok :
      (n k : ℕ) (m : ShareModel) (x : ShareModel × Command) (r : Result (ShareModel × Command))
      → r ≡ ok x
      → Changed n m k r
      → Change n m x.0 k
  Changed-ok n k m x r e h = unfold Changed in subst (Changed n m k) e h

-- No answer in the list is for `ref`.
pub Absent : ℕ → List (ℕ × Bool) → Type 0
Absent ref [] = Unit
Absent ref ((q, _) ∷ rest) = (q ≢ ref) × Absent ref rest

-- Every channel has one answer at most.
unfoldable pub Unique : List (ℕ × Bool) → Type 0
Unique [] = Unit
Unique ((q, _) ∷ rest) = Absent q rest × Unique rest

unfoldable pub Below : ℕ → List (ℕ × Bool) → Type 0
Below n [] = Unit
Below n ((q, _) ∷ rest) = (q < n) × Below n rest

Below-mono : (n n' : ℕ) (xs : List (ℕ × Bool)) → n ≤ n' → Below n xs → Below n' xs
unfolding Below
Below-mono n n' [] le h = tt
Below-mono n n' ((q, b) ∷ rest) le (h, hs) = (omega arith, Below-mono n n' rest le hs)

Below-Absent : (n : ℕ) (xs : List (ℕ × Bool)) → Below n xs → Absent n xs
unfolding Below Absent
Below-Absent n [] h = tt
Below-Absent n ((q, b) ∷ rest) (h, hs) = (ground arith, Below-Absent n rest hs)

pub record Fresh (n : ℕ) (m : ShareModel) : Type 0 where
  pub open_prompt : (ref : ℕ) → m.pending_respond ≡ some ref → (ref < n) × Absent ref m.answered
  pub below : Below n m.answered
  pub unique : Unique m.answered

pub none_is_not_some : {a : ℕ} → none ≢ some a
none_is_not_some e = cc

pub some-injective : {a b : ℕ} → some a ≡ some b → a ≡ b
some-injective {a = a} e = ap (λ (o : Option ℕ). elim o [ none ↦ a | some x ↦ x ]) e

pub Change-Fresh : (n k : ℕ) (m m' : ShareModel) → Change n m m' k → Fresh n m → Fresh (n + k) m'
Change-Fresh n _ m m' (kept p a) h = record {
  open_prompt =
      λ ref e. let (l, absent) = h.open_prompt ref (sym p ∙ e) in (omega arith, rw a absent);
  below = rw a (Below-mono n (n + 0) m.answered (omega arith) h.below);
  unique = rw a h.unique;
}
Change-Fresh n _ m m' (answered_one ref accepted p p' a) h =
    let (l, absent) = h.open_prompt ref p in
    record {
      open_prompt = λ ref' e. absurd (none_is_not_some (sym p' ∙ e));
      below =
          rw a
            (unfold Below in (omega arith, Below-mono n (n + 0) m.answered (omega arith) h.below));
      unique = rw a (unfold Unique in (absent, h.unique));
    }
Change-Fresh n _ m m' (prompted p a) h = record {
  open_prompt = λ ref e.
      let same = some-injective (sym p ∙ e) in
      (omega arith, rw (a, ← same) (Below-Absent n m.answered h.below));
  below = rw a (Below-mono n (n + 1) m.answered (omega arith) h.below);
  unique = rw a h.unique;
}

-- The prompt for `ref` is not on the screen, and was not answered.
pub record Forgotten (ref n : ℕ) (m : ShareModel) : Type 0 where
  pub gone : m.pending_respond ≢ some ref
  pub absent : Absent ref m.answered
  pub past : ref < n

pub Change-Forgotten :
    (ref n k : ℕ) (m m' : ShareModel)
    → Change n m m' k
    → Forgotten ref n m
    → Forgotten ref (n + k) m'
Change-Forgotten ref n _ m m' (kept p a) h = record {
  gone = λ e. h.gone (sym p ∙ e);
  absent = rw a h.absent;
  past = omega (arith, h.past);
}
Change-Forgotten ref n _ m m' (answered_one q accepted p p' a) h = record {
  gone = λ e. none_is_not_some (sym p' ∙ e);
  absent = rw a (unfold Absent in (λ same. h.gone (p ∙ ap (λ (r : ℕ). some r) same), h.absent));
  past = omega (arith, h.past);
}
Change-Forgotten ref n _ m m' (prompted p a) h = record {
  gone = λ e. let same = some-injective (sym p ∙ e) in omega (arith, same, h.past);
  absent = rw a h.absent;
  past = omega (arith, h.past);
}
