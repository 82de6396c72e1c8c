-- ===== src/Client/Share/Answers.antt =====
-- The answers that join requests get in client/tui/share.go.
use adb_remote.Prelude.{ℕ, ◌+◌, ◌≡◌, refl, Bool, List, some, Error, ok, arith}
use adb_remote.Client.Share.{ShareModel, join_request, new_share_model, update, no_command}
use adb_remote.Client.Share.Session.{Session, prompted_with, opens, started, Follows, now, next}
use adb_remote.Client.Share.Prompts.{
  Change, Fresh, Forgotten, Absent, Unique, Below, update-Changed, Changed-ok, Change-Fresh,
  Change-Forgotten, none_is_not_some, some-injective,
}

module _ (fingerprint : List ℕ → List ℕ) (error_text : Error → List ℕ) where
  Follows-preserves :
      (P : ℕ → ShareModel → Type 0)
      → ((n k : ℕ) (m m' : ShareModel) → Change n m m' k → P n m → P (n + k) m')
      → (s s' : Session) → P s.next_channel s.model
      → Follows fingerprint error_text s s'
      → P s'.next_channel s'.model
  Follows-preserves P step s _ h now = h
  Follows-preserves P step s _ h (next s' msg x before possible e) =
      let change =
        Changed-ok fingerprint error_text s'.next_channel (opens msg) s'.model x _ e
          (update-Changed fingerprint error_text msg s' possible) in
      step s'.next_channel (opens msg) s'.model x.0 change (Follows-preserves P step s s' h before)

  started-Fresh :
      (preset : List ℕ) (auto : Bool) (own : List ℕ) → Fresh 0 (started preset auto own).model
  unfolding new_share_model Below Unique
  started-Fresh preset auto own = record {
    open_prompt = λ ref e. absurd (none_is_not_some e);
    below = tt;
    unique = tt;
  }

  pub Follows-Fresh :
      (preset : List ℕ) (auto : Bool) (own : List ℕ) (s : Session)
      → Follows fingerprint error_text (started preset auto own) s
      → Fresh s.next_channel s.model
  Follows-Fresh preset auto own s run =
      Follows-preserves Fresh Change-Fresh (started preset auto own) s
        (started-Fresh preset auto own) run

  -- However a session of the `share` command goes on, the channel of a join request is sent one answer at
  -- most, which its buffer holds: by a key, or when the guest leaves. A request whose prompt is on the
  -- screen has had no answer.
  pub answers_once :
      (preset : List ℕ) (auto : Bool) (own : List ℕ) (s : Session)
      → Follows fingerprint error_text (started preset auto own) s
      → Unique s.model.answered
        × ((ref : ℕ) → s.model.pending_respond ≡ some ref → Absent ref s.model.answered)
  answers_once preset auto own s run =
      let h = Follows-Fresh preset auto own s run in (h.unique, λ ref e. (h.open_prompt ref e).1)

  replaced :
      (ref : ℕ) (guest print : List ℕ) (s : Session)
      → Fresh s.next_channel s.model
      → s.model.pending_respond ≡ some ref
      → Forgotten ref (s.next_channel + 1) (prompted_with guest print s).model
  replaced ref guest print s h pending =
      let (below, absent) = h.open_prompt ref pending in
      record {
        gone = λ e. let same = some-injective e in omega (arith, same, below);
        absent = absent;
        past = omega (arith, below);
      }

  -- A second join request that arrives while a prompt is on the screen is shown in its place, and the first
  -- request is never answered, however the session goes on.
  pub replaced_prompt_starves :
      (preset : List ℕ) (auto : Bool) (own : List ℕ) (s s' : Session) (guest print : List ℕ)
      (ref : ℕ)
      → Follows fingerprint error_text (started preset auto own) s
      → s.model.pending_respond ≡ some ref
      → Follows fingerprint error_text (prompted_with guest print s) s'
      → (update fingerprint error_text (join_request guest print s.next_channel) s.model
          ≡ ok ((prompted_with guest print s).model, no_command))
        × Absent ref s'.model.answered
  unfolding update
  replaced_prompt_starves preset auto own s s' guest print ref run pending later =
      let h = Follows-Fresh preset auto own s run in
      let shown = prompted_with guest print s in
      let forgotten =
        Follows-preserves (Forgotten ref) (Change-Forgotten ref) shown s'
          (replaced ref guest print s h pending) later in
      (refl, forgotten.absent)
