-- ===== src/Client/Share/Shown.antt =====
-- What the operator is shown of a join request, and what a key answers (client/tui/share.go).
use adb_remote.Prelude.{ℕ, ◌≡◌, refl, true, false, List, ◌∷◌, ◌++◌, some, Error, ascii, ok}
use adb_remote.Client.Screen.Styles.{
  Style, prompt_style, label_style, em_dash, Shows, Shows-self, Shows-before, Shows-after,
  Shows-trans, Shows-first, Shows-next, printable, printable-++, KeepsText,
}
use adb_remote.Client.Share.{
  ShareModel, no_command, room_active, join_request, key_pressed, key_y, key_n, update, handle_key,
  answer_prompt,
}
use adb_remote.Client.Share.View.{guest_view, room_view, stage_view, body_view}

module _ (render : Style → List ℕ → List ℕ) (error_text : Error → List ℕ)
    (fingerprint : List ℕ → List ℕ) (keeps : KeepsText render) where
  -- The line that asks the operator.
  prompt-printable :
      (id : List ℕ)
      → printable id ≡ true
      → printable (
          ascii "Join request from clientId: "
          ++ id
          ++ ascii " "
          ++ em_dash
          ++ ascii " accept? [y/n]")
        ≡ true
  unfolding printable
  prompt-printable id clean =
      let start = ascii "Join request from clientId: " in
      let asked = printable-++ start id refl clean in
      let spaced = printable-++ (start ++ id) (ascii " ") asked refl in
      let dashed = printable-++ (start ++ id ++ ascii " ") em_dash spaced refl in
      printable-++ (start ++ id ++ ascii " " ++ em_dash) (ascii " accept? [y/n]") dashed refl

  -- The prompt's part of the screen.
  guest_shown :
      (ref : ℕ) (m : ShareModel)
      → printable m.pending_guest_id ≡ true
      → Shows m.pending_guest_id (guest_view render error_text (some ref) m)
        × Shows m.pending_fingerprint (guest_view render error_text (some ref) m)
  unfolding guest_view KeepsText
  guest_shown ref m clean =
      let id = m.pending_guest_id in
      let print = m.pending_fingerprint in
      let asked = Shows-before id _ (ascii " accept? [y/n]") (
        Shows-before id _ em_dash (
          Shows-before id _ (ascii " ")
            (Shows-after id (ascii "Join request from clientId: ") id (Shows-self id)))) in
      (
        Shows-first id _ _ (
            Shows-before id _ _
              (Shows-trans id _ _ asked (keeps prompt_style _ (prompt-printable id clean)))),
        Shows-next print _ _ (
            Shows-first print _ _ (
              Shows-before print _ _ (
                Shows-after print (render label_style (ascii "  Guest fingerprint: ")) print
                  (Shows-self print)))),
      )

  -- A part of the screen behind the title and the three lines on the own client and the room.
  room_shown :
      (x : List ℕ) (ref : ℕ) (m : ShareModel)
      → m.stage ≡ room_active
      → m.pending_respond ≡ some ref
      → Shows x (guest_view render error_text (some ref) m)
      → Shows x (body_view render error_text m)
  unfolding body_view stage_view room_view
  room_shown x ref m at pending h =
      rw (at, stage_view, pending)
        (Shows-after x _ _
          (Shows-next x _ _ (Shows-next x _ _ (Shows-next x _ _ (Shows-first x _ _ h)))))

  -- A join request that reaches the room's screen replaces the prompt. When the guest's id has no control
  -- bytes, and the styles put escapes around such a text without changing it, the body of the screen has the
  -- guest's id and the fingerprint that came with it; the keys "y" and "n" then answer that request, and no
  -- other.
  pub prompt_shown :
      (guest print : List ℕ) (ref : ℕ) (m : ShareModel)
      → printable guest ≡ true
      → m.stage ≡ room_active
      → (shown yes no : ShareModel) × (update fingerprint error_text
            (join_request guest print ref)
            m
          ≡ ok (shown, no_command))
        × Shows guest (body_view render error_text shown)
        × Shows print (body_view render error_text shown)
        × (update fingerprint error_text (key_pressed key_y) shown ≡ ok (yes, no_command))
        × (update fingerprint error_text (key_pressed key_n) shown ≡ ok (no, no_command))
        × (yes.answered ≡ (ref, true) ∷ m.answered)
        × (no.answered ≡ (ref, false) ∷ m.answered)
  unfolding update handle_key answer_prompt
  prompt_shown guest print ref m clean at =
      let shown : ShareModel = record m {
        pending_guest_id = guest;
        pending_fingerprint = print;
        pending_respond = some ref;
      } in
      let (id, key) = guest_shown ref shown clean in
      (
        shown,
        answer_prompt ref (some true) shown,
        answer_prompt ref (some false) shown,
        refl,
        room_shown guest ref shown at refl id,
        room_shown print ref shown at refl key,
        refl,
        refl,
        refl,
        refl,
      )
