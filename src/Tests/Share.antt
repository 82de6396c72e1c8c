-- ===== src/Tests/Share.antt =====
-- The user interface of the `share` command at concrete messages.
use adb_remote.Prelude.{
  ℕ, ◌+◌, ◌++◌, ltb, if◌then◌else◌, true, ◌≤◌, ◌≡◌, refl, false, List, [], ◌∷◌, length, ascii,
  arith, none, some, Error, ok, sym, append_assoc,
}
use adb_remote.Client.Controller.{join_decided, proxy_ready}
use adb_remote.Client.Screen.{dashes, layout_with_footer}
use adb_remote.Client.Screen.Styles.{Style, dim_style, Shows, printable, KeepsText}
use adb_remote.Client.Screen.Height.{newlines, line_count, layout_height}
use adb_remote.Client.Connect.{guest_event, new_connect_model}
use adb_remote.Client.Connect.View as Connect
use adb_remote.Client.Connect.Shown.{updates, AllUndecided, Undecided, owner_stays_shown}
use adb_remote.Client.Share.View as Share
use adb_remote.Client.Share.Shown.{prompt_shown}
use adb_remote.Client.Share.{
  ShareModel, Command, key_pressed, key_y, key_n, room_active, no_command, Message, join_request,
  devices_loaded, new_share_model, update,
}
use adb_remote.Client.Share.Session.{Session, Possible, started, prompted_with, Follows, now, next}
use adb_remote.Client.Share.Prompts.{Absent, Unique}
use adb_remote.Client.Share.Picking.{picks_once}
use adb_remote.Client.Share.Answers.{answers_once, replaced_prompt_starves}

abbrev print : List ℕ → List ℕ
print key = key

abbrev shown : Error → List ℕ
shown e = []

-- The command without a device, and with one and a join request.
abbrev fresh : Session
fresh = started [] false (ascii "SHA256:x")

abbrev asking : Session
asking = prompted_with (ascii "QNZQ5630") (7 ∷ []) (started (ascii "emulator-5554") false [])

fresh-Possible : Possible (devices_loaded [] none) fresh
unfolding Possible new_share_model adb_remote.Client.Share.init
fresh-Possible = omega arith

picks_once_example :
    (length fresh.model.selected ≤ 1)
    × (length fresh.model.activity ≤ 10)
    × ((x : ShareModel × Command) × (update print shown (devices_loaded [] none) fresh.model
          ≡ ok x))
picks_once_example =
    picks_once print shown [] false (ascii "SHA256:x") fresh (devices_loaded [] none) now
      fresh-Possible

asked : Follows print shown (started (ascii "emulator-5554") false []) asking
unfolding update new_share_model adb_remote.Client.Share.init Possible
asked =
    let s = started (ascii "emulator-5554") false [] in
    next s (join_request (ascii "QNZQ5630") (7 ∷ []) 0) (asking.model, no_command) now refl refl

answers_once_example :
    Unique asking.model.answered
    × ((ref : ℕ) → asking.model.pending_respond ≡ some ref → Absent ref asking.model.answered)
answers_once_example = answers_once print shown (ascii "emulator-5554") false [] asking asked

abbrev asking_again : Session
asking_again = prompted_with (ascii "MVJK1457") (8 ∷ []) asking

replaced_prompt_starves_example :
    (update print shown (join_request (ascii "MVJK1457") (8 ∷ []) 1) asking.model
      ≡ ok (asking_again.model, no_command))
    × Absent 0 asking_again.model.answered
replaced_prompt_starves_example =
    replaced_prompt_starves print shown (ascii "emulator-5554") false [] asking asking_again
      (ascii "MVJK1457") (8 ∷ []) 0 asked refl now

abbrev unstyled : Style → List ℕ → List ℕ
unstyled s t = t

-- Bold and coloured, as on a terminal with 256 colours.
abbrev colored : Style → List ℕ → List ℕ
colored s t = 27 ∷ ascii "[1;38;5;39m" ++ t ++ 27 ∷ ascii "[0m"

colored-KeepsText : KeepsText colored
unfolding KeepsText Shows
colored-KeepsText s t h = (
  27 ∷ ascii "[1;38;5;39m",
  27 ∷ ascii "[0m",
  sym (append_assoc (27 ∷ ascii "[1;38;5;39m") t (27 ∷ ascii "[0m")),
)

abbrev active : ShareModel
active = record fresh.model { stage = room_active; room_id = ascii "ABCD1234" }

prompt_shown_example :
    (m yes no : ShareModel) × (update print shown
        (join_request (ascii "QNZQ5630") (7 ∷ []) 0)
        active
      ≡ ok (m, no_command))
    × Shows (ascii "QNZQ5630") (Share.body_view colored shown m)
    × Shows (7 ∷ []) (Share.body_view colored shown m)
    × (update print shown (key_pressed key_y) m ≡ ok (yes, no_command))
    × (update print shown (key_pressed key_n) m ≡ ok (no, no_command))
    × (yes.answered ≡ (0, true) ∷ active.answered)
    × (no.answered ≡ (0, false) ∷ active.answered)
unfolding printable
prompt_shown_example =
    prompt_shown colored shown print colored-KeepsText (ascii "QNZQ5630") (7 ∷ []) 0 active refl
      refl

owner_stays_shown_example :
    let m' =
      updates colored shown print
        (guest_event (join_decided true (ascii "QNZQ5630") (7 ∷ []))
          ∷ guest_event (proxy_ready (ascii "5037"))
          ∷ [])
        (new_connect_model (ascii "ABCD1234") (ascii "0") (ascii "SHA256:y")) in
    Shows (ascii "QNZQ5630") (Connect.body_view colored shown m')
    × Shows (7 ∷ []) (Connect.body_view colored shown m')
unfolding AllUndecided Undecided printable
owner_stays_shown_example =
    owner_stays_shown colored shown print colored-KeepsText (ascii "QNZQ5630") (7 ∷ [])
      (guest_event (proxy_ready (ascii "5037")) ∷ [])
      (new_connect_model (ascii "ABCD1234") (ascii "0") (ascii "SHA256:y")) (omega arith) refl
      (tt, tt)

abbrev two_lines : List ℕ
two_lines = ascii "ready" ++ 10 ∷ ascii "q quit"

one_divider : newlines (unstyled dim_style (dashes 40)) ≡ 0
unfolding newlines dashes
one_divider = refl

-- On a screen of two lines the layout takes three.
layout_height_example :
    line_count (layout_with_footer (unstyled dim_style) two_lines (ascii "In: 1 B") 2)
    ≡ (if ltb (line_count (ascii "In: 1 B") + 1) 2 then 2 else line_count (ascii "In: 1 B") + 2)
layout_height_example =
    layout_height (unstyled dim_style) one_divider two_lines (ascii "In: 1 B") 2 (omega arith)
