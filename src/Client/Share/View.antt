-- ===== src/Client/Share/View.antt =====
-- `View` of client/tui/share.go. What lipgloss makes of a text in a style, the text of an error and the footer are
-- parameters. `%-24s` counts the bytes of a device's id, which is ASCII.
use adb_remote.Prelude.{
  ℕ, ◌+◌, ◌-◌, List, [], ◌∷◌, ◌++◌, length, replicate, Option, none, some, Error, ascii, ◌==◌,
  if◌then◌else◌,
}
use adb_remote.Client.SmartSocket.{Device}
use adb_remote.Client.Screen.{newline, layout_with_footer}
use adb_remote.Client.Screen.Styles.{
  Style, title_style, label_style, selected_style, prompt_style, success_style, error_style,
  help_style, dim_style, written, em_dash,
}
use adb_remote.Client.Share.{
  ShareStage, loading_devices, select_device, connecting, room_active, session_ended, failed,
  ShareModel,
}

-- The UTF-8 bytes of the help line's signs.
abbrev up_arrow : List ℕ
up_arrow = 226 ∷ 134 ∷ 145 ∷ []

abbrev down_arrow : List ℕ
down_arrow = 226 ∷ 134 ∷ 147 ∷ []

abbrev middle_dot : List ℕ
middle_dot = 194 ∷ 183 ∷ []

abbrev line : List ℕ → List ℕ
line text = text ++ newline ∷ []

abbrev paragraph : List ℕ → List ℕ
paragraph text = text ++ newline ∷ newline ∷ []

unfoldable pub device_line : Device → List ℕ
device_line d = d.id ++ replicate (24 - length d.id) 32 ++ ascii " " ++ d.kind

module _ (render : Style → List ℕ → List ℕ) (error_text : Error → List ℕ) where
  abbrev labelled : List ℕ → List ℕ → List ℕ
  labelled label text = render label_style label ++ text

  unfoldable pub device_lines : ℕ → ℕ → List Device → List ℕ
  unfolding device_line
  device_lines i cursor [] = []
  device_lines i cursor (d ∷ ds) =
      (if i == cursor
        then line (render selected_style (ascii "> " ++ device_line d))
        else line (ascii "  " ++ device_line d))
      ++ device_lines (i + 1) cursor ds

  -- `%s` of an error, or of nil.
  abbrev pub error_line : Option Error → List ℕ
  error_line none = ascii "%!s(<nil>)"
  error_line (some e) = error_text e

  abbrev loading_error : Option Error → List ℕ
  loading_error none = []
  loading_error (some e) =
      paragraph (render error_style (ascii "Error loading devices: " ++ error_text e))

  unfoldable pub select_view : ShareModel → List ℕ
  unfolding device_lines
  select_view m = written (
      loading_error m.last_error
      ∷ (if length m.devices == 0 then paragraph (ascii "No devices found.") else [])
      ∷ device_lines 0 m.cursor m.devices
      ∷ (newline ∷ [])
      ∷ render help_style (
          up_arrow
          ++ ascii "/"
          ++ down_arrow
          ++ ascii " move "
          ++ middle_dot
          ++ ascii " enter select "
          ++ middle_dot
          ++ ascii " r refresh "
          ++ middle_dot
          ++ ascii " q quit")
      ∷ [])

  -- The pending join request, or the connected guest.
  unfoldable pub guest_view : Option ℕ → ShareModel → List ℕ
  guest_view (some ref) m = written (
      line (
        render prompt_style (
          ascii "Join request from clientId: "
          ++ m.pending_guest_id
          ++ ascii " "
          ++ em_dash
          ++ ascii " accept? [y/n]"))
      ∷ line (labelled (ascii "  Guest fingerprint: ") m.pending_fingerprint)
      ∷ paragraph (
          render dim_style (
            ascii
              "  Verify this matches the guest's own displayed fingerprint out of band before accepting."))
      ∷ [])
  guest_view none m =
      if length m.connected_guest_id == 0
      then paragraph (render dim_style (ascii "Waiting for guests to join..."))
      else written (
          line (labelled (ascii "Connected guest: ") (render success_style m.connected_guest_id))
          ∷ paragraph (labelled (ascii "  Guest fingerprint: ") m.connected_guest_fingerprint)
          ∷ [])

  unfoldable pub activity_lines : List (List ℕ) → List ℕ
  activity_lines [] = []
  activity_lines (l ∷ ls) = line (ascii "  " ++ l) ++ activity_lines ls

  unfoldable pub room_view : ShareModel → List ℕ
  unfolding guest_view activity_lines
  room_view m = written (
      (if length m.client_id == 0
        then []
        else line (labelled (ascii "Your client id: ") m.client_id))
      ∷ line (labelled (ascii "Your fingerprint: ") m.own_fingerprint)
      ∷ paragraph (labelled (ascii "Room id:        ") (render success_style m.room_id))
      ∷ guest_view m.pending_respond m
      ∷ (if length m.activity == 0
          then []
          else line (render label_style (ascii "Activity:"))
            ++ activity_lines m.activity
            ++ newline ∷ [])
      ∷ render help_style (ascii "q quit")
      ∷ [])

  unfoldable pub stage_view : ShareStage → ShareModel → List ℕ
  unfolding select_view room_view
  stage_view loading_devices m = line (ascii "Loading devices...")
  stage_view select_device m = select_view m
  stage_view connecting m = line (ascii "Connecting to the transporter...")
  stage_view room_active m = room_view m
  stage_view session_ended m = paragraph (
      render error_style
        (ascii "Session timeout reached " ++ em_dash ++ ascii " closing the room."))
  stage_view failed m =
      paragraph (render error_style (ascii "Error: " ++ error_line m.last_error))
      ++ render help_style (ascii "q quit")

  unfoldable pub body_view : ShareModel → List ℕ
  unfolding stage_view
  body_view m =
      line (render title_style (ascii "adb-remote " ++ em_dash ++ ascii " share"))
      ++ stage_view m.stage m

  unfoldable pub view : List ℕ → ShareModel → List ℕ
  unfolding layout_with_footer body_view
  view footer m = layout_with_footer (render dim_style) (body_view m) footer m.height
