-- ===== src/Client/Connect/View.antt =====
-- `View` of client/tui/connect.go. What lipgloss makes of a text in a style, the text of an error and the footer
-- are parameters.
use adb_remote.Prelude.{
  ℕ, List, [], ◌∷◌, ◌++◌, length, Option, none, some, Error, ascii, ◌==◌, if◌then◌else◌,
  decimal_digits, ltb, Bool, true, false,
}
use adb_remote.Client.Screen.{newline, layout_with_footer}
use adb_remote.Client.Screen.Styles.{
  Style, title_style, label_style, success_style, error_style, help_style, dim_style, written,
  em_dash,
}
use adb_remote.Client.Connect.{
  ConnectModel, ConnectStage, connecting, joining_room, denied, proxy_starting, ready, relaying,
  disconnected, failed, state_line,
}

abbrev line : List ℕ → List ℕ
line text = text ++ newline ∷ []

abbrev paragraph : List ℕ → List ℕ
paragraph text = text ++ newline ∷ newline ∷ []

module _ (render : Style → List ℕ → List ℕ) (error_text : Error → List ℕ) where
  abbrev labelled : List ℕ → List ℕ → List ℕ
  labelled label text = render label_style label ++ text

  -- `stateLine` with its styles.
  unfoldable pub styled_state : ConnectStage → List ℕ → List ℕ
  unfolding state_line
  styled_state connecting room = state_line connecting room
  styled_state joining_room room = state_line joining_room room
  styled_state denied room = render error_style (state_line denied room)
  styled_state proxy_starting room = state_line proxy_starting room
  styled_state ready room = render success_style (state_line ready room)
  styled_state relaying room = render success_style (state_line relaying room)
  styled_state disconnected room = render error_style (state_line disconnected room)
  styled_state failed room = render error_style (state_line failed room)

  -- `%s` of an error, or of nil.
  abbrev error_line : Option Error → List ℕ
  error_line none = ascii "%!s(<nil>)"
  error_line (some e) = error_text e

  -- What became of the automatic "adb connect".
  unfoldable pub adb_view : Bool → Option Error → List ℕ → List ℕ
  adb_view true e port = paragraph (render success_style (ascii "adb connect issued automatically"))
  adb_view false (some e) port =
      line (render error_style (ascii "Automatic \"adb connect\" failed: " ++ error_text e))
      ++ paragraph (render dim_style (ascii "Run it yourself: adb connect 127.0.0.1:" ++ port))
  adb_view false none port = newline ∷ []

  abbrev last_relay : Option Error → List ℕ
  last_relay none = []
  last_relay (some e) = paragraph (render dim_style (ascii "Last relay ended: " ++ error_text e))

  unfoldable pub proxy_view : ConnectModel → List ℕ
  unfolding adb_view
  proxy_view m = written (
      line (ascii "Local proxy: 127.0.0.1:" ++ m.local_port)
      ∷ adb_view m.is_adb_connected m.adb_connect_error m.local_port
      ∷ (if ltb 0 m.relay_count
          then paragraph (
              render dim_style (
                ascii "("
                ++ decimal_digits 20 m.relay_count
                ++ ascii " local adb connection(s) relayed so far)"))
          else [])
      ∷ last_relay m.last_relay_error
      ∷ [])

  unfoldable pub stage_view : ConnectStage → ConnectModel → List ℕ
  unfolding proxy_view
  stage_view ready m = proxy_view m
  stage_view relaying m = proxy_view m
  stage_view denied m =
      paragraph (render error_style (ascii "The room owner declined the join request."))
  stage_view disconnected m = paragraph (
      render error_style
        (ascii "Disconnected: the room owner left, or the transporter connection was lost."))
  stage_view failed m = paragraph (render error_style (ascii "Error: " ++ error_line m.last_error))
  stage_view connecting m = []
  stage_view joining_room m = []
  stage_view proxy_starting m = []

  -- The owner of the room, once the join was accepted.
  unfoldable pub owner_view : ConnectModel → List ℕ
  owner_view m =
      if length m.owner_client_id == 0
      then []
      else line (labelled (ascii "Room owner: ") (render success_style m.owner_client_id))
        ++ paragraph (labelled (ascii "  Owner fingerprint: ") m.owner_fingerprint)

  unfoldable pub body_view : ConnectModel → List ℕ
  unfolding owner_view stage_view styled_state
  body_view m = written (
      line (render title_style (ascii "adb-remote " ++ em_dash ++ ascii " connect"))
      ∷ (if length m.client_id == 0
          then []
          else line (labelled (ascii "Your client id: ") m.client_id))
      ∷ line (labelled (ascii "Your fingerprint: ") m.own_fingerprint)
      ∷ line (
          render dim_style (
            ascii "  Share this with the room owner so they can verify it's really you accepting."))
      ∷ paragraph (labelled (ascii "Room id:        ") m.room_id)
      ∷ owner_view m
      ∷ paragraph (labelled (ascii "Connection state: ") (styled_state m.stage m.room_id))
      ∷ stage_view m.stage m
      ∷ render help_style (ascii "q quit")
      ∷ [])

  unfoldable pub view : List ℕ → ConnectModel → List ℕ
  unfolding layout_with_footer body_view
  view footer m = layout_with_footer (render dim_style) (body_view m) footer m.height
