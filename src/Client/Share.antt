-- ===== src/Client/Share.antt =====
-- client/tui/share.go: the model of the `share` command's user interface, and its `Update`. A channel
-- that `Update` sends on is what was sent on it, the latest first: `selected` for `selectedDevice`, and
-- `answered` for the channels of all join requests, each under its reference. The identity's fingerprint and
-- the text of an error are parameters.
pub mod Session
pub mod Picking
pub mod Prompts
pub mod Answers
pub mod View
pub mod Shown
use adb_remote.Prelude.{
  ℕ, ◌+◌, ◌-◌, Bool, true, false, not, List, [], ◌∷◌, ◌++◌, length, drop, if◌then◌else◌, Option,
  none, some, Error, ascii, zero, suc, Result, ok, err, panic, ltb, leb, ◌==◌,
}
use adb_remote.Client.SmartSocket.{Device}
use adb_remote.Client.OwnerEvent.{
  OwnerEvent, room_created, join_requested, join_decided, join_failed, guest_left,
}

pub data ShareStage : Type 0 where
  loading_devices select_device connecting room_active session_ended failed : ShareStage

pub record ShareModel : Type 0 where
  pub auto_accept : Bool
  pub own_fingerprint : List ℕ
  pub selected : List (List ℕ)
  pub stage : ShareStage
  pub devices : List Device
  pub cursor : ℕ
  pub last_error : Option Error
  pub client_id : List ℕ
  pub room_id : List ℕ
  pub pending_guest_id : List ℕ
  pub pending_fingerprint : List ℕ
  pub pending_respond : Option ℕ
  pub connected_guest_id : List ℕ
  pub connected_guest_fingerprint : List ℕ
  pub activity : List (List ℕ)
  pub answered : List (ℕ × Bool)
  pub width : ℕ
  pub height : ℕ

-- A tea.Cmd.
pub data Command : Type 0 where
  no_command quit_program fetch_devices_list tick_stats : Command

-- The keys that the code names.
pub data Key : Type 0 where
  ctrl_c key_y key_n key_up key_k key_down key_j key_r key_enter key_q other_key : Key

pub data Message : Type 0 where
  window_size : ℕ → ℕ → Message
  transfer_tick : Message
  key_pressed : Key → Message
  devices_loaded : List Device → Option Error → Message
  client_identified : List ℕ → Message
  owner_event : OwnerEvent → Message
  join_request : List ℕ → List ℕ → ℕ → Message
  share_error : Error → Message
  session_timeout : Message

abbrev pub activity_log_limit : ℕ
activity_log_limit = 10

unfoldable pub new_share_model : List ℕ → Bool → List ℕ → ShareModel
new_share_model preset auto own =
    let picked = not (length preset == 0) in
    record {
      auto_accept = auto;
      own_fingerprint = own;
      selected = if picked then preset ∷ [] else [];
      stage = if picked then connecting else loading_devices;
      devices = [];
      cursor = 0;
      last_error = none;
      client_id = [];
      room_id = [];
      pending_guest_id = [];
      pending_fingerprint = [];
      pending_respond = none;
      connected_guest_id = [];
      connected_guest_fingerprint = [];
      activity = [];
      answered = [];
      width = 0;
      height = 0;
    }

unfoldable pub append_activity : List ℕ → ShareModel → ShareModel
append_activity line m =
    let lines = m.activity ++ (line ∷ []) in
    record m {
      activity =
          if ltb activity_log_limit (length lines)
          then drop (length lines - activity_log_limit) lines
          else lines;
    }

unfoldable pub init : ShareStage → List Command
init connecting = tick_stats ∷ []
init loading_devices = fetch_devices_list ∷ tick_stats ∷ []
init select_device = fetch_devices_list ∷ tick_stats ∷ []
init room_active = fetch_devices_list ∷ tick_stats ∷ []
init session_ended = fetch_devices_list ∷ tick_stats ∷ []
init failed = fetch_devices_list ∷ tick_stats ∷ []

-- What the keys "y" and "n" answer.
abbrev pub decision : Key → Option Bool
decision key_y = some true
decision key_n = some false
decision _ = none

unfoldable pub answer_prompt : ℕ → Option Bool → ShareModel → ShareModel
answer_prompt ref none m = m
answer_prompt ref (some accepted) m = record m {
  answered = (ref, accepted) ∷ m.answered;
  pending_respond = none;
  pending_guest_id = [];
  pending_fingerprint = [];
}

-- `devices[cursor]`.
unfoldable pub device_at : ℕ → List Device → Result Device
device_at n [] = panic
device_at zero (d ∷ ds) = ok d
device_at (suc n) (d ∷ ds) = device_at n ds

abbrev pub connect_to : ShareModel → Result Device → Result (ShareModel × Command)
connect_to m (ok d) = ok (record m { stage = connecting; selected = d.id ∷ m.selected }, no_command)
connect_to m (err e) = err e
connect_to m panic = panic

unfoldable pub cursor_up : ShareModel → ShareModel
cursor_up m = if ltb 0 m.cursor then record m { cursor = m.cursor - 1 } else m

-- `cursor < len(devices)-1`, which is false for no devices.
unfoldable pub cursor_down : ShareModel → ShareModel
cursor_down m =
    if ltb (m.cursor + 1) (length m.devices) then record m { cursor = m.cursor + 1 } else m

unfoldable pub pick_device : Key → ShareModel → Result (ShareModel × Command)
unfolding cursor_up cursor_down device_at
pick_device key_up m = ok (cursor_up m, no_command)
pick_device key_k m = ok (cursor_up m, no_command)
pick_device key_down m = ok (cursor_down m, no_command)
pick_device key_j m = ok (cursor_down m, no_command)
pick_device key_r m = ok (record m { stage = loading_devices }, fetch_devices_list)
pick_device key_enter m =
    if length m.devices == 0
    then ok (m, no_command)
    else connect_to m (device_at m.cursor m.devices)
pick_device key_q m = ok (m, quit_program)
pick_device ctrl_c m = ok (m, no_command)
pick_device key_y m = ok (m, no_command)
pick_device key_n m = ok (m, no_command)
pick_device other_key m = ok (m, no_command)

abbrev pub is_q : Key → Bool
is_q key_q = true
is_q _ = false

abbrev pub is_ctrl_c : Key → Bool
is_ctrl_c ctrl_c = true
is_ctrl_c _ = false

abbrev pub quit_on_q : Key → ShareModel → Result (ShareModel × Command)
quit_on_q k m = ok (m, if is_q k then quit_program else no_command)

unfoldable pub stage_key : ShareStage → Key → ShareModel → Result (ShareModel × Command)
unfolding pick_device
stage_key select_device k m = pick_device k m
stage_key room_active k m = quit_on_q k m
stage_key failed k m = quit_on_q k m
stage_key loading_devices k m = quit_on_q k m
stage_key connecting k m = quit_on_q k m
stage_key session_ended k m = ok (m, no_command)

unfoldable pub handle_key : Key → ShareModel → Result (ShareModel × Command)
unfolding stage_key answer_prompt
handle_key k m = if is_ctrl_c k then ok (m, quit_program) else elim m.pending_respond [
  | some ref ↦ ok (answer_prompt ref (decision k) m, no_command)
  | none ↦ stage_key m.stage k m
]

-- The prompt that is dropped when the guest leaves is answered with `false`.
unfoldable pub drop_prompt : Option ℕ → ShareModel → ShareModel
drop_prompt none m = m
drop_prompt (some ref) m = record m { answered = (ref, false) ∷ m.answered }

abbrev pub left_id : ShareModel → List ℕ
left_id m = if length m.connected_guest_id == 0 then m.pending_guest_id else m.connected_guest_id

module _ (fingerprint : List ℕ → List ℕ) (error_text : Error → List ℕ) where
  unfoldable pub handle_owner_event : OwnerEvent → ShareModel → ShareModel
  unfolding append_activity drop_prompt
  handle_owner_event (room_created id) m = record m { room_id = id; stage = room_active }
  handle_owner_event (join_requested guest key) m =
      append_activity
        (ascii "Join request from clientId: "
          ++ guest
          ++ ascii " (fingerprint "
          ++ fingerprint key
          ++ ascii ")")
        m
  handle_owner_event (join_decided guest key true) m =
      append_activity (ascii "clientId " ++ guest ++ ascii ": accepted")
        (record m { connected_guest_id = guest; connected_guest_fingerprint = fingerprint key })
  handle_owner_event (join_decided guest key false) m =
      append_activity (ascii "clientId " ++ guest ++ ascii ": declined") m
  handle_owner_event (join_failed guest e) m =
      append_activity
        (ascii "clientId " ++ guest ++ ascii ": error handling join request: " ++ error_text e) m
  handle_owner_event guest_left m =
      let m' = append_activity (ascii "clientId " ++ left_id m ++ ascii ": disconnected") m in
      let m3 =
        drop_prompt m'.pending_respond
          (record m' { connected_guest_id = []; connected_guest_fingerprint = [] }) in
      record m3 { pending_guest_id = []; pending_fingerprint = []; pending_respond = none }

  unfoldable pub update : Message → ShareModel → Result (ShareModel × Command)
  unfolding handle_key handle_owner_event
  update (window_size w h) m = ok (record m { width = w; height = h }, no_command)
  update transfer_tick m = ok (m, tick_stats)
  update (key_pressed k) m = handle_key k m
  update (devices_loaded ds e) m = ok (
    record m {
      stage = select_device;
      devices = ds;
      last_error = e;
      cursor = if leb (length ds) m.cursor then 0 else m.cursor;
    },
    no_command,
  )
  update (client_identified id) m = ok (record m { client_id = id }, no_command)
  update (owner_event e) m = ok (handle_owner_event e m, no_command)
  update (join_request guest print ref) m = ok (
    record m { pending_guest_id = guest; pending_fingerprint = print; pending_respond = some ref },
    no_command,
  )
  update (share_error e) m = ok (record m { last_error = some e; stage = failed }, no_command)
  update session_timeout m = ok (record m { stage = session_ended }, quit_program)
