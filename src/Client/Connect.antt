-- ===== src/Client/Connect.antt =====
-- client/tui/connect.go: the model of the `connect` command's user interface and its `Update`. `state_line` is
-- the text that its styles are given. The fingerprint of a key is a parameter.
pub mod Screen
pub mod View
pub mod Shown
use adb_remote.Prelude.{
  ℕ, ◌+◌, Bool, true, false, ◌||◌, List, [], ◌∷◌, ◌++◌, if◌then◌else◌, Option, none, some, Error,
  ascii,
}
use adb_remote.Client.Controller.{
  GuestEvent, join_decided, proxy_ready, local_adb_connected, adb_connected, transport_lost,
  adb_connect_failed, relay_stopped,
}
use adb_remote.Client.Screen.Styles.{em_dash}
use adb_remote.Client.Share.{Command, no_command, quit_program, tick_stats, Key, is_q, is_ctrl_c}

pub data ConnectStage : Type 0 where
  connecting joining_room denied proxy_starting ready relaying disconnected failed : ConnectStage

pub record ConnectModel : Type 0 where
  pub room_id : List ℕ
  pub local_port : List ℕ
  pub own_fingerprint : List ℕ
  pub stage : ConnectStage
  pub client_id : List ℕ
  pub last_error : Option Error
  pub owner_client_id : List ℕ
  pub owner_fingerprint : List ℕ
  pub is_adb_connected : Bool
  pub adb_connect_error : Option Error
  pub relay_count : ℕ
  pub last_relay_error : Option Error
  pub width : ℕ
  pub height : ℕ

pub data ConnectMessage : Type 0 where
  window_size : ℕ → ℕ → ConnectMessage
  key_pressed : Key → ConnectMessage
  client_identified : List ℕ → ConnectMessage
  joining : ConnectMessage
  guest_event : GuestEvent → ConnectMessage
  connect_error : Error → ConnectMessage
  transfer_tick : ConnectMessage

unfoldable pub new_connect_model : List ℕ → List ℕ → List ℕ → ConnectModel
new_connect_model room port own = record {
  room_id = room;
  local_port = port;
  own_fingerprint = own;
  stage = connecting;
  client_id = [];
  last_error = none;
  owner_client_id = [];
  owner_fingerprint = [];
  is_adb_connected = false;
  adb_connect_error = none;
  relay_count = 0;
  last_relay_error = none;
  width = 0;
  height = 0;
}

module _ (fingerprint : List ℕ → List ℕ) where
  unfoldable pub handle_guest_event : GuestEvent → ConnectModel → ConnectModel
  handle_guest_event (join_decided true owner key) m = record m {
    stage = proxy_starting;
    owner_client_id = owner;
    owner_fingerprint = fingerprint key;
  }
  handle_guest_event (join_decided false owner key) m = record m { stage = denied }
  handle_guest_event (proxy_ready port) m = record m { stage = ready; local_port = port }
  handle_guest_event adb_connected m = record m {
    is_adb_connected = true;
    adb_connect_error = none;
  }
  handle_guest_event (adb_connect_failed e) m = record m {
    is_adb_connected = false;
    adb_connect_error = some e;
  }
  handle_guest_event local_adb_connected m = record m {
    stage = relaying;
    relay_count = m.relay_count + 1;
  }
  handle_guest_event (relay_stopped e) m = record m { last_relay_error = some e; stage = ready }
  handle_guest_event transport_lost m = record m { stage = disconnected }

  unfoldable pub update_connect : ConnectMessage → ConnectModel → ConnectModel × Command
  unfolding handle_guest_event
  update_connect (window_size w h) m = (record m { width = w; height = h }, no_command)
  update_connect (key_pressed k) m = (m, if is_ctrl_c k || is_q k then quit_program else no_command)
  update_connect (client_identified id) m = (record m { client_id = id }, no_command)
  update_connect joining m = (record m { stage = joining_room }, no_command)
  update_connect (guest_event e) m = (handle_guest_event e m, no_command)
  update_connect (connect_error e) m =
      (record m { last_error = some e; stage = failed }, no_command)
  update_connect transfer_tick m = (m, tick_stats)

unfoldable pub state_line : ConnectStage → List ℕ → List ℕ
state_line connecting room = ascii "connecting to the transporter..."
state_line joining_room room = ascii "joining room " ++ room ++ ascii "..."
state_line denied room = ascii "join request declined"
state_line proxy_starting room = ascii "join accepted, starting the local proxy..."
state_line ready room = ascii "ready " ++ em_dash ++ ascii " waiting for a local adb connection"
state_line relaying room = ascii "relaying ADB traffic"
state_line disconnected room = ascii "disconnected"
state_line failed room = ascii "error"
