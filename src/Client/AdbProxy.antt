-- ===== src/Client/AdbProxy.antt =====
-- client/adb/proxy.go: a guest's local proxy answers the CNXN of a local ADB server for the shared device,
-- and hands the connection out. Listening and accepting are calls of package net.
pub mod Answering
use adb_remote.Prelude.{
  ℕ, Bool, true, false, not, List, ◌++◌, ◌==◌, if◌then◌else◌, ascii, Result, ok, err, panic, M,
}
use adb_remote.Client.NetConn.{NetConn, close_conn}
use adb_remote.Client.AdbMessage.{
  AdbMessage, Reading, command, arg1, command_connect, max_payload_length, create_message, read,
  set, write,
}

abbrev pub device_features : List ℕ
device_features =
    ascii
      "shell_v2,cmd,stat_v2,ls_v2,fixed_push_mkdir,apex,abb,fixed_push_symlink_timestamp,abb_exec,remount_shell,track_app,sendrecv_v2"

unfoldable pub banner : List ℕ → List ℕ
banner room_id =
    ascii "device::ro.product.name=adb-remote;ro.product.model=wrapper-remote-"
    ++ room_id
    ++ ascii ";ro.product.device=wrapper-remote-"
    ++ room_id
    ++ ascii ";features="
    ++ device_features

-- A connection that is closed, or handed out through `Connections`.
abbrev pub closed_off : NetConn → NetConn × Result Bool
closed_off conn = (close_conn conn, ok false)

-- The select at the end: someone takes the connection, or the proxy is stopped.
unfoldable pub hand_out : Bool → NetConn → NetConn × Result Bool
unfolding close_conn
hand_out stopped conn = if stopped then closed_off conn else (conn, ok true)

unfoldable pub after_write : Bool → NetConn × Result (Unit {0}) → NetConn × Result Bool
unfolding hand_out close_conn
after_write stopped (conn, ok _) = hand_out stopped conn
after_write stopped (conn, err e) = closed_off conn
after_write stopped (conn, panic) = (conn, panic)

unfoldable pub send_response :
    Bool → AdbMessage × Result (Unit {0}) → NetConn → NetConn × Result Bool
unfolding after_write close_conn
send_response stopped (m, ok _) conn =
    let (w, r) = write m conn.writer in after_write stopped (record conn { writer = w }, r)
send_response stopped (m, err e) conn = closed_off conn
send_response stopped (m, panic) conn = (conn, panic)

unfoldable pub answer_connect : List ℕ → Bool → AdbMessage → NetConn → NetConn × Result Bool
unfolding send_response banner close_conn
answer_connect room_id stopped m conn =
    if not (command m == command_connect)
    then closed_off conn
    else send_response stopped (set command_connect (arg1 m) max_payload_length (banner room_id) m)
        conn

unfoldable pub after_read :
    List ℕ → Bool → Reading × Result (Unit {0}) → NetConn → NetConn × Result Bool
unfolding answer_connect close_conn
after_read room_id stopped (s, ok _) conn =
    answer_connect room_id stopped s.message (record conn { input = s.input })
after_read room_id stopped (s, err e) conn = closed_off (record conn { input = s.input })
after_read room_id stopped (s, panic) conn = (record conn { input = s.input }, panic)

unfoldable pub with_message : List ℕ → Bool → Result AdbMessage → NetConn → NetConn × Result Bool
unfolding after_read close_conn
with_message room_id stopped (ok m) conn =
    after_read room_id stopped (read (record { message = m; input = conn.input })) conn
with_message room_id stopped (err e) conn = (conn, err e)
with_message room_id stopped panic conn = (conn, panic)

-- Whether the connection was handed out.
unfoldable pub handle_connection : List ℕ → Bool → M NetConn Bool
unfolding with_message create_message
handle_connection room_id stopped conn = with_message room_id stopped create_message conn
