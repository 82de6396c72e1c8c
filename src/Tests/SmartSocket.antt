-- ===== src/Tests/SmartSocket.antt =====
-- The adb server's answers, and a local adb server's first message, at concrete bytes.
use adb_remote.Prelude.{
  ℕ, ◌≡◌, refl, false, List, [], ◌∷◌, ◌++◌, length, ascii, arith, ok, panic, some,
}
use adb_remote.Client.NetConn.{NetConn, close_conn}
use adb_remote.Client.SmartSocket.{Device, format_length, parse_devices, device_list}
use adb_remote.Client.SmartSocket.Devices.{render, IsPrintable, parse_devices_panics}
use adb_remote.Client.SmartSocket.Requests.{reading, sending, device_list_lem}
use adb_remote.Client.AdbMessage.{command_connect}
use adb_remote.Client.AdbMessage.Frames.{packet}

abbrev conn : NetConn
conn = record { input = []; writer = record { out = []; room = 40000 }; closed = false }

abbrev devices : List Device
devices = record { id = ascii "emulator-5554"; kind = ascii "device" } ∷ []

devices-IsPrintable : IsPrintable devices
devices-IsPrintable = (
  (
    refl,
    (
      refl,
      (refl, (refl, (refl, (refl, (refl, (refl, (refl, (refl, (refl, (refl, (refl, tt))))))))))),
    ),
  ),
  (refl, (refl, (refl, (refl, (refl, (refl, tt)))))),
  tt,
)

parse_devices_panics_example :
    parse_devices (length (render devices (13 ∷ []))) (render devices (13 ∷ [])) ≡ panic
parse_devices_panics_example = parse_devices_panics devices 13 [] devices-IsPrintable (refl, tt)

device_list_lem_example :
    let body = render devices [] in
    device_list (ok (reading (ascii "OKAY" ++ (format_length (length body) ++ (body ++ []))) conn))
    ≡ (some (close_conn (reading [] (sending (ascii "000Chost:devices") conn))), ok devices)
unfolding render
device_list_lem_example =
    device_list_lem conn devices [] devices-IsPrintable (omega arith) (omega arith)

abbrev greeting : List ℕ
greeting = packet command_connect 0x01000001 1048576 0 (ascii "host::")
