-- ===== src/Protocol/Constants.antt =====
-- shared/protocol/constants.go.
use adb_remote.Prelude.{ℕ}

abbrev pub protocol_version : ℕ
protocol_version = 0x0001

abbrev pub max_payload_size : ℕ
max_payload_size = 0xF000

abbrev pub header_size : ℕ
header_size = 0x000C

abbrev pub command_connect : ℕ
command_connect = 0x0001

abbrev pub command_reconnect : ℕ
command_reconnect = 0x0002

abbrev pub command_create_room : ℕ
command_create_room = 0x0003

abbrev pub command_join_room : ℕ
command_join_room = 0x0004

abbrev pub command_adb_transport : ℕ
command_adb_transport = 0x0006

abbrev pub command_guest_left : ℕ
command_guest_left = 0x0007

abbrev pub command_response_mask : ℕ
command_response_mask = 0x1000

abbrev pub command_error_response_mask : ℕ
command_error_response_mask = 0x2000

abbrev pub error_unknown : ℕ
error_unknown = 0x0001

abbrev pub error_protocol_not_supported : ℕ
error_protocol_not_supported = 0x0001

abbrev pub error_already_in_room : ℕ
error_already_in_room = 0x0002

abbrev pub error_room_not_found : ℕ
error_room_not_found = 0x0003

abbrev pub error_full : ℕ
error_full = 0x0004

abbrev pub error_no_participant : ℕ
error_no_participant = 0x0005

abbrev pub error_invalid_payload : ℕ
error_invalid_payload = 0x0006
