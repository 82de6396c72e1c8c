-- ===== src/Tests/AdbMessage.antt =====
-- ADB messages at concrete fields.
use adb_remote.Prelude.{
  ℕ, ◌≡◌, refl, List, [], ◌∷◌, replicate, length-replicate, arith, ok, panic, put_uint32, ◌++◌,
}
use adb_remote.Client.AdbMessage.{
  AdbMessage, decode_message, read, message_data, new_message_from_buffer,
}
use adb_remote.Client.AdbMessage.Frames.{IsAdbMessage, wire}
use adb_remote.Client.AdbMessage.Exchange.{transfer, transfer_lem, Carries}
use adb_remote.Client.AdbMessage.Agreement.{Agree, read_agrees}
use adb_remote.Client.AdbMessage.Decoding.{DecodesSafely, decode_message-Safe, decode_overflow}

abbrev zeros : List ℕ
zeros = replicate 4 0

abbrev fresh : AdbMessage
fresh = record {
  command_bytes = zeros;
  arg1_bytes = zeros;
  arg2_bytes = zeros;
  length_bytes = zeros;
  checksum_bytes = zeros;
  magic_bytes = zeros;
  data_buffer = replicate 32768 0;
}

fresh-IsAdbMessage : IsAdbMessage fresh
fresh-IsAdbMessage = record { header_size = refl; buffer_size = length-replicate {A = ℕ} 32768 0 }

transfer_lem_example :
    (m : AdbMessage) × (transfer 0x4e45504f 1 0 (7 ∷ 8 ∷ []) fresh fresh ≡ ok m)
    × Carries 0x4e45504f 1 0 (7 ∷ 8 ∷ []) m
transfer_lem_example =
    transfer_lem 0x4e45504f 1 0 (7 ∷ 8 ∷ []) refl (omega arith) (omega arith) (omega arith) fresh
      fresh fresh-IsAdbMessage fresh-IsAdbMessage

decode_message-Safe_example : DecodesSafely (decode_message (wire 0x59414b4f 1 2 []))
unfolding put_uint32 adb_remote.Client.AdbMessage.checksum
    adb_remote.Client.AdbMessage.checksum_from
decode_message-Safe_example = decode_message-Safe (wire 0x59414b4f 1 2 []) (omega arith)

decode_overflow_example :
    (m : AdbMessage) × (decode_message (
        put_uint32 0x45545257
        ++ put_uint32 1
        ++ put_uint32 2
        ++ put_uint32 4294967290
        ++ put_uint32 0
        ++ put_uint32 3131813288
        ++ 1 ∷ 2 ∷ [])
      ≡ ok m)
    × (message_data m ≡ panic)
decode_overflow_example =
    decode_overflow 0x45545257 1 2 4294967290 0 (1 ∷ 2 ∷ []) refl (omega arith) (omega arith)
      (omega arith)

-- A message behind which the next one begins.
read_agrees_example :
    let raw = wire 0x45545257 1 2 (7 ∷ 8 ∷ []) ++ 9 ∷ [] in
    Agree (decode_message raw) raw (read (record { message = fresh; input = raw }))
unfolding put_uint32 adb_remote.Client.AdbMessage.checksum
    adb_remote.Client.AdbMessage.checksum_from
read_agrees_example =
    read_agrees (wire 0x45545257 1 2 (7 ∷ 8 ∷ []) ++ 9 ∷ []) fresh fresh-IsAdbMessage (omega arith)
