-- ===== src/Tests/PcapWriter.antt =====
-- The checksum of a capture's packets.
use adb_remote.Prelude.{◌%◌, ◌<◌, ◌≡◌, arith}
use adb_remote.Client.PcapWriter.{ipv4_checksum, ipv4_header, ip_client, ip_transporter}
use adb_remote.Client.PcapWriter.Checksum.{word_total, checksum_verifies}

checksum_verifies_example :
    let total = word_total (
      ipv4_header 40 7 ip_client ip_transporter
        (ipv4_checksum (ipv4_header 40 7 ip_client ip_transporter 0))) in
    (0 < total) × (total % 65535 ≡ 0)
checksum_verifies_example =
    checksum_verifies 40 7 10 0 0 1 10 0 0 2 (omega arith) (omega arith) (omega arith) (omega arith)
      (omega arith) (omega arith) (omega arith) (omega arith)
