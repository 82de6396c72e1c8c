-- ===== src/Client/PcapWriter.antt =====
-- client/pcapwriter/pcapwriter.go: captured messages as the packets of a capture file, each in an Ethernet,
-- an IPv4 and a UDP header.
pub mod Checksum
use Prim.Native.Nat.{◌-◌}
use adb_remote.Prelude.{
  ℕ, zero, suc, ◌+◌, ◌*◌, ◌/◌, ◌%◌, Bool, List, [], ◌∷◌, ◌++◌, ◌==◌, if◌then◌else◌, length,
  replicate, u16, u32, put_uint32, overwrite, Result, ok, err, panic, M, ◌>>=◌, ◌>>◌, get_state,
  lift, pure,
}
use adb_remote.Protocol.Message.{Writer, write_bytes}

pub data Direction : Type 0 where
  outgoing incoming : Direction

-- Both encodings of a 16-bit word.
unfoldable pub put_uint16 : ℕ → List ℕ
put_uint16 v = v % 256 ∷ v / 256 % 256 ∷ []

unfoldable pub put_uint16_be : ℕ → List ℕ
put_uint16_be v = v / 256 % 256 ∷ v % 256 ∷ []

abbrev pub mac_client : List ℕ
mac_client = 2 ∷ 0 ∷ 0 ∷ 0 ∷ 0 ∷ 1 ∷ []

abbrev pub mac_transporter : List ℕ
mac_transporter = 2 ∷ 0 ∷ 0 ∷ 0 ∷ 0 ∷ 2 ∷ []

abbrev pub ip_client : List ℕ
ip_client = 10 ∷ 0 ∷ 0 ∷ 1 ∷ []

abbrev pub ip_transporter : List ℕ
ip_transporter = 10 ∷ 0 ∷ 0 ∷ 2 ∷ []

pub record PcapWriter : Type 0 where
  pub out : Writer
  pub next_id : ℕ

unfoldable pub global_header : List ℕ
unfolding put_uint32 put_uint16
global_header =
    put_uint32 0xa1b2c3d4
    ++ put_uint16 2
    ++ put_uint16 4
    ++ replicate 8 0
    ++ put_uint32 262144
    ++ put_uint32 1

unfoldable pub new_writer : M Writer PcapWriter
new_writer = do
  len ← write_bytes global_header
  w ← get_state
  pure (record { out = w; next_id = 0 })

-- The loop over the 16-bit words of a header. A last odd byte is left out.
unfoldable pub sum_words : ℕ → List ℕ → ℕ
sum_words sum (a ∷ b ∷ rest) = sum_words (u32 (sum + (a * 256 + b))) rest
sum_words sum _ = sum

-- The loop that adds the carries, of at most `fuel` rounds: a 32-bit sum needs two.
unfoldable pub fold_carries : ℕ → ℕ → ℕ
fold_carries zero sum = sum
fold_carries (suc fuel) sum =
    let rest = fold_carries fuel (sum % 65536 + sum / 65536) in
    if sum / 65536 == 0 then sum else rest

unfoldable pub ipv4_checksum : List ℕ → ℕ
unfolding sum_words fold_carries
ipv4_checksum header = 65535 - u16 (fold_carries 2 (sum_words 0 header))

unfoldable pub build_ethernet : List ℕ → List ℕ → List ℕ → List ℕ
unfolding put_uint16_be
build_ethernet src dst bs = dst ++ src ++ put_uint16_be 0x0800 ++ bs

unfoldable pub build_udp : ℕ → ℕ → List ℕ → List ℕ
unfolding put_uint16_be
build_udp src dst bs =
    put_uint16_be src ++ put_uint16_be dst ++ put_uint16_be (8 + length bs) ++ put_uint16_be 0 ++ bs

-- The header, with `sum` for its checksum.
abbrev pub ipv4_header : ℕ → ℕ → List ℕ → List ℕ → ℕ → List ℕ
ipv4_header size id src dst sum =
    0x45 ∷ 0 ∷ []
    ++ put_uint16_be size
    ++ put_uint16_be id
    ++ put_uint16_be 0
    ++ 64 ∷ 17 ∷ []
    ++ put_uint16_be sum
    ++ src
    ++ dst

unfoldable pub build_ipv4 : List ℕ → List ℕ → List ℕ → PcapWriter → PcapWriter × List ℕ
unfolding put_uint16_be ipv4_checksum
build_ipv4 src dst bs w =
    let sum = ipv4_checksum (ipv4_header (20 + length bs) w.next_id src dst 0) in
    (
      record w { next_id = u16 (w.next_id + 1) },
      ipv4_header (20 + length bs) w.next_id src dst sum ++ bs,
    )

-- The frame of a message.
unfoldable pub build_frame : Direction → List ℕ → PcapWriter → PcapWriter × List ℕ
unfolding build_udp build_ipv4 build_ethernet
build_frame outgoing bs w =
    let (w', ip) = build_ipv4 ip_client ip_transporter (build_udp 1 2 bs) w in
    (w', build_ethernet mac_client mac_transporter ip)
build_frame incoming bs w =
    let (w', ip) = build_ipv4 ip_transporter ip_client (build_udp 2 1 bs) w in
    (w', build_ethernet mac_transporter mac_client ip)

unfoldable pub record_header : ℕ → ℕ → ℕ → List ℕ
record_header seconds nanoseconds size =
    put_uint32 seconds ++ put_uint32 (nanoseconds / 1000) ++ put_uint32 size ++ put_uint32 size

unfoldable pub write_out : List ℕ → M PcapWriter ℕ
write_out bs w = let (out, r) = write_bytes bs w.out in (record w { out = out }, r)

unfoldable pub write_packet : Direction → List ℕ → ℕ → ℕ → M PcapWriter (Unit {0})
write_packet direction bs seconds nanoseconds w =
    let (w', frame) = build_frame direction bs w in
    (write_out (record_header seconds nanoseconds (length frame)) >>= λ _.
    write_out frame >>= λ _. pure tt)
      w'
