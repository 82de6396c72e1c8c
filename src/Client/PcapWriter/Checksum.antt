-- ===== src/Client/PcapWriter/Checksum.antt =====
-- The IPv4 checksum of client/pcapwriter/pcapwriter.go.
use adb_remote.Prelude.{ℕ, ◌+◌, ◌-◌, ◌*◌, ◌/◌, ◌%◌, ◌<◌, ◌≡◌, List, [], ◌∷◌, arith, u16, ◌∙◌, ap}
use adb_remote.Client.PcapWriter.{
  put_uint16_be, sum_words, fold_carries, ipv4_checksum, ipv4_header,
}

fold_carries_sum : (s : ℕ) → 0 < s → s < 655360 → (s + (65535 - u16 (fold_carries 2 s))) % 65535 ≡ 0
unfolding fold_carries
fold_carries_sum s pos h = ground arith

-- The sum of the words of a header with addresses of four bytes.
header_sum :
    (size id s a b c d e f g h : ℕ)
    → a < 256
    → c < 256
    → e < 256
    → g < 256
    → b < 256
    → d < 256
    → f < 256
    → h < 256
    → sum_words 0 (ipv4_header size id (a ∷ b ∷ c ∷ d ∷ []) (e ∷ f ∷ g ∷ h ∷ []) s)
      ≡ 34065
        + size % 65536
        + id % 65536
        + (a * 256 + b)
        + (c * 256 + d)
        + (e * 256 + f)
        + (g * 256 + h)
        + s % 65536
unfolding sum_words put_uint16_be
header_sum size id s a b c d e f g h p1 p2 p3 p4 p5 p6 p7 p8 = omega arith

-- The sum of all 16-bit words of a packet in network order, an odd last byte padded with 0, without bound.
unfoldable pub word_total : List ℕ → ℕ
word_total [] = 0
word_total (a ∷ []) = a * 256
word_total (a ∷ b ∷ rest) = a * 256 + b + word_total rest

-- A receiver's sum of the same header.
header_total :
    (size id s a b c d e f g h : ℕ)
    → word_total (ipv4_header size id (a ∷ b ∷ c ∷ d ∷ []) (e ∷ f ∷ g ∷ h ∷ []) s)
      ≡ 34065
        + size % 65536
        + id % 65536
        + (a * 256 + b)
        + (c * 256 + d)
        + (e * 256 + f)
        + (g * 256 + h)
        + s % 65536
unfolding word_total put_uint16_be
header_total size id s a b c d e f g h = omega arith

-- The header that goes out with its checksum in place passes a receiver's test, for any lengths and ids and
-- any addresses of four bytes: the 16-bit words of all of it add up to a multiple of 65535 other than 0,
-- which is a ones' complement sum of 0xFFFF.
pub checksum_verifies :
    (size id a b c d e f g h : ℕ)
    → a < 256
    → c < 256
    → e < 256
    → g < 256
    → b < 256
    → d < 256
    → f < 256
    → h < 256
    → let header = ipv4_header size id (a ∷ b ∷ c ∷ d ∷ []) (e ∷ f ∷ g ∷ h ∷ []) in
      let total = word_total (header (ipv4_checksum (header 0))) in
      (0 < total) × (total % 65535 ≡ 0)
unfolding ipv4_checksum
checksum_verifies size id a b c d e f g h p1 p2 p3 p4 p5 p6 p7 p8 =
    let header = ipv4_header size id (a ∷ b ∷ c ∷ d ∷ []) (e ∷ f ∷ g ∷ h ∷ []) in
    let s = sum_words 0 (header 0) in
    let base = header_sum size id 0 a b c d e f g h p1 p2 p3 p4 p5 p6 p7 p8 in
    let whole = header_total size id (ipv4_checksum (header 0)) a b c d e f g h in
    let put : word_total (header (ipv4_checksum (header 0)))
        ≡ s + (65535 - u16 (fold_carries 2 s)) =
      omega (arith, base, whole) in
    let verified = fold_carries_sum s (omega (arith, base)) (omega (arith, base)) in
    (omega (arith, base, put), ap (λ t. t % 65535) put ∙ verified)

-- Two rounds of adding the carries are enough: for any 32-bit sum nothing is left above the 16 bits of the
-- result, which is where the loop of `ipv4Checksum` stops.
pub fold_carries_enough : (s : ℕ) → s < 4294967296 → fold_carries 2 s / 65536 ≡ 0
unfolding fold_carries
fold_carries_enough s h = ground arith
