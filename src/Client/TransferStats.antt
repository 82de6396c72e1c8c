-- ===== src/Client/TransferStats.antt =====
-- client/tui/transferStats.go: the sampling of the transfer statistics and the unit that `formatBytes` picks. A float64 division is left out: a rate is the bytes and the
-- nanoseconds it divides, a size the number and the unit it is divided by.
pub mod Units
use adb_remote.Prelude.{
  ℕ, zero, suc, ◌+◌, ◌-◌, ◌*◌, ◌/◌, Bool, true, false, List, [], ◌∷◌, if◌then◌else◌, Option, none,
  some, ltb, leb, u64, Result, ok, err, panic, M,
}

pub record TransferStats : Type 0 where
  pub sent : ℕ
  pub received : ℕ
  pub send_rate : ℕ × ℕ
  pub recv_rate : ℕ × ℕ
  pub last_sample_at : Option ℕ
  pub last_sent : ℕ
  pub last_received : ℕ

-- `a - b` on 64 bits.
abbrev pub sub64 : ℕ → ℕ → ℕ
sub64 a b = u64 (a + (18446744073709551616 - b))

unfoldable pub rates : ℕ → ℕ → ℕ → Option ℕ → TransferStats → TransferStats
rates sent received now none s = s
rates sent received now (some then') s =
    if ltb then' now
    then record s {
      send_rate = (sub64 sent s.last_sent, now - then');
      recv_rate = (sub64 received s.last_received, now - then');
    }
    else s

-- The counters of the source and the time are arguments.
unfoldable pub sample : ℕ → ℕ → ℕ → TransferStats → TransferStats
unfolding rates
sample sent received now s = record (rates sent received now s.last_sample_at s) {
  sent = sent;
  received = received;
  last_sent = sent;
  last_received = received;
  last_sample_at = some now;
}

-- The divisor and the exponent; `exp < 5` allows five rounds.
unfoldable pub scale : ℕ → ℕ → ℕ → ℕ → ℕ × ℕ
scale zero n div exp = (div, exp)
scale (suc rounds) n div exp =
    let further = scale rounds n (u64 (div * 1024)) (exp + 1) in
    if leb 1024 (n / div) then further else (div, exp)

pub data UnitPrefix : Type 0 where
  kibi mebi gibi tebi pebi : UnitPrefix

-- `"KMGTP"[exp]`.
abbrev pub prefix_at : ℕ → List UnitPrefix → Result UnitPrefix
prefix_at exp [] = panic
prefix_at zero (p ∷ ps) = ok p
prefix_at (suc exp) (p ∷ ps) = prefix_at exp ps

abbrev pub prefixes : List UnitPrefix
prefixes = kibi ∷ mebi ∷ gibi ∷ tebi ∷ pebi ∷ []

pub data Size : Type 0 where
  in_bytes : ℕ → Size
  in_units : ℕ → ℕ → UnitPrefix → Size

abbrev pub with_prefix : ℕ → ℕ → Result UnitPrefix → Result Size
with_prefix n div (ok p) = ok (in_units n div p)
with_prefix n div (err e) = err e
with_prefix n div panic = panic

unfoldable pub format_bytes : ℕ → Result Size
unfolding scale
format_bytes n =
    let (div, exp) = scale 5 n 1024 0 in
    if ltb n 1024 then ok (in_bytes n) else with_prefix n div (prefix_at exp prefixes)
