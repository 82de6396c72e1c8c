-- ===== src/Prelude/Words.antt =====
-- Machine words as plain numbers, and encoding/binary's fixed-width little-endian codec.
use Prim.Native.Nat.{ℕ, ◌+◌, ◌*◌, ◌/◌, ◌%◌, ◌<◌}
use mathlib.Core.Path.{◌≡◌, refl}
use mathlib.Core.List.{List, [], ◌∷◌, ◌++◌}
use native.Mathlib.Omega.{arith}
use adb_remote.Prelude.Lists.{length}

-- uint16, uint32 and uint64 wrap around.
abbrev pub u16 : ℕ → ℕ
u16 n = n % 65536

abbrev pub u32 : ℕ → ℕ
u32 n = n % 4294967296

abbrev pub u64 : ℕ → ℕ
u64 n = n % 18446744073709551616

-- binary.LittleEndian.PutUint32: the four bytes that it stores.
unfoldable pub put_uint32 : ℕ → List ℕ
put_uint32 v = v % 256 ∷ v / 256 % 256 ∷ v / 65536 % 256 ∷ v / 16777216 % 256 ∷ []

-- binary.LittleEndian.Uint32, on a slice of at least four bytes.
unfoldable pub uint32 : List ℕ → ℕ
uint32 (a ∷ b ∷ c ∷ d ∷ rest) = u32 (a + 256 * b + 65536 * c + 16777216 * d)
uint32 _ = 0

pub uint32-put : (v : ℕ) → v < 4294967296 → uint32 (put_uint32 v) ≡ v
unfolding uint32 put_uint32
uint32-put v h = omega arith

pub uint32-put_append : (v : ℕ) (rest : List ℕ) → v < 4294967296 → uint32 (put_uint32 v ++ rest) ≡ v
unfolding uint32 put_uint32
uint32-put_append v rest h = omega arith

pub length-put_uint32 : (v : ℕ) → length (put_uint32 v) ≡ 4
unfolding put_uint32
length-put_uint32 v = refl

pub uint32-lt : (bs : List ℕ) → uint32 bs < 4294967296
unfolding uint32
uint32-lt [] = omega arith
uint32-lt (a ∷ []) = omega arith
uint32-lt (a ∷ b ∷ []) = omega arith
uint32-lt (a ∷ b ∷ c ∷ []) = omega arith
uint32-lt (a ∷ b ∷ c ∷ d ∷ rest) = omega arith
