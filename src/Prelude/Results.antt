-- ===== src/Prelude/Results.antt =====
-- Go's outcomes: a value, an `error`, or a run-time panic; and a state monad over them.
use Prim.Native.Nat.{ℕ, ◌-◌}
use mathlib.Core.Path.{◌≡◌, refl}
use mathlib.Core.Bool.{Bool, true, false, ◌&&◌}
use mathlib.Core.List.{List, ◌++◌}
use adb_remote.Prelude.Tests.{leb, if◌then◌else◌}
use adb_remote.Prelude.Lists.{length, take, drop}

-- The errors of the source, one constructor for each place that makes one.
pub data Error : Type 0 where
  eof unexpected_eof short_write connection_closed : Error
  ensure_length_failed : ℕ → ℕ → Error
  payload_too_large : Error
  invalid_crc32 : ℕ → ℕ → Error
  not_enough_space : ℕ → ℕ → Error
  not_enough_data : ℕ → ℕ → Error
  string_too_long : ℕ → ℕ → Error
  unexpected_command : ℕ → ℕ → Error
  already_disposed : Error
  remote_error : ℕ → List ℕ → Error
  message_too_short : Error
  invalid_command : ℕ → Error
  invalid_magic : ℕ → ℕ → Error
  data_too_long : ℕ → ℕ → Error
  transport_closed : Error
  join_room_denied : Error
  invalid_number : Error
  other : List ℕ → Error

pub data Result {ℓ} (A : Type ℓ) : Type ℓ where
  ok : A → Result A
  err : Error → Result A
  panic : Result A

-- What a call leaves behind and what it returns. The state survives an error and a panic.
abbrev pub M : Type 0 → Type 0 → Type 0
M S A = S → S × Result A

abbrev pub bind : {S A B : Type 0} → S × Result A → (A → M S B) → S × Result B
bind (s, ok a) f = f a s
bind (s, err e) f = (s, err e)
bind (s, panic) f = (s, panic)

abbrev pub pure : {S A : Type 0} → A → M S A
pure a s = (s, ok a)

abbrev pub fail : {S A : Type 0} → Error → M S A
fail e s = (s, err e)

abbrev pub get_state : {S : Type 0} → M S S
get_state s = (s, ok s)

abbrev pub put_state : {S : Type 0} → S → M S (Unit {0})
put_state t s = (t, ok tt)

abbrev pub lift : {S A : Type 0} → Result A → M S A
lift r s = (s, r)

infixl 5 ◌>>=◌ ◌>>◌
abbrev pub ◌>>=◌ : {S A B : Type 0} → M S A → (A → M S B) → M S B
◌>>=◌ m f s = bind (m s) f

abbrev pub ◌>>◌ : {S B : Type 0} → M S (Unit {0}) → M S B → M S B
◌>>◌ m k s = bind (m s) (λ _. k)

-- `if bad { return e }`.
abbrev pub reject_if : {S : Type 0} → Bool → Error → M S (Unit {0})
reject_if true e s = (s, err e)
reject_if false e s = (s, ok tt)

-- A result that is no panic.
abbrev pub Returns {ℓ} : {A : Type ℓ} → Result A → Type 0
Returns (ok a) = Unit
Returns (err e) = Unit
Returns panic = ⊥

-- `xs[lo:hi]`: a run-time panic outside the slice.
unfoldable pub slice : ℕ → ℕ → List ℕ → Result (List ℕ)
slice lo hi xs = if leb lo hi && leb hi (length xs) then ok (take (hi - lo) (drop lo xs)) else panic

-- The bytes of `xs` with those from `lo` on replaced by `bs`, and what lies beyond kept.
unfoldable pub overwrite : ℕ → List ℕ → List ℕ → List ℕ
overwrite lo bs xs = take lo xs ++ bs ++ drop (length bs) (drop lo xs)

pub bind_assoc :
    {S A B C : Type 0} (r : S × Result A) (f : A → M S B) (g : B → M S C)
    → bind (bind r f) g ≡ bind r (λ a s. bind (f a s) g)
bind_assoc (s, ok a) f g = refl
bind_assoc (s, err e) f g = refl
bind_assoc (s, panic) f g = refl
