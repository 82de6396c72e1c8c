-- ===== src/Prelude/Slices.antt =====
-- What slices and stores do to an array that is split where they act.
use Prim.Native.Nat.{ℕ, ◌+◌, ◌-◌, ◌≤◌}
use mathlib.Core.Path.{◌≡◌, ap₂}
use mathlib.Core.List.{List, ◌++◌, append_assoc, append-nil}
use native.Mathlib.Omega.{arith}
use adb_remote.Prelude.Lists.{
  length, take, drop, length-append, take-append, drop-append, length-take, length-drop, drop-all,
}
use adb_remote.Prelude.Results.{ok, slice, overwrite}

-- The slice between two known cuts.
pub slice_at :
    (pre mid post : List ℕ) (lo hi : ℕ)
    → length pre ≡ lo
    → lo + length mid ≡ hi
    → slice lo hi (pre ++ mid ++ post) ≡ ok mid
unfolding slice
slice_at pre mid post lo hi e f = ground (
  arith,
  length-append (pre ++ mid) post,
  length-append pre mid,
  drop_mid,
  take-append mid post (hi - lo) (omega arith),
)
  where
    drop_mid : drop lo (pre ++ mid ++ post) ≡ mid ++ post
    drop_mid = rw (append_assoc pre mid post) (drop-append pre (mid ++ post) lo e)

pub overwrite_at :
    (pre bs suf : List ℕ) (lo : ℕ)
    → length pre ≡ lo
    → overwrite lo bs (pre ++ suf) ≡ pre ++ bs ++ drop (length bs) suf
unfolding overwrite
overwrite_at pre bs suf lo e =
    ap₂ (λ a b. a ++ bs ++ drop (length bs) b) (take-append pre suf lo e) (drop-append pre suf lo e)

pub length-overwrite :
    (lo : ℕ) (bs xs : List ℕ) → lo + length bs ≤ length xs → length (overwrite lo bs xs) ≡ length xs
unfolding overwrite
length-overwrite lo bs xs h = omega (
  arith,
  length-append (take lo xs ++ bs) (drop (length bs) (drop lo xs)),
  length-append (take lo xs) bs,
  length-take lo xs,
  length-drop lo xs,
  length-drop (length bs) (drop lo xs),
)

pub slice_within :
    (lo hi : ℕ) (xs : List ℕ)
    → lo ≤ hi
    → hi ≤ length xs
    → slice lo hi xs ≡ ok (take (hi - lo) (drop lo xs))
unfolding slice
slice_within lo hi xs h k = ground arith

pub length-slice_within :
    (lo hi : ℕ) (xs : List ℕ)
    → lo ≤ hi
    → hi ≤ length xs
    → length (take (hi - lo) (drop lo xs)) ≡ hi - lo
length-slice_within lo hi xs h k =
    omega (arith, length-take (hi - lo) (drop lo xs), length-drop lo xs)

pub overwrite_all : (bs xs : List ℕ) → length xs ≤ length bs → overwrite 0 bs xs ≡ bs
unfolding overwrite
overwrite_all bs xs h = rw (drop-all (length bs) xs h) (append-nil bs)
