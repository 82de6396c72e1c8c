-- ===== src/Transporter/Connection/Run/Ending.antt =====
-- How the goroutine of a connection in clientConnection.go ends.
use Prim.Native.Nat.{suc}
use adb_remote.Prelude.{ℕ, ◌+◌, ◌*◌, ◌≤◌, ◌≡◌, Bool, true, false, length, Result, ok, err, panic}
use adb_remote.Protocol.Message.{TransporterMessage}
use adb_remote.Pool.{ObjectPool}
use adb_remote.Transporter.Connection.{Connection}
use adb_remote.Transporter.Connection.Run.{
  Standing, returned, held_by_report, held_by_delivery, out_of_rounds, Run,
}

-- A read leaves no more than `n` bytes, and closes the connection unless it delivers a container, for which it
-- took at least a header.
abbrev Reads : ℕ → Connection × Result ℕ → Type 0
Reads n (cc, ok r) = 12 + length cc.input ≤ n
Reads n (cc, err e) = (length cc.input ≤ n) × (cc.closed ≡ true)
Reads n (cc, panic) = (length cc.input ≤ n) × (cc.closed ≡ true)

module _ (others : ℕ → ObjectPool TransporterMessage → ObjectPool TransporterMessage)
    (delivers : ℕ → Bool) (reports : Bool) where
  -- Behind `k` deliveries, the goroutine returned and the connection is closed, or it is closed and nobody takes the
  -- report of that, or nobody takes the next message.
  unfoldable pub Settled : ℕ → ℕ → Standing → Type 0
  Settled fuel k (returned cc) = (cc.closed ≡ true) × (reports ≡ true)
  Settled fuel k (held_by_report closed) = (closed ≡ true) × (reports ≡ false)
  Settled fuel k (held_by_delivery r cc) = (n : ℕ) × (suc n + k ≡ fuel) × (delivers n ≡ false)
  Settled fuel k (out_of_rounds cc) = ⊥

  -- Every delivered message took a header's bytes at least.
  abbrev Ended : ℕ → ℕ → Run → Type 0
  Ended fuel n (rs, standing) = Settled fuel (length rs) standing × (12 * length rs ≤ n)
