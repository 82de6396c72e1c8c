-- ===== src/Transporter/Connection/Run.antt =====
-- The goroutine of a connection, `run` in transporter/manager/connectionManager/clientConnection.go. Between two
-- messages other goroutines use the shared pool: what they leave of it is a parameter, and so is whether the
-- unbuffered channels on which the goroutine sends have a receiver. The rounds of its loop are fuel, and a
-- parameter is given the rounds left.
pub mod Shaking
pub mod Ending
use Prim.Native.Nat.{zero, suc}
use adb_remote.Prelude.{ℕ, Bool, true, false, List, [], ◌∷◌, Result, ok, err, panic, if◌then◌else◌}
use adb_remote.Protocol.Message.{TransporterMessage}
use adb_remote.Pool.{ObjectPool}
use adb_remote.Transporter.Connection.{Connection, internal_close, read_next_message}
use adb_remote.Transporter.Connection.Handshake.{perform_handshake}

-- Where the goroutine is: it returned, or it stands in one of its two sends. With a report that nobody takes, the
-- disposals that the handshake defers have not run: all that is told of the connection is whether it is closed.
pub data Standing : Type 0 where
  returned : Connection → Standing
  held_by_report : Bool → Standing
  held_by_delivery : ℕ → Connection → Standing
  out_of_rounds : Connection → Standing

-- The containers that were delivered, the first one first, and where the goroutine is.
abbrev pub Run : Type 0
Run = List ℕ × Standing

abbrev pub delivered : ℕ → Run → Run
delivered r (rs, standing) = (r ∷ rs, standing)

-- `delivers` is whether ClientMessageChannel has a receiver for a message, and `reports` whether `internalClose`
-- gets past the send on ClientDisconnectedChannel that ends it, made by this goroutine or by another one that
-- closes the connection at the same time.
module _ (others : ℕ → ObjectPool TransporterMessage → ObjectPool TransporterMessage)
    (delivers : ℕ → Bool) (reports : Bool) where
  abbrev pub meanwhile : ℕ → Connection → Connection
  meanwhile n cc = record cc { pool = others n cc.pool }

  -- What follows an `internalClose`, of which a run makes one.
  abbrev pub after_close : Connection → Standing
  after_close cc = if reports then returned cc else held_by_report cc.closed

  unfoldable pub read_loop : ℕ → Connection → Run
  unfolding read_next_message
  read_loop zero cc = ([], out_of_rounds cc)
  read_loop (suc n) cc =
      let (cc', r) = read_next_message cc in
      let rest = read_loop n (meanwhile n cc') in
      elim r [
        | ok c ↦ if delivers n then delivered c rest else ([], held_by_delivery c cc')
        | err e ↦ ([], after_close cc')
        | panic ↦ ([], after_close cc')
      ]

  -- Behind the handshake; the deferred function recovers from its panic.
  unfoldable pub after_handshake : ℕ → Connection × Result Bool → Run
  unfolding read_loop internal_close
  after_handshake fuel (cc, ok true) = read_loop fuel (meanwhile fuel cc)
  after_handshake fuel (cc, ok false) = ([], after_close cc)
  after_handshake fuel (cc, err e) = ([], after_close cc)
  after_handshake fuel (cc, panic) = ([], after_close (internal_close cc))

  unfoldable pub run_connection : List ℕ → ℕ → Connection → Run
  unfolding after_handshake
  run_connection id fuel cc = after_handshake fuel (perform_handshake id cc)
