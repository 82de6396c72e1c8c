-- ===== src/Client/NetConn.antt =====
-- A connection of package net, as the client uses it: what the peer has sent and is not read, what the
-- peer has been sent, and whether the connection was closed on this side.
use adb_remote.Prelude.{ℕ, Bool, true, List, Result, ok, err, panic, M}
use adb_remote.Protocol.Message.{Writer, read_full, write_bytes}

pub record NetConn : Type 0 where
  pub input : List ℕ
  pub writer : Writer
  pub closed : Bool

abbrev pub keep_bytes : {S : Type 0} → List ℕ → S × Result ℕ → S × Result (List ℕ)
keep_bytes bs (s, ok _) = (s, ok bs)
keep_bytes bs (s, err e) = (s, err e)
keep_bytes bs (s, panic) = (s, panic)

-- io.ReadFull into a new buffer of `n` bytes.
unfoldable pub receive : ℕ → M NetConn (List ℕ)
unfolding read_full
receive n conn =
    let (got, rest, r) = read_full n conn.input in keep_bytes got (record conn { input = rest }, r)

unfoldable pub transmit : List ℕ → M NetConn ℕ
unfolding write_bytes
transmit bs conn = let (w, r) = write_bytes bs conn.writer in (record conn { writer = w }, r)

unfoldable pub close_conn : NetConn → NetConn
close_conn conn = record conn { closed = true }
