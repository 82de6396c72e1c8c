-- ===== src/Client/Transport/Reader.antt =====
-- The life of a client's connection in client/transportLayer/client.go: `Start`, the loop of `startReader`,
-- `EnableDebugCapture` and `Close`. Whether dialling, creating a file and writing to it succeed is an argument.
-- Other goroutines use the pool and the writer between two rounds of the reader; what they leave of the pool, and
-- when the context is cancelled, are parameters. The rounds are fuel, and a parameter is given the rounds left.
pub mod Ending
use adb_remote.Prelude.{
  ℕ, zero, suc, ◌+◌, Bool, true, false, List, [], ◌∷◌, Option, none, some, if◌then◌else◌, Result,
  ok, err, panic,
}
use adb_remote.Protocol.Message.{TransporterMessage}
use adb_remote.Pool.{ObjectPool, new_object_pool}
use adb_remote.Client.Transport.{Client, read_round}

-- The files of captures are numbered in the order in which they were created.
pub record Link : Type 0 where
  pub connected : Bool
  pub cancelled : Bool
  pub connection_closed : Bool
  pub capture : Option ℕ
  pub files : ℕ
  pub closed_files : List ℕ

unfoldable pub create_client : Link
create_client = record {
  connected = false;
  cancelled = false;
  connection_closed = false;
  capture = none;
  files = 0;
  closed_files = [];
}

unfoldable pub enable_debug_capture : Bool → Bool → Link → Link × Bool
enable_debug_capture created header l =
    if created
    then (if header
        then (record l { capture = some l.files; files = l.files + 1 }, true)
        else (record l { files = l.files + 1; closed_files = l.files ∷ l.closed_files }, false))
    else (l, false)

unfoldable pub start : Bool → Link → Link × Bool
start dialled l =
    if dialled
    then (record l { connected = true; cancelled = false; connection_closed = false }, true)
    else (l, false)

unfoldable pub close_capture : Option ℕ → Link → Link
close_capture none l = l
close_capture (some f) l = record l { closed_files = f ∷ l.closed_files }

unfoldable pub close : Link → Link
unfolding close_capture
close l =
    close_capture l.capture
      (if l.connected then record l { cancelled = true; connection_closed = true } else l)

-- Where the reader is: past the closing of the channel, or still in the select, with a message that nobody takes
-- and no cancellation.
pub data Standing : Type 0 where
  channel_closed waiting out_of_rounds : Standing

-- The client, the containers that were delivered, the first one first, and where the reader is.
abbrev pub Readings : Type 0
Readings = Client × List ℕ × Standing

abbrev pub handed_over : ℕ → Readings → Readings
handed_over r (c, rs, standing) = (c, r ∷ rs, standing)

-- `checks` is what ctx.Err() finds, `done` whether the select takes the cancellation, and `takes` whether someone
-- receives from the channel while the select waits.
module _ (others : ℕ → ObjectPool TransporterMessage → ObjectPool TransporterMessage)
    (checks done takes : ℕ → Bool) where
  abbrev pub meanwhile : ℕ → Client → Client
  meanwhile n c = record c { pool = others n c.pool }

  unfoldable pub start_reader : ℕ → Client → Readings
  unfolding read_round
  start_reader zero c = (c, [], out_of_rounds)
  start_reader (suc n) c =
      let (c', r) = read_round (done n) c in
      let rest = start_reader n (meanwhile n c') in
      if checks n then (c, [], channel_closed) else elim r [
        | ok k ↦ if takes n then handed_over k rest else (c', [], waiting)
        | err e ↦ (c', [], channel_closed)
        | panic ↦ (c', [], channel_closed)
      ]
