-- ===== src/Transporter/ConnectionManager.antt =====
-- transporter/manager/connectionManager/connectionManager.go, and `internalClose` of clientConnection.go: the
-- list of the connections, and the report of each one's end. Connections are shared by pointer, so they stand
-- in a store under references; `disconnected` is what `ClientDisconnectedChannel` was sent, the latest first.
-- A call that holds the mutex, or that `closeOnce` guards, is one step.
pub mod Registered
pub mod Stopping
use adb_remote.Prelude.{ℕ, ◌+◌, Bool, true, false, List, [], ◌∷◌, ◌==◌, if◌then◌else◌}

-- Whether the socket is closed, and whether `closeOnce` was used.
pub record ClientConnection : Type 0 where
  pub socket_closed : Bool
  pub close_once : Bool

pub record ConnectionManager : Type 0 where
  pub connections : List ℕ
  pub store : ℕ → ClientConnection
  pub next_ref : ℕ
  pub disconnected : List ℕ
  pub cancelled : Bool
  pub server_closed : Bool

unfoldable pub create_connection_manager : ConnectionManager
create_connection_manager = record {
  connections = [];
  store = λ r. record { socket_closed = true; close_once = false };
  next_ref = 0;
  disconnected = [];
  cancelled = false;
  server_closed = false;
}

unfoldable pub put_connection : ℕ → ClientConnection → ConnectionManager → ConnectionManager
put_connection r x cm = record cm { store = λ q. if q == r then x else cm.store q }

-- A connection that `Accept` returned: it is registered, at the front.
unfoldable pub register_connection : ConnectionManager → ConnectionManager
unfolding put_connection
register_connection cm =
    let r = cm.next_ref in
    put_connection r (record { socket_closed = false; close_once = false })
      (record cm { connections = r ∷ cm.connections; next_ref = r + 1 })

-- The search for the element.
unfoldable pub registered : ℕ → List ℕ → Bool
registered r [] = false
registered r (q ∷ rest) = let later = registered r rest in if q == r then true else later

unfoldable pub remove : ℕ → List ℕ → List ℕ
remove r [] = []
remove r (q ∷ rest) = let others = remove r rest in if q == r then rest else q ∷ others

unfoldable pub internal_close_client : ℕ → ConnectionManager → ConnectionManager
unfolding put_connection registered remove
internal_close_client r cm =
    let cm' = put_connection r (record (cm.store r) { socket_closed = true }) cm in
    if registered r cm.connections
    then record cm' { connections = remove r cm.connections; disconnected = r ∷ cm.disconnected }
    else cm'

-- `closeOnce.Do`.
unfoldable pub internal_close : ℕ → ConnectionManager → ConnectionManager
unfolding internal_close_client put_connection
internal_close r cm =
    if (cm.store r).close_once
    then cm
    else internal_close_client r (put_connection r (record (cm.store r) { close_once = true }) cm)

unfoldable pub close_connections : List ℕ → ConnectionManager → ConnectionManager
unfolding internal_close
close_connections [] cm = cm
close_connections (r ∷ rest) cm = close_connections rest (internal_close r cm)

-- `Stop` cancels and copies the list, and then closes the listener and what it copied.
unfoldable pub begin_stop : ConnectionManager → ConnectionManager
begin_stop cm = record cm { cancelled = true }

unfoldable pub end_stop : List ℕ → ConnectionManager → ConnectionManager
unfolding close_connections
end_stop copied cm = close_connections copied (record cm { server_closed = true })

-- What the goroutines do: accept a connection, end one, refuse one in its handshake, which does not use
-- `closeOnce`, or a part of `Stop`.
pub data Event : Type 0 where
  accepts : Event
  ends : ℕ → Event
  refuses : ℕ → Event
  stop_begins : Event
  stop_ends : List ℕ → Event

unfoldable pub step : ConnectionManager → Event → ConnectionManager
unfolding register_connection internal_close internal_close_client begin_stop end_stop
step cm accepts = register_connection cm
step cm (ends r) = internal_close r cm
step cm (refuses r) = internal_close_client r cm
step cm stop_begins = begin_stop cm
step cm (stop_ends copied) = end_stop copied cm

unfoldable pub run : ConnectionManager → List Event → ConnectionManager
unfolding step
run cm [] = cm
run cm (e ∷ es) = run (step cm e) es
