-- ===== src/Tests/ConnectionManager.antt =====
-- The transporter's connection manager on a short run.
use adb_remote.Prelude.{ℕ, ◌≡◌, [], ◌∷◌, List}
use adb_remote.Transporter.ConnectionManager.{
  create_connection_manager, Event, accepts, ends, refuses, stop_begins, stop_ends, run,
}
use adb_remote.Transporter.ConnectionManager.Registered.{count}
use adb_remote.Transporter.ConnectionManager.Stopping.{stop_closes_copied}

-- Two connections, one of which ends twice.
abbrev events : List Event
events = accepts ∷ ends 0 ∷ accepts ∷ ends 0 ∷ refuses 0 ∷ []

stop_closes_copied_example :
    let cm = run create_connection_manager events in
    ((r : ℕ) → count r (run cm (stop_begins ∷ stop_ends cm.connections ∷ [])).connections ≡ 0)
    × (count cm.next_ref
          (run cm (stop_begins ∷ accepts ∷ stop_ends cm.connections ∷ [])).connections
        ≡ 1)
stop_closes_copied_example = stop_closes_copied events
