-- ===== src/Client/Connect/Shown.antt =====
-- What the guest is shown of the room's owner (client/tui/connect.go).
use adb_remote.Prelude.{
  ℕ, ◌<◌, ◌≡◌, refl, true, false, List, [], ◌∷◌, length, ◌==◌, Error, ascii, arith,
}
use adb_remote.Client.Controller.{
  join_decided, proxy_ready, local_adb_connected, adb_connected, transport_lost, adb_connect_failed,
  relay_stopped,
}
use adb_remote.Client.Screen.Styles.{
  Style, label_style, success_style, Shows, Shows-self, Shows-before, Shows-after, Shows-first,
  Shows-next, printable, KeepsText,
}
use adb_remote.Client.Connect.{
  ConnectModel, ConnectMessage, window_size, key_pressed, client_identified, joining, guest_event,
  connect_error, transfer_tick, handle_guest_event, update_connect,
}
use adb_remote.Client.Connect.View.{owner_view, body_view}

-- A message that is no decision of the owner.
unfoldable pub Undecided : ConnectMessage → Type 0
Undecided (guest_event (join_decided accepted owner key)) = ⊥
Undecided (guest_event (proxy_ready port)) = Unit {0}
Undecided (guest_event local_adb_connected) = Unit {0}
Undecided (guest_event adb_connected) = Unit {0}
Undecided (guest_event transport_lost) = Unit {0}
Undecided (guest_event (adb_connect_failed e)) = Unit {0}
Undecided (guest_event (relay_stopped e)) = Unit {0}
Undecided (window_size w h) = Unit {0}
Undecided (key_pressed k) = Unit {0}
Undecided (client_identified id) = Unit {0}
Undecided joining = Unit {0}
Undecided (connect_error e) = Unit {0}
Undecided transfer_tick = Unit {0}

unfoldable pub AllUndecided : List ConnectMessage → Type 0
AllUndecided [] = Unit {0}
AllUndecided (msg ∷ msgs) = Undecided msg × AllUndecided msgs

module _ (render : Style → List ℕ → List ℕ) (error_text : Error → List ℕ)
    (fingerprint : List ℕ → List ℕ) where
  unfoldable pub updates : List ConnectMessage → ConnectModel → ConnectModel
  updates [] m = m
  updates (msg ∷ msgs) m = updates msgs (update_connect fingerprint msg m).0

  -- The owner's id and fingerprint.
  abbrev Owner : List ℕ → List ℕ → ConnectModel → Type 0
  Owner owner print m = (m.owner_client_id ≡ owner) × (m.owner_fingerprint ≡ print)

  update_connect-Owner :
      (owner print : List ℕ) (msg : ConnectMessage) (m : ConnectModel)
      → Undecided msg
      → Owner owner print m
      → Owner owner print (update_connect fingerprint msg m).0
  unfolding Undecided update_connect handle_guest_event
  update_connect-Owner owner print (guest_event (join_decided accepted o key)) m u h = absurd u
  update_connect-Owner owner print (guest_event (proxy_ready port)) m u h = h
  update_connect-Owner owner print (guest_event local_adb_connected) m u h = h
  update_connect-Owner owner print (guest_event adb_connected) m u h = h
  update_connect-Owner owner print (guest_event transport_lost) m u h = h
  update_connect-Owner owner print (guest_event (adb_connect_failed e)) m u h = h
  update_connect-Owner owner print (guest_event (relay_stopped e)) m u h = h
  update_connect-Owner owner print (window_size w k) m u h = h
  update_connect-Owner owner print (key_pressed k) m u h = h
  update_connect-Owner owner print (client_identified id) m u h = h
  update_connect-Owner owner print joining m u h = h
  update_connect-Owner owner print (connect_error e) m u h = h
  update_connect-Owner owner print transfer_tick m u h = h

  updates-Owner :
      (owner print : List ℕ) (msgs : List ConnectMessage) (m : ConnectModel)
      → AllUndecided msgs
      → Owner owner print m
      → Owner owner print (updates msgs m)
  unfolding updates AllUndecided
  updates-Owner owner print [] m u h = h
  updates-Owner owner print (msg ∷ msgs) m (u, us) h =
      updates-Owner owner print msgs (update_connect fingerprint msg m).0 us
        (update_connect-Owner owner print msg m u h)

  module _ (keeps : KeepsText render) where
    Owner-shown :
        (owner print : List ℕ) (m : ConnectModel)
        → 0 < length owner
        → printable owner ≡ true
        → Owner owner print m
        → Shows owner (owner_view render error_text m)
          × Shows print (owner_view render error_text m)
    unfolding owner_view KeepsText
    Owner-shown owner print m named clean (e, f) =
        let known : (length owner == 0) ≡ false = ground (arith, named) in
        rw (e, f, known)
          (
            Shows-before owner _ _ (
                Shows-before owner _ _ (
                  Shows-after owner (render label_style (ascii "Room owner: ")) _
                    (keeps success_style owner clean))),
            Shows-after print _ _ (
                Shows-before print _ _ (
                  Shows-after print (render label_style (ascii "  Owner fingerprint: ")) print
                    (Shows-self print))),
          )

    -- When the owner's acceptance is reported with an id that is not empty and has no control bytes, and the
    -- styles put escapes around such a text without changing it, then the body of the guest's screen has that id
    -- and the fingerprint of the owner's key from then on, whatever messages follow that are no decision.
    pub owner_stays_shown :
        (owner key : List ℕ) (msgs : List ConnectMessage) (m : ConnectModel)
        → 0 < length owner
        → printable owner ≡ true
        → AllUndecided msgs
        → let m' = updates (guest_event (join_decided true owner key) ∷ msgs) m in
          Shows owner (body_view render error_text m')
          × Shows (fingerprint key) (body_view render error_text m')
    unfolding updates body_view update_connect handle_guest_event
    owner_stays_shown owner key msgs m named clean undecided =
        let accepted = handle_guest_event fingerprint (join_decided true owner key) m in
        let m' = updates msgs accepted in
        let (id, print) =
          Owner-shown owner (fingerprint key) m' named clean
            (updates-Owner owner (fingerprint key) msgs accepted undecided (refl, refl)) in
        (
          Shows-next owner _ _ (
              Shows-next owner _ _ (
                Shows-next owner _ _
                  (Shows-next owner _ _ (Shows-next owner _ _ (Shows-first owner _ _ id))))),
          Shows-next (fingerprint key) _ _ (
              Shows-next (fingerprint key) _ _ (
                Shows-next (fingerprint key) _ _ (
                  Shows-next (fingerprint key) _ _
                    (Shows-next (fingerprint key) _ _ (Shows-first (fingerprint key) _ _ print))))),
        )
