-- ===== src/Client/Share/Session.antt =====
-- A run of the user interface of client/tui/share.go: the messages that bubbletea delivers to `Update`, and
-- the commands it runs. A list of devices is delivered for a command that asked for it, and every join
-- request brings a channel of its own (`runOwnerFlow`).
use adb_remote.Prelude.{ℕ, ◌+◌, ◌-◌, ◌≤◌, ◌≡◌, Bool, List, [], ◌∷◌, some, Error, ok}
use adb_remote.Client.Share.{
  ShareModel, Command, no_command, quit_program, fetch_devices_list, tick_stats, Message,
  devices_loaded, join_request, new_share_model, update, init,
}

pub record Session : Type 0 where
  pub model : ShareModel
  pub fetching : ℕ
  pub next_channel : ℕ

-- How many requests for the devices a command makes.
abbrev pub asks : Command → ℕ
asks fetch_devices_list = 1
asks no_command = 0
asks quit_program = 0
asks tick_stats = 0

abbrev pub asks_all : List Command → ℕ
asks_all [] = 0
asks_all (c ∷ cs) = asks c + asks_all cs

-- The requests and the channels that a message takes up.
abbrev pub answers_fetch : Message → ℕ
answers_fetch (devices_loaded _ _) = 1
answers_fetch _ = 0

abbrev pub opens : Message → ℕ
opens (join_request _ _ _) = 1
opens _ = 0

-- What the runtime and `runOwnerFlow` can deliver.
unfoldable pub Possible : Message → Session → Type 0
Possible (devices_loaded _ _) s = 1 ≤ s.fetching
Possible (join_request _ _ ref) s = ref ≡ s.next_channel
Possible _ s = Unit

abbrev pub started : List ℕ → Bool → List ℕ → Session
started preset auto own =
    let m = new_share_model preset auto own in
    record { model = m; fetching = asks_all (init m.stage); next_channel = 0 }

abbrev pub delivered : Message → Session → ShareModel × Command → Session
delivered msg s (m, c) = record {
  model = m;
  fetching = s.fetching - answers_fetch msg + asks c;
  next_channel = s.next_channel + opens msg;
}

module _ (fingerprint : List ℕ → List ℕ) (error_text : Error → List ℕ) where
  -- The sessions that follow one.
  pub data Follows (s : Session) : Session → Type 0 where
    now : Follows s s
    next :
        (s' : Session) (msg : Message) (x : ShareModel × Command)
        → Follows s s'
        → Possible msg s'
        → update fingerprint error_text msg s'.model ≡ ok x
        → Follows s (delivered msg s' x)

-- The session once a join request was shown, with a channel of its own.
abbrev pub prompted_with : List ℕ → List ℕ → Session → Session
prompted_with guest print s = record {
  model = record s.model {
    pending_guest_id = guest;
    pending_fingerprint = print;
    pending_respond = some s.next_channel;
  };
  fetching = s.fetching;
  next_channel = s.next_channel + 1;
}
