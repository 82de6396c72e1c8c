-- ===== src/Client/Multiplexer/RunOwner/Turns.antt =====
-- The turns of RunOwner in client/relay/owner.go: what each keeps of the streams, and which containers it has
-- disposed of.
use adb_remote.Prelude.{
  ℕ, ◌≡◌, ◌≢◌, refl, sym, ◌∙◌, ap, Bool, true, false, List, [], ◌∷◌, ◌++◌, ◌==◌, not, if◌then◌else◌,
  none, some, Result, ok, err, panic, append-nil, append_assoc, inl, inr, ◌⊎◌, subst,
}
use adb_remote.Protocol.Constants.{command_adb_transport}
use adb_remote.Protocol.Message as Transporter
use adb_remote.Protocol.Message.{TransporterMessage, payload}
use adb_remote.Client.AdbMessage.{AdbMessage}
use adb_remote.Client.Relay.{decode_payload}
use adb_remote.Client.Multiplexer.{
  OwnerMultiplexer, dispatch, message, reads, sends, finishes, closes, step,
}
use adb_remote.Client.Multiplexer.Streams.{Inv}
use adb_remote.Client.Multiplexer.Runs.{step_kept}
use adb_remote.Client.Multiplexer.Leaks.{Inv-Kept}
use adb_remote.Client.Multiplexer.RunOwner.{
  Turn, cancelled, closed_channel, received, device_read, pump_sends, pump_finishes, Outcome,
  running, context_done, transport_closed, container_unusable, panicked, OwnerRun, leave,
  dispose_of, dispatch_container, receive, between, turn, while_running, run_owner,
}

-- The containers that turns hand over, the latest first.
unfoldable pub containers : List Turn → List ℕ
containers [] = []
containers (received c m ∷ ts) = containers ts ++ (c ∷ [])
containers (cancelled ∷ ts) = containers ts
containers (closed_channel ∷ ts) = containers ts
containers (device_read r bytes failed ∷ ts) = containers ts
containers (pump_sends r ∷ ts) = containers ts
containers (pump_finishes r ∷ ts) = containers ts

-- One turn before others.
containers-cons :
    (t : Turn) (ts : List Turn) → containers (t ∷ ts) ≡ containers ts ++ containers (t ∷ [])
unfolding containers
containers-cons (received c m) ts = refl
containers-cons cancelled ts = sym (append-nil (containers ts))
containers-cons closed_channel ts = sym (append-nil (containers ts))
containers-cons (device_read r bytes failed) ts = sym (append-nil (containers ts))
containers-cons (pump_sends r) ts = sym (append-nil (containers ts))
containers-cons (pump_finishes r) ts = sym (append-nil (containers ts))

pub containers-snoc :
    (ts : List Turn) (t : Turn) → containers (ts ++ t ∷ []) ≡ containers (t ∷ []) ++ containers ts
unfolding containers
containers-snoc [] t = sym (append-nil (containers (t ∷ [])))
containers-snoc (u ∷ ts) t =
    containers-cons u (ts ++ t ∷ [])
    ∙ ap (λ cs. cs ++ containers (u ∷ [])) (containers-snoc ts t)
    ∙ append_assoc (containers (t ∷ [])) (containers ts) (containers (u ∷ []))
    ∙ ap (λ cs. containers (t ∷ []) ++ cs) (sym (containers-cons u ts))

module _ (fails : ℕ → Bool) where
  -- Either the loop goes on from a sound state, or it has closed every stream of one.
  abbrev pub Left : OwnerRun → Type 0
  Left s =
      (Inv s.multiplexer × (s.outcome ≡ running))
      ⊎ ((m : OwnerMultiplexer) × Inv m
          × (s.outcome ≢ running)
          × (s.multiplexer ≡ step fails m closes))

  leave-Left :
      (o : Outcome) (s : OwnerRun) → o ≢ running → Inv s.multiplexer → Left (leave fails o s)
  unfolding leave step
  leave-Left o s ends v = inr (s.multiplexer, v, ends, refl)

  either-Left : (b : Bool) (s t : OwnerRun) → Left s → Left t → Left (if b then s else t)
  either-Left true s t v w = v
  either-Left false s t v w = w

  dispatch_container-Left :
      (c : ℕ) (d : Result AdbMessage) (s : OwnerRun)
      → Inv s.multiplexer
      → s.outcome ≡ running
      → Left (dispatch_container fails c d s)
  unfolding dispatch_container dispose_of step
  dispatch_container-Left c (ok a) s v live =
      let m = (dispatch fails a s.multiplexer).0 in
      let v' : Inv m = step_kept fails Inv (Inv-Kept fails) s.multiplexer (message a) v in
      either-Left (dispatch fails a s.multiplexer).1 _ _ (inl (v', live))
        (leave-Left panicked (dispose_of fails c (record s { multiplexer = m })) (λ e. cc) v')
  dispatch_container-Left c (err e) s v live = inl (v, live)
  dispatch_container-Left c panic s v live = leave-Left panicked (dispose_of fails c s) (λ e. cc) v

  pub turn-Left :
      (t : Turn) (s : OwnerRun) → Inv s.multiplexer → s.outcome ≡ running → Left (turn fails t s)
  unfolding turn receive between dispose_of
  turn-Left cancelled s v live = leave-Left context_done s (λ e. cc) v
  turn-Left closed_channel s v live = leave-Left transport_closed s (λ e. cc) v
  turn-Left (received c none) s v live =
      leave-Left container_unusable (dispose_of fails c s) (λ e. cc) v
  turn-Left (received c (some m)) s v live =
      either-Left (not (Transporter.command m == command_adb_transport)) _ _ (inl (v, live))
        (dispatch_container-Left c (decode_payload (payload m)) s v live)
  turn-Left (device_read r bytes failed) s v live =
      inl (step_kept fails Inv (Inv-Kept fails) s.multiplexer (reads r bytes failed) v, live)
  turn-Left (pump_sends r) s v live =
      inl (step_kept fails Inv (Inv-Kept fails) s.multiplexer (sends r) v, live)
  turn-Left (pump_finishes r) s v live =
      inl (step_kept fails Inv (Inv-Kept fails) s.multiplexer (finishes r) v, live)

  -- The loop goes on only from a state that runs.
  ran :
      (o : Outcome) (s t : OwnerRun)
      → s.outcome ≡ o
      → (while_running fails o s t).outcome ≡ running
      → o ≡ running
  ran running s t e live = refl
  ran context_done s t e live = sym e ∙ live
  ran transport_closed s t e live = sym e ∙ live
  ran container_unusable s t e live = sym e ∙ live
  ran panicked s t e live = sym e ∙ live

  run_owner_ran :
      (ts : List Turn) (s : OwnerRun)
      → (run_owner fails ts s).outcome ≡ running
      → s.outcome ≡ running
  unfolding run_owner
  run_owner_ran [] s live = live
  run_owner_ran (t ∷ ts) s live = ran s.outcome s (run_owner fails ts (turn fails t s)) refl live

  goes_on :
      (t : Turn) (ts : List Turn) (s : OwnerRun)
      → s.outcome ≡ running
      → run_owner fails (t ∷ ts) s ≡ run_owner fails ts (turn fails t s)
  unfolding run_owner
  goes_on t ts s live = ap (λ o. while_running fails o s (run_owner fails ts (turn fails t s))) live

  gone_on :
      (t : Turn) (ts : List Turn) (s : OwnerRun)
      → (run_owner fails (t ∷ ts) s).outcome ≡ running
      → (run_owner fails ts (turn fails t s)).outcome ≡ running
  gone_on t ts s live =
      ap (λ (x : OwnerRun). x.outcome) (sym (goes_on t ts s (run_owner_ran (t ∷ ts) s live))) ∙ live

  turn-Inv :
      (t : Turn) (s : OwnerRun)
      → Inv s.multiplexer
      → s.outcome ≡ running
      → (turn fails t s).outcome ≡ running
      → Inv (turn fails t s).multiplexer
  turn-Inv t s v live live' = elim (turn-Left t s v live) [
    | inl (v', _) ↦ v'
    | inr (m, _, ended, _) ↦ absurd (ended live')
  ]

  pub run_owner-Inv :
      (ts : List Turn) (s : OwnerRun)
      → Inv s.multiplexer
      → (run_owner fails ts s).outcome ≡ running
      → Inv (run_owner fails ts s).multiplexer
  unfolding run_owner
  run_owner-Inv [] s v live = v
  run_owner-Inv (t ∷ ts) s v live =
      let start = run_owner_ran (t ∷ ts) s live in
      let live' = gone_on t ts s live in
      let v' = turn-Inv t s v start (run_owner_ran ts (turn fails t s) live') in
      subst (λ (x : OwnerRun). Inv x.multiplexer) (sym (goes_on t ts s start))
        (run_owner-Inv ts (turn fails t s) v' live')

  pub run_owner_snoc :
      (ts : List Turn) (t : Turn) (s : OwnerRun)
      → (run_owner fails ts s).outcome ≡ running
      → run_owner fails (ts ++ t ∷ []) s ≡ turn fails t (run_owner fails ts s)
  unfolding run_owner
  run_owner_snoc [] t s live = goes_on t [] s live
  run_owner_snoc (u ∷ ts) t s live =
      let start = run_owner_ran (u ∷ ts) s live in
      goes_on u (ts ++ t ∷ []) s start
      ∙ run_owner_snoc ts t (turn fails u s) (gone_on u ts s live)
      ∙ ap (turn fails t) (sym (goes_on u ts s start))

  either-disposed :
      (b : Bool) (s t : OwnerRun) (cs : List ℕ)
      → s.disposed ≡ cs
      → t.disposed ≡ cs
      → (if b then s else t).disposed ≡ cs
  either-disposed true s t cs e f = e
  either-disposed false s t cs e f = f

  dispatch_container-disposed :
      (c : ℕ) (d : Result AdbMessage) (s : OwnerRun)
      → (dispatch_container fails c d s).disposed ≡ c ∷ s.disposed
  unfolding dispatch_container dispose_of leave
  dispatch_container-disposed c (ok a) s =
      let (m, fine) = dispatch fails a s.multiplexer in
      let s' = dispose_of fails c (record s { multiplexer = m }) in
      either-disposed fine s' (leave fails panicked s') _ refl refl
  dispatch_container-disposed c (err e) s = refl
  dispatch_container-disposed c panic s = refl

  pub turn-disposed :
      (t : Turn) (s : OwnerRun) → (turn fails t s).disposed ≡ containers (t ∷ []) ++ s.disposed
  unfolding turn receive between dispose_of leave containers
  turn-disposed cancelled s = refl
  turn-disposed closed_channel s = refl
  turn-disposed (received c none) s = refl
  turn-disposed (received c (some m)) s =
      either-disposed (not (Transporter.command m == command_adb_transport)) (dispose_of fails c s)
        (dispatch_container fails c (decode_payload (payload m)) s) _ refl
        (dispatch_container-disposed c (decode_payload (payload m)) s)
  turn-disposed (device_read r bytes failed) s = refl
  turn-disposed (pump_sends r) s = refl
  turn-disposed (pump_finishes r) s = refl

  pub run_owner-disposed :
      (ts : List Turn) (s : OwnerRun)
      → (run_owner fails ts s).outcome ≡ running
      → (run_owner fails ts s).disposed ≡ containers ts ++ s.disposed
  unfolding run_owner containers
  run_owner-disposed [] s live = refl
  run_owner-disposed (t ∷ ts) s live =
      ap (λ (x : OwnerRun). x.disposed) (goes_on t ts s (run_owner_ran (t ∷ ts) s live))
      ∙ run_owner-disposed ts (turn fails t s) (gone_on t ts s live)
      ∙ ap (λ cs. containers ts ++ cs) (turn-disposed t s)
      ∙ sym (append_assoc (containers ts) (containers (t ∷ [])) s.disposed)
      ∙ ap (λ cs. cs ++ s.disposed) (sym (containers-cons t ts))
