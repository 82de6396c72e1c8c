-- ===== src/Client/Transport/Reader/Ending.antt =====
-- How the reader of client/transportLayer/client.go ends.
use adb_remote.Prelude.{
  ℕ, zero, suc, ◌+◌, ◌*◌, ◌≤◌, ◌<◌, ◌≡◌, refl, Bool, true, false, List, [], length, Result, ok, err,
  panic, arith, inl, inr, ◌⊎◌, Bool-cases, if◌then◌else◌, ◌==◌, ==_iff, ap, sym,
}
use adb_remote.Protocol.Message.{TransporterMessage, create_transporter_message, read, bytes}
use adb_remote.Protocol.Wire.Progress.{read_takes}
use adb_remote.Pool.{ObjectPool, obtain, contents_of}
use adb_remote.Transporter.Connection.{put_contents}
use adb_remote.Client.Transport.{
  Client, incoming, record_capture, dispose_message, deliver, received, read_contents, read_round,
}
use adb_remote.Client.Transport.Reader.{
  Standing, channel_closed, waiting, Readings, handed_over, meanwhile, start_reader,
}

-- A delivery took at least a header, and came before a cancellation.
abbrev Takes : Bool → ℕ → Client × Result ℕ → Type 0
Takes cancelled n (c, ok r) = (cancelled ≡ false) × (12 + length c.input ≤ n)
Takes cancelled n (c, err e) = length c.input ≤ n
Takes cancelled n (c, panic) = length c.input ≤ n

deliver-Takes :
    (cancelled : Bool) (n r : ℕ) (x : Client × Result (Unit {0}))
    → 12 + length x.0.input ≤ n
    → Takes cancelled n (deliver cancelled r x)
unfolding deliver dispose_message
deliver-Takes true n r (c, ok u) h = omega arith
deliver-Takes false n r (c, ok u) h = (refl, h)
deliver-Takes true n r (c, err e) h = omega arith
deliver-Takes false n r (c, err e) h = omega arith
deliver-Takes true n r (c, panic) h = omega arith
deliver-Takes false n r (c, panic) h = omega arith

record_capture-input :
    (bs : Result (List ℕ)) (c : Client) → (record_capture incoming bs tt c).0.input ≡ c.input
unfolding record_capture
record_capture-input (ok bs) c = refl
record_capture-input (err e) c = refl
record_capture-input panic c = refl

received-Takes :
    (cancelled : Bool) (n r : ℕ) (x : Client × Result (Unit {0}))
    → length x.0.input ≤ n
    → (x.1 ≡ ok tt → 12 + length x.0.input ≤ n)
    → Takes cancelled n (received cancelled r x)
unfolding received dispose_message
received-Takes cancelled n r (c, ok u) h k =
    let m = (c.pool.store r).contents in
    deliver-Takes cancelled n r _
      (omega (arith, k refl, ap length (record_capture-input (bytes m) _)))
received-Takes cancelled n r (c, err e) h k = h
received-Takes cancelled n r (c, panic) h k = h

read_contents-Takes :
    (cancelled : Bool) (r : ℕ) (m : Result TransporterMessage) (c : Client)
    → Takes cancelled (length c.input) (read_contents cancelled r m c)
unfolding read_contents dispose_message
read_contents-Takes cancelled r (ok m) c =
    let (takes, took) = read_takes (record { message = m; input = c.input }) in
    let (s, res) = read (record { message = m; input = c.input }) in
    received-Takes cancelled (length c.input) r
      (record c { pool = put_contents r s.message c.pool; input = s.input }, res) takes took
read_contents-Takes cancelled r (err e) c = omega arith
read_contents-Takes cancelled r panic c = omega arith

read_round-Takes :
    (cancelled : Bool) (c : Client) → Takes cancelled (length c.input) (read_round cancelled c)
unfolding read_round
read_round-Takes cancelled c =
    let (p, r) = obtain create_transporter_message c.pool in
    read_contents-Takes cancelled r (contents_of r p) (record c { pool = p })

module _ (others : ℕ → ObjectPool TransporterMessage → ObjectPool TransporterMessage)
    (checks done takes : ℕ → Bool) where
  -- The channel was closed, or, behind `k` deliveries, no one takes the next message and no cancellation comes.
  abbrev pub Settled : ℕ → ℕ → Standing → Type 0
  Settled fuel k standing =
      (standing ≡ channel_closed)
      ⊎ ((n : ℕ) × (standing ≡ waiting) × (suc n + k ≡ fuel) × (takes n ≡ false) × (done n ≡ false))

  abbrev Ended : ℕ → ℕ → Readings → Type 0
  Ended fuel n (c, rs, standing) = Settled fuel (length rs) standing × (12 * length rs ≤ n)

  Settled-suc :
      (fuel k : ℕ) (standing : Standing)
      → Settled fuel k standing
      → Settled (suc fuel) (suc k) standing
  Settled-suc fuel k standing (inl e) = inl e
  Settled-suc fuel k standing (inr (n, e, round, left, late)) = inr (n, e, omega arith, left, late)

  -- Enough rounds for the bytes, or a cancellation in one of them.
  abbrev Enough : ℕ → ℕ → Type 0
  Enough bytes_left fuel = (bytes_left < 12 * fuel) ⊎ ((n : ℕ) × (n < fuel) × (checks n ≡ true))

  Enough-suc :
      (a b fuel : ℕ) → checks fuel ≡ false → 12 + b ≤ a → Enough a (suc fuel) → Enough b fuel
  Enough-suc a b fuel alive took (inl h) = inl (omega arith)
  Enough-suc a b fuel alive took (inr (n, below, e)) = elim (Bool-cases (n == fuel)) [
    | inl same ↦
        let dead = ap checks (sym ((==_iff n fuel).0 same)) in
        absurd (ground (arith, alive, e, dead))
    | inr other ↦ inr (n, ground (arith, below, other), e)
  ]

  continue-Ended :
      (fuel n : ℕ) (x : Client × Result ℕ) (rest : Readings)
      → Takes (done fuel) n x
      → (12 + length x.0.input ≤ n → Ended fuel (length x.0.input) rest)
      → Ended (suc fuel) n (elim x.1 [
        | ok k ↦ if takes fuel then handed_over k rest else (x.0, [], waiting)
        | err e ↦ (x.0, [], channel_closed)
        | panic ↦ (x.0, [], channel_closed)
      ])
  continue-Ended fuel n (c, ok k) (c', rs, standing) (now, h) next =
      elim (Bool-cases (takes fuel)) [
        | inl taken ↦
            let (e, bound) = next h in
            rw taken (Settled-suc fuel (length rs) standing e, omega arith)
        | inr left ↦ rw left (inr (fuel, refl, omega arith, left, now), omega arith)
      ]
  continue-Ended fuel n (c, err e) rest h next = (inl refl, omega arith)
  continue-Ended fuel n (c, panic) rest h next = (inl refl, omega arith)

  -- On a connection that yields some bytes and then ends, or whose context is cancelled in one of the rounds, the
  -- reader stops and closes the channel, whatever the bytes are and whatever other goroutines do to the pool,
  -- unless nobody takes one of the messages and no cancellation comes either: there it waits, having delivered
  -- all the messages before that one. It has delivered at most one container for every twelve bytes.
  pub start_reader_ends :
      (fuel : ℕ) (c : Client)
      → (length c.input < 12 * fuel) ⊎ ((n : ℕ) × (n < fuel) × (checks n ≡ true))
      → let (c', rs, standing) = start_reader others checks done takes fuel c in
        Settled fuel (length rs) standing × (12 * length rs ≤ length c.input)
  unfolding start_reader
  start_reader_ends zero c (inl h) = absurd (omega arith)
  start_reader_ends zero c (inr (n, h, e)) = absurd (omega arith)
  start_reader_ends (suc fuel) c enough = elim (Bool-cases (checks fuel)) [
    | inl e ↦ rw e (inl refl, omega arith)
    | inr e ↦
        let (c', r) = read_round (done fuel) c in
        let next = meanwhile others checks done takes fuel c' in
        rw e (
          continue-Ended fuel (length c.input) (read_round (done fuel) c)
            (start_reader others checks done takes fuel next) (read_round-Takes (done fuel) c)
            (λ took.
              start_reader_ends fuel next
                (Enough-suc (length c.input) (length c'.input) fuel e took enough)))
  ]
