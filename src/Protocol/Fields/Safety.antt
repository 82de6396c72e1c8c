-- ===== src/Protocol/Fields/Safety.antt =====
-- Reading a payload never leaves the buffer, whatever bytes came over the wire.
use adb_remote.Prelude.{
  ℕ, ◌+◌, ◌-◌, ◌≤◌, ◌≡◌, sym, subst, length, Result, ok, err, panic, M, bind, arith, slice_within,
  uint32, take, drop,
}
use adb_remote.Protocol.Message.{TransporterMessage, payload_length}
use adb_remote.Protocol.Fields.{read_int, read_string}

-- The declared payload lies in the buffer: what `Read` and every `Set` leave.
pub record Fits (m : TransporterMessage) : Type 0 where
  pub buffer_size : length m.payload_buffer ≡ 61440
  pub within : payload_length m ≤ 61440

-- No panic, and the message is as it was.
abbrev pub Unharmed : {A : Type 0} → TransporterMessage → TransporterMessage × Result A → Type 0
Unharmed m (m', ok a) = m' ≡ m
Unharmed m (m', err e) = m' ≡ m
Unharmed m (m', panic) = ⊥

-- The same for a field, with a next offset that is within the payload again.
abbrev pub ReadsField :
    {A : Type 0} → TransporterMessage → TransporterMessage × Result (ℕ × A) → Type 0
ReadsField m (m', ok (offset, a)) = (m' ≡ m) × (offset ≤ payload_length m)
ReadsField m (m', err e) = m' ≡ m
ReadsField m (m', panic) = ⊥

pub read_int-ReadsField :
    (m : TransporterMessage) (offset : ℕ)
    → Fits m
    → offset ≤ payload_length m
    → ReadsField m (read_int offset m)
unfolding read_int
read_int-ReadsField m offset v h = ground (arith, slice_within offset (offset + 4) m.payload_buffer)

pub read_string-ReadsField :
    (m : TransporterMessage) (offset : ℕ)
    → Fits m
    → offset ≤ payload_length m
    → ReadsField m (read_string offset m)
unfolding read_string
read_string-ReadsField m offset v h =
    let size = take (offset + 4 - offset) (drop offset m.payload_buffer) in
    ground (
      arith,
      slice_within offset (offset + 4) m.payload_buffer,
      slice_within (offset + 4) (offset + 4 + uint32 size) m.payload_buffer,
    )

pub bind-Unharmed :
    {A B : Type 0} (m : TransporterMessage) (r : TransporterMessage × Result (ℕ × A))
    (k : ℕ × A → M TransporterMessage B)
    → ReadsField m r
    → ((offset : ℕ) (a : A) → offset ≤ payload_length m → Unharmed m (k (offset, a) m))
    → Unharmed m (bind r k)
bind-Unharmed m (m', ok (offset, a)) k h next =
    subst (λ x. Unharmed m (k (offset, a) x)) (sym h.0) (next offset a h.1)
bind-Unharmed m (m', err e) k h next = h
bind-Unharmed m (m', panic) k h next = h
