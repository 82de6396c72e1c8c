-- ===== src/Transporter/Connection/Oversized.antt =====
-- A header that declares too long a payload, and what its container does when it is used again.
use adb_remote.Prelude.{
  ℕ, ◌≤◌, ◌<◌, ◌≡◌, refl, inl, inr, true, List, ◌∷◌, ◌++◌, length, err, panic, arith, length-append,
  ==_refl, put_uint32, payload_too_large,
}
use adb_remote.Protocol.Message.{
  TransporterMessage, create_transporter_message, payload_length, header_buffer, write, read,
  set_direct_command,
}
use adb_remote.Protocol.Wire.Frames.{write_overlong}
use adb_remote.Protocol.Wire.Read.{IsMessage}
use adb_remote.Protocol.Wire.Safety.{read_oversized}
use adb_remote.Pool.{ObjectPool, obtain, dispose}
use adb_remote.Transporter.Connection.{
  Connection, finish, write_built, build_and_write, send_built, send_guest_left, put_contents,
  read_next_message, read_obtained, read_into, after_read, internal_close,
}
use adb_remote.Transporter.Connection.Sending.{
  obtained, contents_of-obtain, obtained-pooled, AllMessages, obtained-IsMessage, List-cases,
}

-- `SendGuestLeft` with a container whose message declares more than its buffer holds.
pub send_guest_left_panics :
    (cc : Connection) (r : ℕ) (free : List ℕ)
    → cc.pool.free ≡ r ∷ free
    → length (header_buffer (cc.pool.store r).contents) ≡ 12
    → length (cc.pool.store r).contents.payload_buffer < payload_length (cc.pool.store r).contents
    → 16 ≤ cc.writer.room
    → (send_guest_left cc).1 ≡ panic
unfolding send_guest_left send_built build_and_write write_built finish
send_guest_left_panics cc r free top sizes large room =
    let old = (cc.pool.store r).contents in
    let m = set_direct_command 7 old in
    let bad : (write m cc.writer).1 ≡ panic =
      unfold set_direct_command put_uint32 in
      write_overlong m cc.writer large (
        omega (
          arith,
          length-append (put_uint32 7 ++ old.payload_length_buffer) old.payload_crc32_buffer,
          length-append (put_uint32 7) old.payload_length_buffer,
          length-append (old.command_buffer ++ old.payload_length_buffer) old.payload_crc32_buffer,
          length-append old.command_buffer old.payload_length_buffer,
        )) in
    rw (contents_of-obtain cc.pool, build_and_write, obtained-pooled cc.pool r free top) bad

-- What `Obtain` leaves of the counters and of the free list.
obtain_state :
    (p : ObjectPool TransporterMessage)
    → length p.free ≤ 100
    → let (q, r) = obtain create_transporter_message p in
      ((q.store r).current ≡ 0) × ((q.store r).target ≡ 1) × (length q.free < 100)
unfolding obtain
obtain_state p h = elim (List-cases p.free) [
  | inl e ↦ rw (e, obtain) (ground (arith, ==_refl p.next_ref))
  | inr (r, rest, e) ↦ rw (e, obtain) (ground (arith, ==_refl r))
]

-- A container that was obtained and is disposed once goes back on top of the free list.
dispose_obtained :
    (p : ObjectPool TransporterMessage) (r : ℕ)
    → (p.store r).current ≡ 0
    → (p.store r).target ≡ 1
    → length p.free < 100
    → ((dispose r p).0.free ≡ r ∷ p.free)
      × (((dispose r p).0.store r).contents ≡ (p.store r).contents)
unfolding dispose
dispose_obtained p r c t h = (ground (arith, c, t), ground (arith, c, t, ==_refl r))

module _ (cc : Connection) (all : AllMessages cc.pool) (bounded : length cc.pool.free ≤ 100)
    (c n crc : ℕ) (more : List ℕ) (large : 61440 < n) (word : n < 4294967296)
    (input : cc.input ≡ put_uint32 c ++ put_uint32 n ++ put_uint32 crc ++ more) where
  -- The read is refused and the connection closed; the container goes back to the pool with the length
  -- that the client chose in its header.
  oversized_released :
      let cc' = (read_next_message cc).0 in
      let r = (obtain create_transporter_message cc.pool).1 in
      ((read_next_message cc).1 ≡ err payload_too_large)
      × (cc'.closed ≡ true)
      × ((free : List ℕ) × (cc'.pool.free ≡ r ∷ free))
      × (payload_length (cc'.pool.store r).contents ≡ n)
      × IsMessage (cc'.pool.store r).contents
  unfolding read_next_message read_obtained read_into after_read internal_close finish
  oversized_released =
      let (q, r) = obtain create_transporter_message cc.pool in
      let m = obtained cc.pool in
      let (m', e, long, v) =
        read_oversized m c n crc more (obtained-IsMessage cc.pool all) large word in
      let put = put_contents r m' q in
      let state = obtain_state cc.pool bounded in
      let back =
        dispose_obtained put r (ground (arith, ==_refl r, state.0))
          (ground (arith, ==_refl r, state.1)) state.2 in
      let reads : read (record { message = m; input = cc.input })
          ≡ (record { message = m'; input = more }, err payload_too_large) =
        rw input e in
      let opened = contents_of-obtain cc.pool in
      let same : (put.store r).contents ≡ m' = ground (arith, ==_refl r) in
      (
        rw (opened, read_obtained, reads) refl,
        rw (opened, read_obtained, reads) refl,
        rw (opened, read_obtained, reads) (q.free, back.0),
        rw (opened, read_obtained, reads, back.1, same) long,
        rw (opened, read_obtained, reads, back.1, same) v,
      )

  -- A client that declares a payload of more than 61440 bytes is closed. If the pool holds at most
  -- 100 containers, the next `SendGuestLeft` to any connection that can take 16 bytes panics: it
  -- uses the container that the read gave back.
  pub oversized_then_guest_left :
      (owner : Connection)
      → 16 ≤ owner.writer.room
      → let cc' = (read_next_message cc).0 in
        (cc'.closed ≡ true) × ((send_guest_left (record owner { pool = cc'.pool })).1 ≡ panic)
  oversized_then_guest_left owner room =
      let (_, shut, (free, top), long, v) = oversized_released in
      let r = (obtain create_transporter_message cc.pool).1 in
      let cc' = (read_next_message cc).0 in
      (
        shut,
        send_guest_left_panics (record owner { pool = cc'.pool }) r free top v.header_size
            (omega (arith, long, v.buffer_size)) room,
      )
