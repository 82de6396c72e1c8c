-- ===== src/Client/AdbMessage/Frames.antt =====
-- The bytes of an ADB message (client/adb/adbMessage.go), and its commands.
use Prim.Native.Nat.{bit_xor}
use adb_remote.Prelude.{
  ◌%◌, ℕ, ◌+◌, ◌≤◌, ◌<◌, ◌≡◌, refl, Bool, true, ◌||◌, List, [], ◌∷◌, ◌++◌, length, drop, put_uint32,
  uint32-put, u32, ok, arith, ◌==◌, ==_iff, inl, inr, Bool-cases, slice_at, take-all, overwrite_at,
  subst, sym,
}
use adb_remote.Client.AdbMessage.{
  AdbMessage, is_command, checksum, checksum_from, set, bytes, header_buffer, message_data,
}

command_case :
    (P : ℕ → Type 0) (c k : ℕ) (others : Bool)
    → P k
    → (others ≡ true → P c)
    → (others || c == k) ≡ true
    → P c
command_case P c k others here there h = elim (Bool-cases others) [
  | inl e ↦ there e
  | inr e ↦ subst P (sym ((==_iff c k).0 (subst (λ b. (b || c == k) ≡ true) e h))) here
]

abbrev pub HasWords : ℕ → Type 0
HasWords c = (c < 4294967296) × (bit_xor c 0xffffffff < 4294967296)

-- A command of the protocol, with its magic number, is a word.
pub command-word : (c : ℕ) → is_command c ≡ true → HasWords c
command-word c =
    command_case HasWords c 0x45545257 _ (omega arith, omega arith)
      (command_case HasWords c 0x45534c43 _ (omega arith, omega arith)
        (command_case HasWords c 0x59414b4f _ (omega arith, omega arith)
          (command_case HasWords c 0x4e45504f _ (omega arith, omega arith)
            (command_case HasWords c 0x434e5953 (c == 0x4e584e43) (omega arith, omega arith)
              λ e. subst HasWords (sym ((==_iff c 0x4e584e43).0 e)) (omega arith, omega arith)))))

pub checksum-word : (bs : List ℕ) → checksum bs < 4294967296
unfolding checksum checksum_from
checksum-word bs = go 0 bs (omega arith)
  where
    go : (sum : ℕ) (bs : List ℕ) → sum < 4294967296 → checksum_from sum bs < 4294967296
    go sum [] h = h
    go sum (b ∷ bs) h = go (u32 (sum + b)) bs (omega arith)

pub record IsAdbMessage (m : AdbMessage) : Type 0 where
  pub header_size : length (header_buffer m) ≡ 24
  pub buffer_size : length m.data_buffer ≡ 32768

-- The bytes of a message with any word in the place of the checksum: newer clients send 0.
abbrev pub packet_header : ℕ → ℕ → ℕ → ℕ → List ℕ → List ℕ
packet_header c a b sum bs =
    put_uint32 c
    ++ put_uint32 a
    ++ put_uint32 b
    ++ put_uint32 (length bs)
    ++ put_uint32 sum
    ++ put_uint32 (bit_xor c 0xffffffff)

abbrev pub packet : ℕ → ℕ → ℕ → ℕ → List ℕ → List ℕ
packet c a b sum bs = packet_header c a b sum bs ++ bs

-- The bytes of a message that the program itself builds.
abbrev pub wire : ℕ → ℕ → ℕ → List ℕ → List ℕ
wire c a b bs = packet c a b (checksum bs) bs

-- A message with its fields, and the bytes that stand behind its data in the buffer.
abbrev pub received : ℕ → ℕ → ℕ → ℕ → List ℕ → List ℕ → AdbMessage
received c a b sum bs rest = record {
  command_bytes = put_uint32 c;
  arg1_bytes = put_uint32 a;
  arg2_bytes = put_uint32 b;
  length_bytes = put_uint32 (length bs);
  checksum_bytes = put_uint32 sum;
  magic_bytes = put_uint32 (bit_xor c 0xffffffff);
  data_buffer = bs ++ rest;
}

abbrev pub framed : ℕ → ℕ → ℕ → List ℕ → List ℕ → AdbMessage
framed c a b bs rest = received c a b (checksum bs) bs rest

pub set_lem :
    (c a b : ℕ) (bs : List ℕ) (m : AdbMessage)
    → length m.data_buffer ≡ 32768
    → length bs ≤ 32768
    → set c a b bs m ≡ (framed c a b bs (drop (length bs) m.data_buffer), ok tt)
unfolding set
set_lem c a b bs m size fits =
    rw (take-all (length m.data_buffer) bs (omega arith), overwrite_at [] bs m.data_buffer 0 refl)
      (ground arith)

pub bytes_lem :
    (c a b sum : ℕ) (bs rest : List ℕ)
    → length bs ≤ 32768
    → bytes (received c a b sum bs rest) ≡ ok (packet c a b sum bs)
unfolding bytes put_uint32
bytes_lem c a b sum bs rest fits =
    rw (uint32-put (length bs) (omega arith))
      (slice_at [] (packet c a b sum bs) rest 0 ((24 + length bs) % 4294967296) refl (omega arith))

pub message_data_lem :
    (c a b sum : ℕ) (bs rest : List ℕ)
    → length bs ≤ 32768
    → message_data (received c a b sum bs rest) ≡ ok bs
unfolding message_data
message_data_lem c a b sum bs rest fits =
    rw (uint32-put (length bs) (omega arith)) (slice_at [] bs rest 0 (length bs) refl (omega arith))
