-- ===== src/Client/TransferStats/Units.antt =====
-- The unit that `formatBytes` of client/tui/transferStats.go picks.
use adb_remote.Prelude.{
  ℕ, ◌*◌, ◌/◌, ◌≤◌, ◌<◌, ◌≡◌, refl, true, false, le→leb, ltb→lt, ltb→ge, ge→ltb, ltb, leb, Result,
  ok, err, panic, arith, Bool-cases, inl, inr,
}
use adb_remote.Client.TransferStats.{
  UnitPrefix, kibi, mebi, gibi, tebi, pebi, Size, in_bytes, in_units, format_bytes,
}

-- The bytes of a unit.
abbrev pub unit_bytes : UnitPrefix → ℕ
unit_bytes kibi = 1024
unit_bytes mebi = 1048576
unit_bytes gibi = 1073741824
unit_bytes tebi = 1099511627776
unit_bytes pebi = 1125899906842624

-- A size that names a number of bytes below 1024, or at least one and fewer than 1024 of its unit.
pub Names : ℕ → Result Size → Type 0
Names n (ok (in_bytes m)) = (m ≡ n) × (n < 1024)
Names n (ok (in_units m div p)) =
    (m ≡ n) × (div ≡ unit_bytes p) × (unit_bytes p ≤ n) × (n < 1024 * unit_bytes p)
Names n (err e) = ⊥
Names n panic = ⊥

lt→leb : (a b : ℕ) → b < a → leb a b ≡ false
lt→leb a b h = ground arith

leb→lt : (a b : ℕ) → leb a b ≡ false → b < a
leb→lt a b h = ground arith

leb→le : (a b : ℕ) → leb a b ≡ true → a ≤ b
leb→le a b h = ground arith

-- Below 2^60 bytes `formatBytes` picks the unit that leaves at least one and fewer than 1024 of it.
pub format_bytes-Names : (n : ℕ) → n < 1152921504606846976 → Names n (format_bytes n)
unfolding format_bytes Names
format_bytes-Names n small = elim (Bool-cases (ltb n 1024)) [
  | inl e ↦ rw e (refl, ltb→lt n 1024 e)
  | inr e ↦ elim (Bool-cases (leb 1024 (n / 1024))) [
    | inr k ↦ rw (e, k) (refl, refl, ltb→ge n 1024 e, omega (arith, leb→lt 1024 (n / 1024) k))
    | inl k ↦ elim (Bool-cases (leb 1024 (n / 1048576))) [
      | inr m ↦
          rw (e, k, m)
            (
              refl,
              refl,
              omega (arith, leb→le 1024 (n / 1024) k),
              omega (arith, leb→lt 1024 (n / 1048576) m),
            )
      | inl m ↦ elim (Bool-cases (leb 1024 (n / 1073741824))) [
        | inr g ↦
            rw (e, k, m, g)
              (
                refl,
                refl,
                omega (arith, leb→le 1024 (n / 1048576) m),
                omega (arith, leb→lt 1024 (n / 1073741824) g),
              )
        | inl g ↦ elim (Bool-cases (leb 1024 (n / 1099511627776))) [
          | inr t ↦
              rw (e, k, m, g, t)
                (
                  refl,
                  refl,
                  omega (arith, leb→le 1024 (n / 1073741824) g),
                  omega (arith, leb→lt 1024 (n / 1099511627776) t),
                )
          | inl t ↦
              let p : leb 1024 (n / 1125899906842624) ≡ false =
                lt→leb 1024 (n / 1125899906842624) (omega arith) in
              rw (e, k, m, g, t, p)
                (refl, refl, omega (arith, leb→le 1024 (n / 1099511627776) t), omega (arith, small))
        ]
      ]
    ]
  ]
]

-- From 2^60 bytes on, `formatBytes` indexes its prefixes out of range.
pub format_bytes-panics : (n : ℕ) → 1152921504606846976 ≤ n → format_bytes n ≡ panic
unfolding format_bytes
format_bytes-panics n big =
    rw
      (
        ge→ltb n 1024 (omega arith),
        le→leb 1024 (n / 1024) (omega arith),
        le→leb 1024 (n / 1048576) (omega arith),
        le→leb 1024 (n / 1073741824) (omega arith),
        le→leb 1024 (n / 1099511627776) (omega arith),
        le→leb 1024 (n / 1125899906842624) (omega arith),
      )
      refl
