-- ===== src/Client/SmartSocket/Numbers.antt =====
-- The four hexadecimal digits of a length in client/adb/smartSocket.go.
use adb_remote.Prelude.{
  ℕ, suc, ◌+◌, ◌*◌, ◌/◌, ◌%◌, ◌≤◌, ◌<◌, ◌≡◌, refl, false, List, [], ◌∷◌, ◌++◌, ltb, ◌==◌, length,
  some, arith, ap, ◌∙◌, lt→ltb, ge→ltb, Bool-cases, inl, inr, ltb→ge, ltb→lt,
}
use adb_remote.Client.SmartSocket.{
  hex_digit, hex_digits, format_length, digit_value, hex_value, hex_number, parse_int, signed,
}

hex_digits_one : (f n : ℕ) → n < 16 → hex_digits (suc f) n ≡ hex_digit n ∷ []
unfolding hex_digits
hex_digits_one f n h = rw (lt→ltb n 16 h) refl

hex_digits_more :
    (f n : ℕ) → 16 ≤ n → hex_digits (suc f) n ≡ hex_digits f (n / 16) ++ hex_digit (n % 16) ∷ []
unfolding hex_digits
hex_digits_more f n h = rw (ge→ltb n 16 h) refl

abbrev four_digits : ℕ → List ℕ
four_digits n =
    hex_digit (n / 4096)
    ∷ hex_digit (n / 256 % 16)
    ∷ hex_digit (n / 16 % 16)
    ∷ hex_digit (n % 16)
    ∷ []

same_digits :
    (a b c d n : ℕ)
    → (n / 4096 ≡ a) × (n / 256 % 16 ≡ b) × (n / 16 % 16 ≡ c) × (n % 16 ≡ d)
    → hex_digit a ∷ hex_digit b ∷ hex_digit c ∷ hex_digit d ∷ [] ≡ four_digits n
same_digits a b c d n (p, q, r, s) = rw (p, q, r, s)

format_length_lem : (n : ℕ) → n < 65536 → format_length n ≡ four_digits n
unfolding format_length
format_length_lem n h = elim (Bool-cases (ltb n 16)) [
  | inl a ↦
      rw (hex_digits_one 15 n (ltb→lt n 16 a))
        (same_digits 0 0 0 n n (omega (arith, ltb→lt n 16 a)))
  | inr a ↦ rw (hex_digits_more 15 n (ltb→ge n 16 a)) (elim (Bool-cases (ltb (n / 16) 16)) [
    | inl b ↦
        rw (hex_digits_one 14 (n / 16) (ltb→lt (n / 16) 16 b))
          (same_digits 0 0 (n / 16) (n % 16) n (omega (arith, ltb→ge n 16 a, ltb→lt (n / 16) 16 b)))
    | inr b ↦
        rw (hex_digits_more 14 (n / 16) (ltb→ge (n / 16) 16 b))
          (elim (Bool-cases (ltb (n / 16 / 16) 16)) [
            | inl c ↦ rw (hex_digits_one 13 (n / 16 / 16) (ltb→lt (n / 16 / 16) 16 c)) (
                same_digits 0 (n / 16 / 16) (n / 16 % 16) (n % 16) n
                  (omega (arith, ltb→ge n 16 a, ltb→ge (n / 16) 16 b, ltb→lt (n / 16 / 16) 16 c)))
            | inr c ↦
                rw
                  (
                    hex_digits_more 13 (n / 16 / 16) (ltb→ge (n / 16 / 16) 16 c),
                    hex_digits_one 12 (n / 16 / 16 / 16) (omega arith),
                  )
                  (same_digits (n / 16 / 16 / 16) (n / 16 / 16 % 16) (n / 16 % 16) (n % 16) n
                    (omega (arith, ltb→ge (n / 16 / 16) 16 c)))
          ])
  ])
]

digit_value-hex_digit : (d : ℕ) → d < 16 → digit_value (hex_digit d) ≡ some d
digit_value-hex_digit d h = ground arith

hex_value_digit :
    (n d : ℕ) (cs : List ℕ) → d < 16 → hex_value n (hex_digit d ∷ cs) ≡ hex_value (n * 16 + d) cs
unfolding hex_value
hex_value_digit n d cs h = rw (hex_value, digit_value-hex_digit d h) refl

parse_int_digits :
    (d : ℕ) (cs : List ℕ)
    → d < 16
    → parse_int (hex_digit d ∷ cs) ≡ signed false (hex_value 0 (hex_digit d ∷ cs))
unfolding parse_int hex_number
parse_int_digits d cs h =
    let minus : (hex_digit d == 45) ≡ false = ground arith in
    let plus : (hex_digit d == 43) ≡ false = ground arith in rw (minus, plus) refl

parse_int-four :
    (a b c d : ℕ)
    → a < 16
    → b < 16
    → c < 16
    → d < 16
    → parse_int (hex_digit a ∷ hex_digit b ∷ hex_digit c ∷ hex_digit d ∷ [])
      ≡ some (record { negative = false; magnitude = ((a * 16 + b) * 16 + c) * 16 + d })
unfolding hex_value
parse_int-four a b c d p q r s =
    parse_int_digits a (hex_digit b ∷ hex_digit c ∷ hex_digit d ∷ []) p
    ∙ ap (signed false) (
        hex_value_digit 0 a (hex_digit b ∷ hex_digit c ∷ hex_digit d ∷ []) p
        ∙ hex_value_digit (0 * 16 + a) b (hex_digit c ∷ hex_digit d ∷ []) q
        ∙ hex_value_digit ((0 * 16 + a) * 16 + b) c (hex_digit d ∷ []) r
        ∙ hex_value_digit (((0 * 16 + a) * 16 + b) * 16 + c) d [] s
        ∙ ap some (omega arith))

-- A length of at most 65535 is sent as four digits that are read as the same length.
pub parse_int-format_length :
    (n : ℕ)
    → n < 65536
    → (length (format_length n) ≡ 4)
      × (parse_int (format_length n) ≡ some (record { negative = false; magnitude = n }))
parse_int-format_length n h = rw (format_length_lem n h) (
  refl,
  parse_int-four (n / 4096) (n / 256 % 16) (n / 16 % 16) (n % 16) (omega arith) (omega arith)
        (omega arith) (omega arith)
      ∙ ap (λ (k : ℕ). some (record { negative = false; magnitude = k })) (omega arith),
)
