-- ===== src/Client/Screen/Height.antt =====
-- How tall a screen of client/tui/transferStats.go is.
use adb_remote.Prelude.{
  ℕ, zero, suc, ◌+◌, ◌-◌, ◌≤◌, ◌<◌, ◌≡◌, refl, Bool, true, false, List, [], ◌∷◌, ◌++◌, ◌==◌,
  if◌then◌else◌, ltb, leb, length, take, length-take, replicate, Bool-cases, inl, inr, arith,
}
use adb_remote.Client.Screen.{
  trim_newlines, prepend, split_lines, join_lines, dashes, place, layout_with_footer,
}

unfoldable pub newlines : List ℕ → ℕ
newlines [] = 0
newlines (b ∷ bs) = (if b == 10 then 1 else 0) + newlines bs

-- The lines of a text, as a terminal counts them.
abbrev pub line_count : List ℕ → ℕ
line_count text = newlines text + 1

newlines-append : (xs ys : List ℕ) → newlines (xs ++ ys) ≡ newlines xs + newlines ys
unfolding newlines
newlines-append [] ys = omega arith
newlines-append (b ∷ xs) ys = omega (arith, newlines-append xs ys)

newline_first : (text : List ℕ) → newlines (10 ∷ text) ≡ newlines text + 1
unfolding newlines
newline_first text = omega arith

newlines-replicate : (n : ℕ) → newlines (replicate n 10) ≡ n
unfolding newlines
newlines-replicate zero = refl
newlines-replicate (suc n) = omega (arith, newlines-replicate n)

unfoldable AreLines : List (List ℕ) → Type 0
AreLines [] = Unit {0}
AreLines (l ∷ ls) = (newlines l ≡ 0) × AreLines ls

prepend-AreLines :
    (b : ℕ) (ls : List (List ℕ)) → (b == 10) ≡ false → AreLines ls → AreLines (prepend b ls)
unfolding AreLines newlines
prepend-AreLines b [] other h = (ground (arith, other), tt)
prepend-AreLines b (l ∷ ls) other (e, h) = (ground (arith, other, e), h)

length-prepend : (b : ℕ) (ls : List (List ℕ)) → 0 < length ls → length (prepend b ls) ≡ length ls
length-prepend b [] h = absurd (omega arith)
length-prepend b (l ∷ ls) h = refl

length-split_lines : (text : List ℕ) → length (split_lines text) ≡ newlines text + 1
unfolding split_lines newlines
length-split_lines [] = refl
length-split_lines (b ∷ bs) = elim (Bool-cases (b == 10)) [
  | inl e ↦ rw e (omega (arith, length-split_lines bs))
  | inr e ↦ rw e (
      omega (
        arith,
        length-split_lines bs,
        length-prepend b (split_lines bs) (omega (arith, length-split_lines bs)),
      ))
]

split_lines-AreLines : (text : List ℕ) → AreLines (split_lines text)
unfolding split_lines AreLines newlines
split_lines-AreLines [] = (refl, tt)
split_lines-AreLines (b ∷ bs) = elim (Bool-cases (b == 10)) [
  | inl e ↦ rw e (refl, split_lines-AreLines bs)
  | inr e ↦ rw e (prepend-AreLines b (split_lines bs) e (split_lines-AreLines bs))
]

take-AreLines : (n : ℕ) (ls : List (List ℕ)) → AreLines ls → AreLines (take n ls)
unfolding AreLines
take-AreLines zero ls h = tt
take-AreLines (suc n) [] h = tt
take-AreLines (suc n) (l ∷ ls) (e, h) = (e, take-AreLines n ls h)

newlines-join_lines : (ls : List (List ℕ)) → AreLines ls → newlines (join_lines ls) ≡ length ls - 1
unfolding join_lines AreLines newlines
newlines-join_lines [] h = omega arith
newlines-join_lines (l ∷ []) (e, h) = omega (arith, e)
newlines-join_lines (l ∷ k ∷ ls) (e, h) =
    omega (arith, e, newlines-append l (10 ∷ join_lines (k ∷ ls)), newlines-join_lines (k ∷ ls) h)

module _ (dim : List ℕ → List ℕ) (one_line : newlines (dim (dashes 40)) ≡ 0) where
  placed :
      (available : ℕ) (shown : List (List ℕ)) (footer : List ℕ)
      → AreLines shown
      → length shown ≤ available
      → newlines (
          join_lines shown
          ++ replicate (available - length shown + 1) 10
          ++ dim (dashes 40)
          ++ 10 ∷ footer)
        ≡ (if length shown == 0 then 1 else 0) + available + 1 + newlines footer
  placed available shown footer h fits =
      let pad : List ℕ = replicate (available - length shown + 1) 10 in
      let body : List ℕ = join_lines shown in
      ground (
        arith,
        fits,
        one_line,
        newlines-append (body ++ pad ++ dim (dashes 40)) (10 ∷ footer),
        newlines-append (body ++ pad) (dim (dashes 40)),
        newlines-append body pad,
        newlines-replicate (available - length shown + 1),
        newlines-join_lines shown h,
        newline_first footer,
      )

  -- A screen that is at least two lines taller than its footer is filled exactly, whatever the body, if the style
  -- of the divider adds no line. On a lower one the layout is two lines taller than the footer all the same.
  pub layout_height :
      (body footer : List ℕ) (height : ℕ)
      → 0 < height
      → line_count (layout_with_footer dim body footer height)
        ≡ (if ltb (line_count footer + 1) height then height else line_count footer + 2)
  unfolding layout_with_footer place
  layout_height body footer height some_height =
      let lines = split_lines (trim_newlines body) in
      let counted = length-split_lines footer in
      let count = length-split_lines (trim_newlines body) in
      let whole = split_lines-AreLines (trim_newlines body) in
      let available = height - length (split_lines footer) - 1 in
      let known : (height == 0) ≡ false = ground arith in
      rw known (elim (Bool-cases (leb (length lines) available)) [
        | inl e ↦ rw e (
            ground
              (arith, e, count, counted, placed available lines footer whole (ground (arith, e))))
        | inr e ↦
            let shown = take available lines in
            let cut : length shown ≡ available = ground (arith, e, length-take available lines) in
            rw e (
              ground (
                arith,
                e,
                cut,
                count,
                counted,
                placed available shown footer (take-AreLines available lines whole)
                    (omega (arith, cut)),
              ))
      ])

  abbrev Ends : List ℕ → List ℕ → Type 0
  Ends footer text = (above : List ℕ) × (text ≡ above ++ 10 ∷ footer)

  either-Ends :
      (b : Bool) (footer s t : List ℕ)
      → Ends footer s
      → Ends footer t
      → Ends footer (if b then s else t)
  either-Ends true footer s t v w = v
  either-Ends false footer s t v w = w

  -- The footer is what a screen ends with.
  pub layout_ends :
      (body footer : List ℕ) (height : ℕ)
      → (above : List ℕ) × (layout_with_footer dim body footer height ≡ above ++ 10 ∷ footer)
  unfolding layout_with_footer place
  layout_ends body footer height =
      let lines = split_lines (trim_newlines body) in
      let available = height - length (split_lines footer) - 1 in
      let shown = if leb (length lines) available then lines else take available lines in
      either-Ends (height == 0) footer _ _ (body, refl)
        (join_lines shown ++ replicate (available - length shown + 1) 10 ++ dim (dashes 40), refl)
