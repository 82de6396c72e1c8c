-- ===== src/Client/Screen.antt =====
-- `layoutWithFooter` of client/tui/transferStats.go, which pins the footer of a screen to its bottom. A style is
-- lipgloss's: the one that the divider is printed in is a parameter.
pub mod Styles
pub mod Height
use adb_remote.Prelude.{
  ℕ, ◌-◌, ◌+◌, List, [], ◌∷◌, ◌++◌, ◌==◌, ◌&&◌, if◌then◌else◌, length, take, replicate, zero, suc,
  leb,
}

abbrev pub newline : ℕ
newline = 10

-- strings.TrimRight of the newlines.
unfoldable pub trim_newlines : List ℕ → List ℕ
trim_newlines [] = []
trim_newlines (b ∷ bs) =
    let rest = trim_newlines bs in if b == newline && length rest == 0 then [] else b ∷ rest

abbrev pub prepend : ℕ → List (List ℕ) → List (List ℕ)
prepend b [] = (b ∷ []) ∷ []
prepend b (l ∷ ls) = (b ∷ l) ∷ ls

-- strings.Split at each newline.
unfoldable pub split_lines : List ℕ → List (List ℕ)
split_lines [] = [] ∷ []
split_lines (b ∷ bs) =
    let rest = split_lines bs in if b == newline then [] ∷ rest else prepend b rest

-- strings.Join with newlines.
unfoldable pub join_lines : List (List ℕ) → List ℕ
join_lines [] = []
join_lines (l ∷ []) = l
join_lines (l ∷ k ∷ ls) = l ++ newline ∷ join_lines (k ∷ ls)

-- The UTF-8 bytes of a box drawing line, forty times.
unfoldable pub dashes : ℕ → List ℕ
dashes zero = []
dashes (suc n) = 226 ∷ 148 ∷ 128 ∷ dashes n

module _ (dim : List ℕ → List ℕ) where
  -- The body's lines and the number of lines that are free for them.
  unfoldable pub place : ℕ → List (List ℕ) → List ℕ → List ℕ
  unfolding join_lines
  place available body_lines footer =
      let shown =
        if leb (length body_lines) available then body_lines else take available body_lines in
      join_lines shown
      ++ replicate (available - length shown + 1) newline
      ++ dim (dashes 40)
      ++ newline ∷ footer

  unfoldable pub layout_with_footer : List ℕ → List ℕ → ℕ → List ℕ
  unfolding place
  layout_with_footer body footer height =
      if height == 0
      then body ++ newline ∷ footer
      else place (height - length (split_lines footer) - 1) (split_lines (trim_newlines body))
          footer
