-- ===== src/Client/Screen/Styles.antt =====
-- The styles of client/tui/styles.go, by name: what lipgloss makes of a text is a parameter of the views.
use adb_remote.Prelude.{
  ℕ, ◌≡◌, refl, ◌∙◌, ap, List, [], ◌∷◌, ◌++◌, append_assoc, append-nil, sym, subst, Bool, true,
  false, not, ◌&&◌, if◌then◌else◌, leb, ◌==◌, Bool-cases, inl, inr,
}

pub data Style : Type 0 where
  title_style label_style selected_style prompt_style : Style
  success_style error_style help_style dim_style : Style

-- The UTF-8 bytes of a dash.
abbrev pub em_dash : List ℕ
em_dash = 226 ∷ 128 ∷ 148 ∷ []

-- A text without control bytes: on one line, and without tabs.
unfoldable pub printable : List ℕ → Bool
printable [] = true
printable (b ∷ bs) = let rest = printable bs in if leb 32 b then not (b == 127) && rest else false

pub printable-++ :
    (xs ys : List ℕ) → printable xs ≡ true → printable ys ≡ true → printable (xs ++ ys) ≡ true
unfolding printable
printable-++ [] ys h k = k
printable-++ (x ∷ xs) ys h k = elim (Bool-cases (leb 32 x)) [
  | inl e ↦ elim (Bool-cases (x == 127)) [
    | inl d ↦ cc
    | inr d ↦ let rest = printable-++ xs ys (rw (sym h, e, d) refl) k in rw (e, d, rest) refl
  ]
  | inr e ↦ cc
]

-- What a strings.Builder has been given.
unfoldable pub written : List (List ℕ) → List ℕ
written [] = []
written (p ∷ ps) = p ++ written ps

-- A text stands somewhere in another.
unfoldable pub Shows : List ℕ → List ℕ → Type 0
Shows x t = (above : List ℕ) × (below : List ℕ) × (t ≡ above ++ x ++ below)

-- A style puts its escapes around a text without control bytes. Tabs and line ends may be rewritten.
unfoldable pub KeepsText : (Style → List ℕ → List ℕ) → Type 0
KeepsText render = (s : Style) (t : List ℕ) → printable t ≡ true → Shows t (render s t)

pub Shows-here : (x t : List ℕ) → Shows x (x ++ t)
unfolding Shows
Shows-here x t = ([], t, refl)

pub Shows-before : (x s t : List ℕ) → Shows x s → Shows x (s ++ t)
unfolding Shows
Shows-before x s t (above, below, e) =
    (above, below ++ t, ap (λ u. u ++ t) e ∙ append_assoc (above ++ x) below t)

pub Shows-after : (x s t : List ℕ) → Shows x t → Shows x (s ++ t)
unfolding Shows
Shows-after x s t (above, below, e) = (
  s ++ above,
  below,
  ap (λ u. s ++ u) e
      ∙ sym (append_assoc s (above ++ x) below)
      ∙ ap (λ u. u ++ below) (sym (append_assoc s above x)),
)

pub Shows-trans : (x s t : List ℕ) → Shows x s → Shows s t → Shows x t
unfolding Shows
Shows-trans x s t h (above, below, e) =
    subst (Shows x) (sym e) (Shows-before x (above ++ s) below (Shows-after x above s h))

pub Shows-self : (x : List ℕ) → Shows x x
unfolding Shows
Shows-self x = ([], [], sym (append-nil x))

-- A text in a part of what was written.
pub Shows-next :
    (x p : List ℕ) (ps : List (List ℕ)) → Shows x (written ps) → Shows x (written (p ∷ ps))
unfolding written
Shows-next x p ps h = Shows-after x p (written ps) h

pub Shows-first : (x p : List ℕ) (ps : List (List ℕ)) → Shows x p → Shows x (written (p ∷ ps))
unfolding written
Shows-first x p ps h = Shows-before x p (written ps) h
