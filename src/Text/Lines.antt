-- ===== src/Text/Lines.antt =====
-- `strings.Split` and `strings.Join` at line feeds, and that they undo each other.
use true_dns.Base.{
  ℕ, ◌≡◌, refl, false, List, [], ◌∷◌, ◌++◌, if◌then◌else◌, ◌==◌, Bool-cases, inl, inr, All, ap, ◌∙◌,
}
use true_dns.Text.Defs.{Bytes}

abbrev pub newline : ℕ
newline = b'\n'

-- the first line with `c` before it
abbrev pub cons_line : ℕ → List Bytes → List Bytes
cons_line c [] = (c ∷ []) ∷ []
cons_line c (l ∷ ls) = (c ∷ l) ∷ ls

-- `strings.Split(s, "\n")`
unfoldable pub split_lines : Bytes → List Bytes
split_lines [] = [] ∷ []
split_lines (c ∷ s) =
    let rest = split_lines s in if c == newline then [] ∷ rest else cons_line c rest

-- `strings.Join(ls, "\n")`
unfoldable pub join_lines : List Bytes → Bytes
join_lines [] = []
join_lines (l ∷ []) = l
join_lines (l ∷ k ∷ ls) = l ++ (newline ∷ join_lines (k ∷ ls))

-- The text holds no line feed.
abbrev pub IsLine : Bytes → Type 0
IsLine [] = Unit
IsLine (c ∷ l) = ((c == newline) ≡ false) × IsLine l

cons_line-IsLine :
    (c : ℕ) (ls : List Bytes) → (c == newline) ≡ false → All IsLine ls → All IsLine (cons_line c ls)
cons_line-IsLine c [] h a = ((h, tt), tt)
cons_line-IsLine c (l ∷ ls) h a = ((h, a.0), a.1)

pub split_lines-IsLine : (s : Bytes) → All IsLine (split_lines s)
unfolding split_lines
split_lines-IsLine [] = (tt, tt)
split_lines-IsLine (c ∷ s) = elim (Bool-cases (c == newline)) [
  | inl b ↦ rw b (tt, split_lines-IsLine s)
  | inr b ↦ rw b (cons_line-IsLine c (split_lines s) b (split_lines-IsLine s))
]

-- Splitting a line, and a line with a text behind it.
split_lines-line : (l : Bytes) → IsLine l → split_lines l ≡ l ∷ []
unfolding split_lines
split_lines-line [] h = refl
split_lines-line (c ∷ l) h = rw (h.0, split_lines-line l h.1) refl

pub split_lines-append :
    (l s : Bytes) → IsLine l → split_lines (l ++ (newline ∷ s)) ≡ l ∷ split_lines s
unfolding split_lines
split_lines-append [] s h = refl
split_lines-append (c ∷ l) s h = rw (h.0, split_lines-append l s h.1) refl

pub split_lines-join_lines :
    (l : Bytes) (ls : List Bytes) → All IsLine (l ∷ ls) → split_lines (join_lines (l ∷ ls)) ≡ l ∷ ls
unfolding join_lines
split_lines-join_lines l [] h = split_lines-line l h.0
split_lines-join_lines l (k ∷ ls) h =
    split_lines-append l (join_lines (k ∷ ls)) h.0 ∙ ap (◌∷◌ l) (split_lines-join_lines k ls h.1)
