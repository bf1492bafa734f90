-- ===== src/Prelude/Lines.antt =====
-- Texts by their lines.
use mathlib.Core.List.{List, [], ◌∷◌, ◌++◌}
use souz_go.Prelude.Basics.{◌==◌, if◌then◌else◌}
use souz_go.Prelude.Strings.{Text}

-- strings.Join(lines, "\n")
unfoldable pub join_lines : List Text → Text
join_lines [] = []
join_lines (l ∷ []) = l
join_lines (l ∷ m ∷ ls) = l ++ 10 ∷ join_lines (m ∷ ls)

-- strings.Split(s, "\n")
unfoldable pub split_lines : Text → List Text
split_lines [] = [] ∷ []
split_lines (c ∷ s) = elim (split_lines s) [
  | [] ↦ (c ∷ []) ∷ []
  | l ∷ ls ↦ if c == 10 then [] ∷ l ∷ ls else (c ∷ l) ∷ ls
]
