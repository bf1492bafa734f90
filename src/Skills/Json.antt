-- ===== src/Skills/Json.antt =====
-- extractJSONObject, which pkg/skills/selection/selection.go and pkg/skills/validation/llm.go both
-- declare with the same body. The loop counts braces and does not look at quotes.
use souz_go.Prelude.{
  ℕ, suc, ◌-◌, ◌==◌, ◌&&◌, true, false, List, [], ◌∷◌, Option, none, some, Text, if◌then◌else◌,
}
pub mod Objects

-- What the byte makes of the depth.
unfoldable pub depth_after : ℕ → ℕ → ℕ
depth_after c depth = if c == b'{' then suc depth else if c == b'}' then depth - 1 else depth

-- The loop from the byte at hand: the text up to the brace that brings the depth back to 0.
unfoldable pub until_closed : ℕ → Text → Option Text
unfolding depth_after
until_closed depth [] = none
until_closed depth (c ∷ s) =
    let d = depth_after c depth in
    elim (c == b'}' && d == 0) [
      | true ↦ some (c ∷ [])
      | false ↦ elim (until_closed d s) [ none ↦ none | some t ↦ some (c ∷ t) ]
    ]

unfoldable pub extract_json_object : Text → Text
unfolding until_closed
extract_json_object [] = []
extract_json_object (c ∷ s) = elim (c == b'{') [
  | true ↦ elim (until_closed 0 (c ∷ s)) [ none ↦ [] | some t ↦ t ]
  | false ↦ extract_json_object s
]
