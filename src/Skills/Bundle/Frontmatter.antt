-- ===== src/Skills/Bundle/Frontmatter.antt =====
-- pkg/skills/bundle/frontmatter.go: SKILL.md, cut into its frontmatter and its body. The texts of
-- the errors are not modelled.
use souz_go.Prelude.{
  ℕ, zero, suc, ◌+◌, ◌==◌, ◌||◌, ◌&&◌, not, Bool, List, [], ◌∷◌, Option, none, some, Text, codes,
  Dict, insert, text_eq, trim_space, is_blank, split_lines, join_lines, index_byte, take, drop,
  if◌then◌else◌,
}
use souz_go.Skills.Bundle.{Manifest}

-- strings.ReplaceAll(content, "\r\n", "\n")
unfoldable pub unix_lines : Text → Text
unix_lines [] = []
unix_lines (c ∷ []) = c ∷ []
unix_lines (c ∷ d ∷ s) =
    let one = unix_lines (d ∷ s) in
    let two = unix_lines s in if c == 13 && d == 10 then 10 ∷ two else c ∷ one

-- strings.TrimLeft(s, " \t")
unfoldable pub dedent : Text → Text
dedent [] = []
dedent (c ∷ s) = let rest = dedent s in if c == 32 || c == 9 then rest else c ∷ s

-- line != strings.TrimLeft(line, " \t")
unfoldable pub is_indented : Text → Bool
unfolding dedent
is_indented line = not (text_eq line (dedent line))

-- s[:len(s)-1] for a text that has a last byte, and this byte.
unfoldable pub init_last : Text → Option (Text × ℕ)
init_last [] = none
init_last (c ∷ s) = elim (init_last s) [ none ↦ some ([], c) | some (t, d) ↦ some (c ∷ t, d) ]

unfoldable pub unquote : Text → Text
unfolding init_last
unquote [] = []
unquote (c ∷ s) = elim (init_last s) [
  | none ↦ c ∷ s
  | some (t, d) ↦ if (c == b'"' && d == b'"') || (c == 39 && d == 39) then t else c ∷ s
]

unfoldable pub split_key_value : Text → Option (Text × Text)
unfolding trim_space unquote
split_key_value line = elim (index_byte line b':') [
  | none ↦ none
  | some i ↦
      let key = trim_space (take i line) in
      let value = unquote (trim_space (drop (i + 1) line)) in
      if text_eq key [] then none else some (key, value)
]

-- The map, and how many lines were consumed. A nil map is an empty one.
unfoldable pub metadata_lines : List Text → Dict Text → ℕ → Dict Text × ℕ
unfolding is_blank is_indented dedent split_key_value insert
metadata_lines [] meta consumed = (meta, consumed)
metadata_lines (line ∷ lines) meta consumed =
    let meta' : Dict Text = elim (split_key_value (dedent line)) [
      | none ↦ meta
      | some (key, value) ↦ insert key value meta
    ] in
    let rest = metadata_lines lines meta' (suc consumed) in
    if is_blank line || not (is_indented line) then (meta, consumed) else rest

unfoldable pub parse_metadata_block : List Text → Dict Text × ℕ
unfolding metadata_lines
parse_metadata_block lines = metadata_lines lines [] 0

unfoldable pub set_field : Text → Text → Manifest → Manifest
set_field key value m =
    if text_eq key (codes "name")
    then record m { name = value }
    else if text_eq key (codes "description")
    then record m { description = value }
    else if text_eq key (codes "author")
    then record m { author = value }
    else if text_eq key (codes "version")
    then record m { version = value }
    else m

abbrev pub no_manifest : Manifest
no_manifest = record { name = []; description = []; author = []; version = []; metadata = [] }

-- The loop of parseManifestLines. The lines of a metadata block that were consumed are skipped.
unfoldable pub manifest_loop : List Text → (skipped : ℕ) → Manifest → Manifest
unfolding is_blank is_indented split_key_value parse_metadata_block set_field
manifest_loop [] n m = m
manifest_loop (line ∷ lines) (suc n) m = manifest_loop lines n m
manifest_loop (line ∷ lines) zero m =
    if is_blank line || is_indented line
    then manifest_loop lines 0 m
    else elim (split_key_value line) [
      | none ↦ manifest_loop lines 0 m
      | some (key, value) ↦
          if text_eq key (codes "metadata")
          then manifest_loop lines (parse_metadata_block lines).1
              (record m { metadata = (parse_metadata_block lines).0 })
          else manifest_loop lines 0 (set_field key value m)
    ]

unfoldable pub parse_manifest_lines : List Text → Option Manifest
unfolding manifest_loop is_blank
parse_manifest_lines lines =
    let m = manifest_loop lines 0 no_manifest in
    if is_blank m.name || is_blank m.description then none else some m

unfoldable pub is_delimiter : Text → Bool
unfolding trim_space
is_delimiter line = text_eq (trim_space line) (codes "---")

-- The lines before the first delimiter, and those after it.
unfoldable pub split_at_delimiter : List Text → Option (List Text × List Text)
unfolding is_delimiter
split_at_delimiter [] = none
split_at_delimiter (line ∷ lines) =
    let rest = split_at_delimiter lines in
    if is_delimiter line
    then some ([], lines)
    else elim rest [ none ↦ none | some (before, after) ↦ some (line ∷ before, after) ]

-- The manifest, the raw frontmatter and the body.
unfoldable pub parse_frontmatter : Text → Option (Manifest × (Text × Text))
unfolding unix_lines split_lines is_delimiter split_at_delimiter parse_manifest_lines join_lines
    trim_space
parse_frontmatter content = elim (split_lines (unix_lines content)) [
  | [] ↦ none
  | line ∷ lines ↦
      if is_delimiter line
      then elim (split_at_delimiter lines) [
        | none ↦ none
        | some (front, after) ↦ elim (parse_manifest_lines front) [
          | none ↦ none
          | some m ↦ some (m, (join_lines front, trim_space (join_lines after)))
        ]
      ]
      else none
]
