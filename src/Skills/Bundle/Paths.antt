-- ===== src/Skills/Bundle/Paths.antt =====
-- NormalizePath of pkg/skills/bundle/bundle.go, on systems whose separator is the slash, where
-- filepath.ToSlash changes nothing. The texts of its errors are not modelled.
pub mod Inside
use souz_go.Prelude.{
  ◌==◌, ◌||◌, ◌&&◌, not, Bool, true, false, List, [], ◌∷◌, ◌++◌, Option, none, some, Text, codes,
  text_eq, contains, has_prefix, all, if◌then◌else◌,
}

-- The first segment gets the byte in front.
unfoldable pub onto_first : Text → List Text → List Text
onto_first s [] = s ∷ []
onto_first s (t ∷ ts) = (s ++ t) ∷ ts

-- strings.Split(s, "/")
unfoldable pub split_slash : Text → List Text
unfolding onto_first
split_slash [] = [] ∷ []
split_slash (c ∷ s) =
    let rest = split_slash s in if c == b'/' then [] ∷ rest else onto_first (c ∷ []) rest

-- strings.Join(ss, "/")
unfoldable pub join_slash : List Text → Text
join_slash [] = []
join_slash (s ∷ []) = s
join_slash (s ∷ t ∷ ts) = s ++ b'/' ∷ join_slash (t ∷ ts)

unfoldable pub is_valid_segment : Text → Bool
is_valid_segment s = not (text_eq s [] || text_eq s (codes ".") || text_eq s (codes ".."))

unfoldable pub normalize_path : Text → Option Text
unfolding split_slash join_slash is_valid_segment
normalize_path p =
    if text_eq p [] || contains p (0 ∷ []) || contains p (codes "\\") || has_prefix p (codes "/")
    then none
    else if all is_valid_segment (split_slash p)
    then some (join_slash (split_slash p))
    else none
