-- ===== src/Skills/Bundle/Paths/Inside.antt =====
-- A normalized path leads below the directory that it is taken from.
use souz_go.Prelude.{
  ◌≡◌, refl, true, List, [], ◌∷◌, ◌++◌, some, Text, codes, text_eq, all, arith, if◌then◌else◌,
  append_assoc, ◌≢◌,
}
use souz_go.Skills.Bundle.Paths.{
  onto_first, split_slash, join_slash, is_valid_segment, normalize_path,
}

join_slash-cons : (ss : List Text) → ss ≢ [] → join_slash ([] ∷ ss) ≡ b'/' ∷ join_slash ss
unfolding join_slash
join_slash-cons [] h = absurd (h refl)
join_slash-cons (s ∷ ss) h = refl

split_slash-ne : (s : Text) → split_slash s ≢ []
unfolding split_slash onto_first
split_slash-ne [] = λ e. cc
split_slash-ne (c ∷ s) = λ e. ground (arith, e, split_slash-ne s)

join_slash-onto_first :
    (c : Text) (ss : List Text) → ss ≢ [] → join_slash (onto_first c ss) ≡ c ++ join_slash ss
unfolding join_slash onto_first
join_slash-onto_first c [] h = absurd (h refl)
join_slash-onto_first c (s ∷ []) h = refl
join_slash-onto_first c (s ∷ t ∷ ss) h = append_assoc c s (b'/' ∷ join_slash (t ∷ ss))

pub join_slash-split_slash : (s : Text) → join_slash (split_slash s) ≡ s
unfolding split_slash join_slash
join_slash-split_slash [] = refl
join_slash-split_slash (c ∷ s) = ground (
  arith,
  join_slash-split_slash s,
  join_slash-cons (split_slash s) (split_slash-ne s),
  join_slash-onto_first (c ∷ []) (split_slash s) (split_slash-ne s),
)

-- The directory that a path leads to from a directory, both as lists of names with the last one in
-- front: an empty segment and "." stay, and ".." goes up.
unfoldable pub walk : List Text → List Text → List Text
walk dir [] = dir
walk dir (s ∷ ss) =
    let up : List Text = elim dir [ [] ↦ [] | d ∷ ds ↦ ds ] in
    let stay = walk dir ss in
    let above = walk up ss in
    let below = walk (s ∷ dir) ss in
    if text_eq s []
    then stay
    else if text_eq s (codes ".")
    then stay
    else if text_eq s (codes "..")
    then above
    else below

-- The names of the path, put in front of the directory.
unfoldable pub descend : List Text → List Text → List Text
descend dir [] = dir
descend dir (s ∷ ss) = descend (s ∷ dir) ss

walk-descend : (dir ss : List Text) → all is_valid_segment ss ≡ true → walk dir ss ≡ descend dir ss
unfolding walk descend is_valid_segment
walk-descend dir [] h = refl
walk-descend dir (s ∷ ss) h = ground (arith, h, walk-descend (s ∷ dir) ss)

-- A path that NormalizePath accepts is returned as it is, and leads down: from any directory, it is
-- the directory with every segment entered in turn.
pub normalize_path-walk :
    (p q : Text) (dir : List Text)
    → normalize_path p ≡ some q
    → (q ≡ p) × (walk dir (split_slash q) ≡ descend dir (split_slash q))
unfolding normalize_path
normalize_path-walk p q dir h =
    let same : q ≡ p = ground (arith, h, join_slash-split_slash p) in
    let valid : all is_valid_segment (split_slash q) ≡ true = ground (arith, h, same) in
    (same, walk-descend dir (split_slash q) valid)
