-- ===== src/Prelude/Spaces.antt =====
-- strings.TrimSpace on UTF-8: the white space of Unicode, at both ends.
use Prim.Native.Nat.{ℕ}
use mathlib.Core.Bool.{Bool, ◌&&◌, ◌||◌}
use mathlib.Core.List.{[], ◌∷◌, reverse}
use souz_go.Prelude.Basics.{◌==◌, leb, if◌then◌else◌}
use souz_go.Prelude.Strings.{Text, text_eq}

-- '\t' to '\r', and ' '
unfoldable pub is_space1 : ℕ → Bool
is_space1 a = (leb 9 a && leb a 13) || a == 32

-- U+0085 and U+00A0
unfoldable pub is_space2 : ℕ → ℕ → Bool
is_space2 a b = a == 0xc2 && (b == 0x85 || b == 0xa0)

-- U+1680, U+2000 to U+200A, U+2028, U+2029, U+202F, U+205F, U+3000
unfoldable pub is_space3 : ℕ → ℕ → ℕ → Bool
is_space3 a b c =
    (a == 0xe1 && b == 0x9a && c == 0x80)
    || (a == 0xe2
        && b == 0x80
        && ((leb 0x80 c && leb c 0x8a) || c == 0xa8 || c == 0xa9 || c == 0xaf))
    || (a == 0xe2 && b == 0x81 && c == 0x9f)
    || (a == 0xe3 && b == 0x80 && c == 0x80)

unfoldable pub trim_left : Text → Text
unfolding is_space1 is_space2 is_space3
trim_left [] = []
trim_left (a ∷ []) = if is_space1 a then [] else a ∷ []
trim_left (a ∷ b ∷ []) =
    let one = trim_left (b ∷ []) in
    if is_space1 a then one else if is_space2 a b then [] else a ∷ b ∷ []
trim_left (a ∷ b ∷ c ∷ s) =
    let one = trim_left (b ∷ c ∷ s) in
    let two = trim_left (c ∷ s) in
    let three = trim_left s in
    if is_space1 a
    then one
    else if is_space2 a b
    then two
    else if is_space3 a b c
    then three
    else a ∷ b ∷ c ∷ s

-- The same on a text whose bytes come last first.
unfoldable pub trim_reversed : Text → Text
unfolding is_space1 is_space2 is_space3
trim_reversed [] = []
trim_reversed (c ∷ []) = if is_space1 c then [] else c ∷ []
trim_reversed (c ∷ b ∷ []) =
    let one = trim_reversed (b ∷ []) in
    if is_space1 c then one else if is_space2 b c then [] else c ∷ b ∷ []
trim_reversed (c ∷ b ∷ a ∷ s) =
    let one = trim_reversed (b ∷ a ∷ s) in
    let two = trim_reversed (a ∷ s) in
    let three = trim_reversed s in
    if is_space1 c
    then one
    else if is_space2 b c
    then two
    else if is_space3 a b c
    then three
    else c ∷ b ∷ a ∷ s

unfoldable pub trim_space : Text → Text
unfolding trim_left trim_reversed
trim_space s = reverse (trim_reversed (reverse (trim_left s)))

-- strings.TrimSpace(s) == ""
unfoldable pub is_blank : Text → Bool
unfolding trim_space
is_blank s = text_eq (trim_space s) []
