-- ===== src/Providers/IntMap.antt =====
-- Go maps with keys of type int, such as the tool calls that a stream assembles by index.
use souz_go.Prelude.{
  ℤ, pos, negsuc, ◌==◌, ◌≡◌, refl, Bool, true, false, List, [], ◌∷◌, Option, none, some,
  if◌then◌else◌, arith,
}

unfoldable pub int_eq : ℤ → ℤ → Bool
int_eq (pos a) (pos b) = a == b
int_eq (negsuc a) (negsuc b) = a == b
int_eq (pos a) (negsuc b) = false
int_eq (negsuc a) (pos b) = false

abbrev pub IntMap : Type 0 → Type 0
IntMap V = List (ℤ × V)

module _ {V : Type 0} where
  -- v, ok := m[k]
  unfoldable pub int_lookup : ℤ → IntMap V → Option V
  unfolding int_eq
  int_lookup k [] = none
  int_lookup k ((j, v) ∷ m) = if int_eq j k then some v else int_lookup k m

  -- m[k] = v
  unfoldable pub int_insert : ℤ → V → IntMap V → IntMap V
  unfolding int_eq
  int_insert k v [] = (k, v) ∷ []
  int_insert k v ((j, w) ∷ m) = if int_eq j k then (j, v) ∷ m else (j, w) ∷ int_insert k v m

  -- delete(m, k)
  unfoldable pub int_erase : ℤ → IntMap V → IntMap V
  unfolding int_eq
  int_erase k [] = []
  int_erase k ((j, v) ∷ m) = let rest = int_erase k m in if int_eq j k then rest else (j, v) ∷ rest

pub int_eq_refl : (k : ℤ) → int_eq k k ≡ true
unfolding int_eq
int_eq_refl (pos a) = ground arith
int_eq_refl (negsuc a) = ground arith

pub int_eq→eq : (j k : ℤ) → int_eq j k ≡ true → j ≡ k
unfolding int_eq
int_eq→eq (pos a) (pos b) h = ground arith
int_eq→eq (negsuc a) (negsuc b) h = ground arith
int_eq→eq (pos a) (negsuc b) h = cc
int_eq→eq (negsuc a) (pos b) h = cc

pub int_lookup-insert :
    {V : Type 0} (k j : ℤ) (v : V) (m : IntMap V)
    → int_lookup j (int_insert k v m) ≡ (if int_eq k j then some v else int_lookup j m)
unfolding int_lookup int_insert
int_lookup-insert k j v [] = refl
int_lookup-insert k j v ((i, w) ∷ m) =
    ground
      (arith, int_lookup-insert k j v m, int_eq→eq i k, int_eq→eq i j, int_eq→eq k j, int_eq_refl k)
