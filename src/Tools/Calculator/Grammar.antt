-- ===== src/Tools/Calculator/Grammar.antt =====
-- The texts that the grammar of the calculator (pkg/tools/math/math.go, the comment on parser)
-- describes, as trees with the blanks between their tokens, and what a tree stands for: operators
-- of one level group to the left, except ^, which groups to the right, and the operands are
-- computed from left to right.
use souz_go.Prelude.{ℕ, zero, suc, ◌≡◌, Bool, true, none, some, [], ◌∷◌, ◌++◌, Text, ◌&&◌}
use souz_go.Tools.Calculator.{
  Floats, Calculation, value, fails, and_then, is_number_byte, is_ident_part, is_ident_start,
  apply_function, divided, to_lower,
}
use souz_go.Tools.Calculator.{CalcError}

unfoldable pub all_of : (ℕ → Bool) → Text → Bool
all_of p [] = true
all_of p (c ∷ s) = p c && all_of p s

-- Each number, name, sign and operator has a number of blanks in front of it; so have parentheses.
mutual
  pub data Expr : Type 0 where
    expr : Term → Sums → Expr

  pub data Sums : Type 0 where
    no_sums : Sums
    plus minus : ℕ → Term → Sums → Sums

  pub data Term : Type 0 where
    term : Unary → Products → Term

  pub data Products : Type 0 where
    no_products : Products
    times over : ℕ → Unary → Products → Products

  pub data Unary : Type 0 where
    positive negative : ℕ → Unary → Unary
    power : Power → Unary

  pub data Power : Type 0 where
    base : Atom → Power
    raised : Atom → ℕ → Unary → Power

  pub data Atom : Type 0 where
    number : ℕ → (d : ℕ) (ds : Text) → all_of is_number_byte (d ∷ ds) ≡ true → Atom
    call :
        ℕ
        → (c : ℕ) (cs : Text) → is_ident_start c ≡ true
        → all_of is_ident_part (c ∷ cs) ≡ true
        → ℕ
        → Expr
        → ℕ
        → Atom
    group : ℕ → Expr → ℕ → Atom

unfoldable pub blanks : ℕ → Text → Text
blanks zero s = s
blanks (suc n) s = 32 ∷ blanks n s

-- The text of a tree, in front of a text.
unfoldable mutual
  unfolding blanks

  pub print : Expr → Text → Text
  print (expr t ss) s = print_term t (print_sums ss s)

  pub print_sums : Sums → Text → Text
  print_sums no_sums s = s
  print_sums (plus n t ss) s = blanks n (b'+' ∷ print_term t (print_sums ss s))
  print_sums (minus n t ss) s = blanks n (b'-' ∷ print_term t (print_sums ss s))

  pub print_term : Term → Text → Text
  print_term (term u ps) s = print_unary u (print_products ps s)

  pub print_products : Products → Text → Text
  print_products no_products s = s
  print_products (times n u ps) s = blanks n (b'*' ∷ print_unary u (print_products ps s))
  print_products (over n u ps) s = blanks n (b'/' ∷ print_unary u (print_products ps s))

  pub print_unary : Unary → Text → Text
  print_unary (positive n u) s = blanks n (b'+' ∷ print_unary u s)
  print_unary (negative n u) s = blanks n (b'-' ∷ print_unary u s)
  print_unary (power p) s = print_power p s

  pub print_power : Power → Text → Text
  print_power (base a) s = print_atom a s
  print_power (raised a n u) s = print_atom a (blanks n (b'^' ∷ print_unary u s))

  pub print_atom : Atom → Text → Text
  print_atom (number n d ds h) s = blanks n (d ∷ (ds ++ s))
  print_atom (call n c cs h k m e l) s =
      blanks n (c ∷ (cs ++ blanks m (b'(' ∷ print e (blanks l (b')' ∷ s)))))
  print_atom (group n e l) s = blanks n (b'(' ∷ print e (blanks l (b')' ∷ s)))

module _ (M : Floats) where
  open M use {Float}

  -- strconv.ParseFloat on the digits
  unfoldable pub literal : Text → Calculation Float
  literal digits = elim (M.parse_float digits) [
    | none ↦ fails (CalcError.invalid_number digits)
    | some v ↦ value v
  ]

  -- The number that a tree stands for, or the first error.
  unfoldable mutual
    unfolding literal

    pub meaning : Expr → Calculation Float
    meaning (expr t ss) = and_then (meaning_term t) (λ v. sum ss v)

    -- v and what is added to it and subtracted from it
    pub sum : Sums → Float → Calculation Float
    sum no_sums v = value v
    sum (plus n t ss) v = and_then (meaning_term t) (λ rhs. sum ss (M.add v rhs))
    sum (minus n t ss) v = and_then (meaning_term t) (λ rhs. sum ss (M.sub v rhs))

    pub meaning_term : Term → Calculation Float
    meaning_term (term u ps) = and_then (meaning_unary u) (λ v. product ps v)

    pub product : Products → Float → Calculation Float
    product no_products v = value v
    product (times n u ps) v = and_then (meaning_unary u) (λ rhs. product ps (M.mul v rhs))
    product (over n u ps) v =
        and_then (meaning_unary u) (λ rhs. and_then (divided M v rhs) (λ q. product ps q))

    pub meaning_unary : Unary → Calculation Float
    meaning_unary (positive n u) = meaning_unary u
    meaning_unary (negative n u) = and_then (meaning_unary u) (λ v. value (M.neg v))
    meaning_unary (power p) = meaning_power p

    pub meaning_power : Power → Calculation Float
    meaning_power (base a) = meaning_atom a
    meaning_power (raised a n u) =
        and_then (meaning_atom a) (λ b. and_then (meaning_unary u) (λ e. value (M.pow b e)))

    pub meaning_atom : Atom → Calculation Float
    meaning_atom (number n d ds h) = literal (d ∷ ds)
    meaning_atom (call n c cs h k m e l) =
        and_then (meaning e) (λ v. apply_function M (to_lower (c ∷ cs)) v)
    meaning_atom (group n e l) = meaning e
