-- ===== src/Tools/Calculator/Levels.antt =====
-- The levels of the calculator's grammar, as the parser reads them.
use souz_go.Prelude.{ℕ, zero, suc, ◌==◌, ◌≡◌, refl, ap, ◌∙◌, true, false, ◌∷◌, Text}
use souz_go.Tools.Calculator.{
  Floats, Calculation, value, and_then, skip_space, peek, tail, is_number_byte, divided, atom,
  parse_expr, expr_loop, parse_term, term_loop, parse_unary, parse_power, parse_atom,
}
use souz_go.Tools.Calculator.Grammar.{
  Expr, expr, Sums, no_sums, plus, minus, Term, term, Products, no_products, times, over, Unary,
  positive, negative, power, Power, base, raised, Atom, blanks, print, print_sums, print_term,
  print_products, print_unary, print_power, print_atom, meaning, sum, meaning_term, product,
  meaning_unary, meaning_power, meaning_atom,
}
use souz_go.Tools.Calculator.Scanning.{
  skip_space-skip_space, skip_space-shown, AfterPower, AfterTerm, AfterExpr,
  print_products-AfterPower, print_sums-AfterTerm, print_power_no_sign, blank_no_digit,
}
use souz_go.Tools.Calculator.Reading.{
  Agrees, Agrees-closing, ran_out, same, Agrees-at, Agrees-then, Agrees-plain, left, ReadsAtomThen,
}

module _ (M : Floats) where
  open M use {Float}

  -- What each level reads off a tree's text.
  abbrev pub ReadsExpr : Expr → Type 0
  ReadsExpr e =
      (f : ℕ) (s : Text)
      → AfterExpr s
      → Agrees (parse_expr M f (print e s)) (left (meaning M e) (skip_space s))

  abbrev pub ReadsSums : Sums → Type 0
  ReadsSums ss =
      (f : ℕ) (v : Float) (s : Text)
      → AfterExpr s
      → Agrees (expr_loop M f v (skip_space (print_sums ss s))) (left (sum M ss v) (skip_space s))

  abbrev pub ReadsTerm : Term → Type 0
  ReadsTerm t =
      (f : ℕ) (s : Text)
      → AfterTerm s
      → Agrees (parse_term M f (print_term t s)) (left (meaning_term M t) (skip_space s))

  abbrev pub ReadsProducts : Products → Type 0
  ReadsProducts ps =
      (f : ℕ) (v : Float) (s : Text)
      → AfterTerm s
      → Agrees (term_loop M f v (skip_space (print_products ps s)))
          (left (product M ps v) (skip_space s))

  abbrev pub ReadsUnary : Unary → Type 0
  ReadsUnary u =
      (f : ℕ) (s : Text)
      → AfterPower s
      → Agrees (parse_unary M f (print_unary u s)) (left (meaning_unary M u) (skip_space s))

  abbrev pub ReadsPower : Power → Type 0
  ReadsPower p =
      (f : ℕ) (s : Text)
      → AfterPower s
      → Agrees (parse_power M f (skip_space (print_power p s)))
          (left (meaning_power M p) (skip_space s))

  abbrev pub ReadsAtom : Atom → Type 0
  ReadsAtom a =
      (f : ℕ) (s : Text)
      → is_number_byte (peek s) ≡ false
      → Agrees (parse_atom M f (skip_space (print_atom a s))) (left (meaning_atom M a) s)

  -- The loops and the tests after the blanks.
  sum_step : ℕ → Float → Text → Calculation (Float × Text)
  sum_step f v t = elim (peek t == b'+') [
    | true ↦ and_then (parse_term M f (tail t)) (λ (rhs, r). expr_loop M f (M.add v rhs) r)
    | false ↦ elim (peek t == b'-') [
      | true ↦ and_then (parse_term M f (tail t)) (λ (rhs, r). expr_loop M f (M.sub v rhs) r)
      | false ↦ value (v, t)
    ]
  ]

  expr_loop-at :
      (f : ℕ) (v : Float) (s : Text) {t : Text}
      → skip_space s ≡ t
      → expr_loop M (suc f) v s ≡ sum_step f v t
  unfolding expr_loop sum_step
  expr_loop-at f v s h = ap (sum_step f v) h

  product_step : ℕ → Float → Text → Calculation (Float × Text)
  product_step f v t = elim (peek t == b'*') [
    | true ↦ and_then (parse_unary M f (tail t)) (λ (rhs, r). term_loop M f (M.mul v rhs) r)
    | false ↦ elim (peek t == b'/') [
      | true ↦
          and_then (parse_unary M f (tail t))
            (λ (rhs, r). and_then (divided M v rhs) (λ q. term_loop M f q r))
      | false ↦ value (v, t)
    ]
  ]

  term_loop-at :
      (f : ℕ) (v : Float) (s : Text) {t : Text}
      → skip_space s ≡ t
      → term_loop M (suc f) v s ≡ product_step f v t
  unfolding term_loop product_step
  term_loop-at f v s h = ap (product_step f v) h

  unary_step : ℕ → Text → Calculation (Float × Text)
  unary_step f t = elim (peek t == b'+') [
    | true ↦ parse_unary M f (tail t)
    | false ↦ elim (peek t == b'-') [
      | true ↦ and_then (parse_unary M f (tail t)) (λ (v, r). value (M.neg v, r))
      | false ↦ parse_power M f t
    ]
  ]

  parse_unary-at :
      (f : ℕ) (s : Text) {t : Text} → skip_space s ≡ t → parse_unary M (suc f) s ≡ unary_step f t
  unfolding parse_unary unary_step
  parse_unary-at f s h = ap (unary_step f) h

  power_step : ℕ → Float → Text → Calculation (Float × Text)
  power_step f b t = elim (peek t == b'^') [
    | true ↦ and_then (parse_unary M f (tail t)) (λ (e, q). value (M.pow b e, q))
    | false ↦ value (b, t)
  ]

  pub expr-Reads : (t : Term) (ss : Sums) → ReadsTerm t → ReadsSums ss → ReadsExpr (expr t ss)
  unfolding parse_expr print meaning
  expr-Reads t ss ht hs zero s a = ran_out refl
  expr-Reads t ss ht hs (suc f) s a =
      Agrees-then (meaning_term M t) (skip_space s) _ (sum M ss)
        (ht f (print_sums ss s) (print_sums-AfterTerm ss s a)) (λ v. hs f v s a)

  pub no_sums-Reads : ReadsSums no_sums
  unfolding expr_loop print_sums sum sum_step
  no_sums-Reads zero v s a = ran_out refl
  no_sums-Reads (suc f) v s a =
      same
        (expr_loop-at f v _ (skip_space-skip_space s) ∙ rw (a.no_plus, a.no_minus, sum_step) refl)

  pub plus-Reads :
      (n : ℕ) (t : Term) (ss : Sums) → ReadsTerm t → ReadsSums ss → ReadsSums (plus n t ss)
  unfolding expr_loop print_sums sum sum_step
  plus-Reads n t ss ht hs zero v s a = ran_out refl
  plus-Reads n t ss ht hs (suc f) v s a =
      Agrees-at
        (expr_loop-at f v _
          (skip_space-skip_space (print_sums (plus n t ss) s) ∙ skip_space-shown n b'+' _ refl))
        (Agrees-then (meaning_term M t) (skip_space s) _ (λ rhs. sum M ss (M.add v rhs))
          (ht f (print_sums ss s) (print_sums-AfterTerm ss s a)) (λ rhs. hs f (M.add v rhs) s a))

  pub minus-Reads :
      (n : ℕ) (t : Term) (ss : Sums) → ReadsTerm t → ReadsSums ss → ReadsSums (minus n t ss)
  unfolding expr_loop print_sums sum sum_step
  minus-Reads n t ss ht hs zero v s a = ran_out refl
  minus-Reads n t ss ht hs (suc f) v s a =
      Agrees-at
        (expr_loop-at f v _
          (skip_space-skip_space (print_sums (minus n t ss) s) ∙ skip_space-shown n b'-' _ refl))
        (Agrees-then (meaning_term M t) (skip_space s) _ (λ rhs. sum M ss (M.sub v rhs))
          (ht f (print_sums ss s) (print_sums-AfterTerm ss s a)) (λ rhs. hs f (M.sub v rhs) s a))

  pub term-Reads :
      (u : Unary) (ps : Products) → ReadsUnary u → ReadsProducts ps → ReadsTerm (term u ps)
  unfolding parse_term print_term meaning_term
  term-Reads u ps hu hp zero s a = ran_out refl
  term-Reads u ps hu hp (suc f) s a =
      Agrees-then (meaning_unary M u) (skip_space s) _ (product M ps)
        (hu f (print_products ps s) (print_products-AfterPower ps s a)) (λ v. hp f v s a)

  pub no_products-Reads : ReadsProducts no_products
  unfolding term_loop print_products product product_step
  no_products-Reads zero v s a = ran_out refl
  no_products-Reads (suc f) v s a =
      same (
        term_loop-at f v _ (skip_space-skip_space s)
        ∙ rw (a.no_star, a.no_slash, product_step) refl)

  pub times-Reads :
      (n : ℕ) (u : Unary) (ps : Products)
      → ReadsUnary u
      → ReadsProducts ps
      → ReadsProducts (times n u ps)
  unfolding term_loop print_products product product_step
  times-Reads n u ps hu hp zero v s a = ran_out refl
  times-Reads n u ps hu hp (suc f) v s a =
      Agrees-at
        (term_loop-at f v _ (
          skip_space-skip_space (print_products (times n u ps) s) ∙ skip_space-shown n b'*' _ refl))
        (Agrees-then (meaning_unary M u) (skip_space s) _ (λ rhs. product M ps (M.mul v rhs))
          (hu f (print_products ps s) (print_products-AfterPower ps s a))
          (λ rhs. hp f (M.mul v rhs) s a))

  pub over-Reads :
      (n : ℕ) (u : Unary) (ps : Products)
      → ReadsUnary u
      → ReadsProducts ps
      → ReadsProducts (over n u ps)
  unfolding term_loop print_products product product_step
  over-Reads n u ps hu hp zero v s a = ran_out refl
  over-Reads n u ps hu hp (suc f) v s a =
      Agrees-at
        (term_loop-at f v _
          (skip_space-skip_space (print_products (over n u ps) s) ∙ skip_space-shown n b'/' _ refl))
        (Agrees-then (meaning_unary M u) (skip_space s) _
          (λ rhs. and_then (divided M v rhs) (λ q. product M ps q))
          (hu f (print_products ps s) (print_products-AfterPower ps s a))
          (λ rhs. Agrees-plain (divided M v rhs) (skip_space s) _ (product M ps) (λ q. hp f q s a)))

  pub positive-Reads : (n : ℕ) (u : Unary) → ReadsUnary u → ReadsUnary (positive n u)
  unfolding parse_unary print_unary meaning_unary unary_step
  positive-Reads n u hu zero s a = ran_out refl
  positive-Reads n u hu (suc f) s a =
      Agrees-at (parse_unary-at f _ (skip_space-shown n b'+' _ refl)) (hu f s a)

  pub negative-Reads : (n : ℕ) (u : Unary) → ReadsUnary u → ReadsUnary (negative n u)
  unfolding parse_unary print_unary meaning_unary unary_step
  negative-Reads n u hu zero s a = ran_out refl
  negative-Reads n u hu (suc f) s a =
      Agrees-at (parse_unary-at f _ (skip_space-shown n b'-' _ refl))
        (Agrees-then (meaning_unary M u) (skip_space s) _ _ (hu f s a) (λ v. same refl))

  pub power-Reads : (p : Power) → ReadsPower p → ReadsUnary (power p)
  unfolding parse_unary print_unary meaning_unary unary_step
  power-Reads p hp zero s a = ran_out refl
  power-Reads p hp (suc f) s a =
      let signs = print_power_no_sign p s in
      Agrees-at (parse_unary-at f (print_power p s) refl ∙ rw (signs.0, signs.1, unary_step) refl)
        (hp f s a)

  pub base-Reads : (p : Atom) → ReadsAtom p → ReadsPower (base p)
  unfolding parse_power print_power meaning_power power_step
  base-Reads p hp zero s a = ran_out refl
  base-Reads p hp (suc f) s a =
      Agrees-closing (meaning_atom M p) (skip_space s) _ (hp f s a.no_digit)
        (λ b. rw (a.no_caret, power_step) refl)

  pub raised-Reads :
      (p : Atom) (n : ℕ) (u : Unary) → ReadsAtom p → ReadsUnary u → ReadsPower (raised p n u)
  unfolding parse_power print_power meaning_power power_step is_number_byte
  raised-Reads p n u hp hu zero s a = ran_out refl
  raised-Reads p n u hp hu (suc f) s a =
      Agrees-then (meaning_atom M p) (skip_space s) _ _
        (hp f (blanks n (b'^' ∷ print_unary u s)) (blank_no_digit n b'^' (print_unary u s) refl))
        (λ b.
          Agrees-at (ap (power_step f b) (skip_space-shown n b'^' _ refl))
            (Agrees-then (meaning_unary M u) (skip_space s) _ _ (hu f s a) (λ e. same refl)))

  pub atom-Reads :
      (p : Atom)
      → ((f : ℕ) (s : Text)
          → is_number_byte (peek s) ≡ false
          → ReadsAtomThen M (parse_expr M f) p s)
      → ReadsAtom p
  unfolding parse_atom
  atom-Reads p h zero s a = ran_out refl
  atom-Reads p h (suc f) s a =
      Agrees-at (ap (atom M (parse_expr M f)) (skip_space-skip_space (print_atom p s))) (h f s a)

  parse_unary-skip_space : (f : ℕ) (s : Text) → parse_unary M f (skip_space s) ≡ parse_unary M f s
  unfolding parse_unary skip_space unary_step
  parse_unary-skip_space zero s = refl
  parse_unary-skip_space (suc f) s = ap (unary_step f) (skip_space-skip_space s)

  pub parse_expr-skip_space : (f : ℕ) (s : Text) → parse_expr M f (skip_space s) ≡ parse_expr M f s
  unfolding parse_expr parse_term
  parse_expr-skip_space zero s = refl
  parse_expr-skip_space (suc zero) s = refl
  parse_expr-skip_space (suc (suc f)) s = rw (parse_unary-skip_space f s) refl
