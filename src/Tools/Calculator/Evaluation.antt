-- ===== src/Tools/Calculator/Evaluation.antt =====
-- The calculator reads the grammar: the text of a tree evaluates to what the tree stands for.
use souz_go.Prelude.{ℕ, ◌+◌, ◌≡◌, ◌≢◌, refl, ap, ◌∙◌, [], Text, length, ◌*◌}
use souz_go.Tools.Calculator.{
  Floats, Calculation, value, fails, out_of_fuel, and_then, skip_space, parse_expr, whole_input,
  evaluate,
}
use souz_go.Tools.Calculator.Grammar.{
  Expr, expr, no_sums, plus, minus, term, no_products, times, over, positive, negative, power, base,
  raised, number, call, group, blanks, print, meaning,
}
use souz_go.Tools.Calculator.Scanning.{skip_space-blanks, end-AfterExpr}
use souz_go.Tools.Calculator.Fuel.{evaluate_total}
use souz_go.Tools.Calculator.Reading.{
  Agrees, ran_out, same, Agrees-at, left, number_lem, call_lem, group_atom_lem,
}
use souz_go.Tools.Calculator.Levels.{
  ReadsExpr, ReadsSums, ReadsTerm, ReadsProducts, ReadsUnary, ReadsPower, ReadsAtom, expr-Reads,
  no_sums-Reads, plus-Reads, minus-Reads, term-Reads, no_products-Reads, times-Reads, over-Reads,
  positive-Reads, negative-Reads, power-Reads, base-Reads, raised-Reads, atom-Reads,
  parse_expr-skip_space,
}

module _ (M : Floats) where
  open M use {Float}

  print-Reads : (e : Expr) → ReadsExpr M e
  print-Reads e =
      elim e
        as (ReadsExpr M) (ReadsSums M) (ReadsTerm M) (ReadsProducts M) (ReadsUnary M) (ReadsPower
          M) (ReadsAtom M) [
            | expr (t → ht) (ss → hs) ↦ expr-Reads M t ss ht hs
            | no_sums ↦ no_sums-Reads M
            | plus n (t → ht) (ss → hs) ↦ plus-Reads M n t ss ht hs
            | minus n (t → ht) (ss → hs) ↦ minus-Reads M n t ss ht hs
            | term (u → hu) (ps → hp) ↦ term-Reads M u ps hu hp
            | no_products ↦ no_products-Reads M
            | times n (u → hu) (ps → hp) ↦ times-Reads M n u ps hu hp
            | over n (u → hu) (ps → hp) ↦ over-Reads M n u ps hu hp
            | positive n (u → hu) ↦ positive-Reads M n u hu
            | negative n (u → hu) ↦ negative-Reads M n u hu
            | power (p → hp) ↦ power-Reads M p hp
            | base (a → ha) ↦ base-Reads M a ha
            | raised (a → ha) n (u → hu) ↦ raised-Reads M a n u ha hu
            | number n d ds h ↦ atom-Reads M _ (λ f s k. number_lem M (parse_expr M f) n d ds h s k)
            | call n c cs h k m (x → hx) l ↦
                atom-Reads M _ (λ f s a. call_lem M (parse_expr M f) n c cs h k m x l s (hx f))
            | group n (x → hx) l ↦
                atom-Reads M _ (λ f s a. group_atom_lem M (parse_expr M f) n x l s (hx f))
          ]

  and_then-whole_input :
      (y : Calculation Float) (n : ℕ)
      → and_then (left y (skip_space (blanks n []))) (whole_input M) ≡ y
  unfolding whole_input skip_space
  and_then-whole_input (value v) n = rw (skip_space-blanks n []) refl
  and_then-whole_input (fails c) n = refl
  and_then-whole_input out_of_fuel n = refl

  Agrees-whole_input :
      {x : Calculation (Float × Text)} (y : Calculation Float) (n : ℕ)
      → Agrees x (left y (skip_space (blanks n [])))
      → and_then x (whole_input M) ≢ out_of_fuel
      → and_then x (whole_input M) ≡ y
  Agrees-whole_input y n (ran_out e) h = absurd (h (rw e refl))
  Agrees-whole_input y n (same e) h =
      ap (λ z. and_then z (whole_input M)) e ∙ and_then-whole_input y n

  -- The calculator evaluates the text of a tree of its grammar, with blanks before its tokens and at
  -- the end, to what the tree stands for: sums and products are grouped to the left and powers to the
  -- right, a sign applies to the power after it, the operands are computed from left to right,
  -- and the first of their errors is the error of the whole.
  pub evaluate-print : (e : Expr) (n : ℕ) → evaluate M (print e (blanks n [])) ≡ meaning M e
  unfolding evaluate
  evaluate-print e n =
      let text = print e (blanks n []) in
      let f = 8 * length (skip_space text) + 8 in
      Agrees-whole_input (meaning M e) n
        (Agrees-at (parse_expr-skip_space M f text)
          (print-Reads e f (blanks n []) (end-AfterExpr n)))
        (evaluate_total M text)
