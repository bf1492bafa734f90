-- ===== src/Tests/Tools.antt =====
-- The calculator at a concrete input, with natural numbers for its numbers.
use souz_go.Prelude.{
  ℕ, zero, suc, ◌+◌, ◌-◌, ◌*◌, ◌/◌, ◌==◌, ◌≡◌, ◌≢◌, refl, true, false, [], ◌∷◌, Text, some, codes,
}
use souz_go.Tools.Calculator.{Floats, value, out_of_fuel, evaluate, is_number_byte}
use souz_go.Tools.Calculator.Grammar.{
  all_of, Expr, expr, no_sums, plus, term, no_products, times, power, base, raised, number, group,
  blanks, print, meaning,
}
use souz_go.Tools.Calculator.Fuel.{evaluate_total}
use souz_go.Tools.Calculator.Evaluation.{evaluate-print}

unfoldable decimal : ℕ → Text → ℕ
decimal n [] = n
decimal n (d ∷ ds) = decimal (n * 10 + d - 48) ds

unfoldable to_the : ℕ → ℕ → ℕ
to_the b zero = 1
to_the b (suc e) = b * to_the b e

abbrev naturals : Floats
naturals = record {
  Float = ℕ;
  add = λ a b. a + b;
  sub = λ a b. a - b;
  mul = λ a b. a * b;
  div = λ a b. a / b;
  neg = λ a. 0 - a;
  is_zero = λ a. a == 0;
  is_negative = λ a. false;
  pow = to_the;
  sqrt = λ a. a;
  sin_degrees = λ a. a;
  cos_degrees = λ a. a;
  tan_degrees = λ a. a;
  parse_float = λ s. some (decimal 0 s);
  is_whole = λ a. true;
  format_f = λ a. [];
  format_g = λ a. [];
}

-- 2 * ( 3+ 1)^2
abbrev sample : Expr
unfolding all_of is_number_byte
sample =
    expr
      (term (power (base (number 0 50 [] refl))) (
        times 1
          (power (
            raised
              (group 1
                (expr (term (power (base (number 1 51 [] refl))) no_products)
                  (plus 0 (term (power (base (number 1 49 [] refl))) no_products) no_sums))
                0)
              0 (power (base (number 0 50 [] refl)))))
          no_products))
      no_sums

evaluate-print_example : evaluate naturals (codes "2 * ( 3+ 1)^2 ") ≡ value 32
unfolding print blanks meaning to_the decimal all_of is_number_byte
evaluate-print_example = evaluate-print naturals sample 1

evaluate_total_example : evaluate naturals (codes "2 * (3 + ") ≢ out_of_fuel
evaluate_total_example = evaluate_total naturals (codes "2 * (3 + ")
