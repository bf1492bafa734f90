-- ===== src/Tools/Calculator/Fuel.antt =====
-- The parser of the calculator terminates: its fuel is enough for every text.
use souz_go.Prelude.{
  ℕ, zero, suc, ◌+◌, ◌*◌, ◌==◌, ◌≤◌, ◌<◌, ◌≡◌, ◌≢◌, refl, Bool, true, false, [], ◌∷◌, Text, Option,
  none, some, length, arith, if◌then◌else◌,
}
use souz_go.Tools.Calculator.{
  Floats, CalcError, Calculation, value, fails, out_of_fuel, and_then, skip_space, peek, tail, span,
  is_number_byte, is_ident_part, is_ident_start, parse_number, apply_function, divided, close_group,
  function_call, atom, parse_expr, expr_loop, parse_term, term_loop, parse_unary, parse_power,
  parse_atom, whole_input, evaluate, to_lower,
}

pub length-skip_space : (s : Text) → length (skip_space s) ≤ length s
unfolding skip_space
length-skip_space [] = omega arith
length-skip_space (c ∷ s) = ground (arith, length-skip_space s)

length-span : (p : ℕ → Bool) (s : Text) → length (span p s).1 ≤ length s
unfolding span
length-span p [] = omega arith
length-span p (c ∷ s) = ground (arith, length-span p s)

length-tail : (c : ℕ) (t : Text) → 0 < c → (peek t == c) ≡ true → suc (length (tail t)) ≤ length t
length-tail c [] h e = ground arith
length-tail c (d ∷ t) h e = omega arith

length-tail_le : (t : Text) → length (tail t) ≤ length t
length-tail_le [] = omega arith
length-tail_le (c ∷ t) = omega arith

module _ (M : Floats) where
  open M use {Float}

  -- The call kept within its fuel, and left at most `n` bytes.
  data Fits (n : ℕ) : Calculation (Float × Text) → Type 0 where
    fits : {v : Float} {r : Text} → length r ≤ n → Fits n (value (v, r))
    failed : {e : CalcError} → Fits n (fails e)

  Fits-and_then :
      (n m : ℕ) {x : Calculation (Float × Text)} (k : Float × Text → Calculation (Float × Text))
      → Fits n x
      → ((v : Float) (r : Text) → length r ≤ n → Fits m (k (v, r)))
      → Fits m (and_then x k)
  Fits-and_then n m k (fits {v = v} {r = r} h) then_ = then_ v r h
  Fits-and_then n m k failed then_ = failed

  Fits-if :
      (n : ℕ) (b : Bool) {x y : Calculation (Float × Text)}
      → (b ≡ true → Fits n x)
      → (b ≡ false → Fits n y)
      → Fits n (elim b [ true ↦ x | false ↦ y ])
  Fits-if n true hx hy = hx refl
  Fits-if n false hx hy = hy refl

  close_group-Fits : (n : ℕ) (v : Float) (r : Text) → length r ≤ n → Fits n (close_group M (v, r))
  unfolding close_group
  close_group-Fits n v r h = go (peek (skip_space r) == b')')
    where
      go :
          (b : Bool)
          → Fits n (if b then value (v, tail (skip_space r)) else fails CalcError.expected_close)
      go true = fits (omega (arith, h, length-skip_space r, length-tail_le (skip_space r)))
      go false = failed

  parse_number-Fits : (s : Text) → Fits (length s) (parse_number M s)
  unfolding parse_number
  parse_number-Fits s = go (M.parse_float (span is_number_byte s).0)
    where
      go :
          (o : Option Float)
          → Fits (length s) (elim o [
            | none ↦ fails (CalcError.invalid_number (span is_number_byte s).0)
            | some v ↦ value (v, (span is_number_byte s).1)
          ])
      go none = failed
      go (some v) = fits (length-span is_number_byte s)

  applied-Fits :
      (n : ℕ) (o : Calculation Float) (r : Text)
      → o ≢ out_of_fuel
      → length r ≤ n
      → Fits n (and_then o (λ v. value (v, r)))
  applied-Fits n (value v) r h l = fits l
  applied-Fits n (fails e) r h l = failed
  applied-Fits n out_of_fuel r h l = absurd (h refl)

  quotient-Fits :
      (n : ℕ) (o : Calculation Float)
      → o ≢ out_of_fuel
      → (k : Float → Calculation (Float × Text)) → ((q : Float) → Fits n (k q))
      → Fits n (and_then o k)
  quotient-Fits n (value v) h k ih = ih v
  quotient-Fits n (fails e) h k ih = failed
  quotient-Fits n out_of_fuel h k ih = absurd (h refl)

  apply_function-ne : (name : Text) (arg : Float) → apply_function M name arg ≢ out_of_fuel
  unfolding apply_function
  apply_function-ne name arg = λ e. ground (arith, e)

  divided-ne : (v rhs : Float) → divided M v rhs ≢ out_of_fuel
  unfolding divided
  divided-ne v rhs = λ e. ground (arith, e)

  -- What the callee does on every text shorter than `n`.
  function_call-Fits :
      (n : ℕ) (expr : Text → Calculation (Float × Text)) (s : Text)
      → length s ≤ n
      → ((t : Text) → length t < n → Fits (length t) (expr t))
      → Fits n (function_call M expr s)
  unfolding function_call
  function_call-Fits n expr s h k =
      let t = skip_space (span is_ident_part s).1 in
      let short : length t ≤ n =
        omega (arith, length-skip_space (span is_ident_part s).1, length-span is_ident_part s) in
      Fits-if n (peek t == b'(')
        (λ e.
          let strict : length (tail t) < n = omega (arith, length-tail b'(' t (omega arith) e) in
          Fits-and_then (length (tail t)) n _
            (Fits-and_then (length (tail t)) (length (tail t)) _ (k (tail t) strict)
              (λ v r l. close_group-Fits (length (tail t)) v r l))
            (λ v r l.
              applied-Fits n _ r (apply_function-ne (to_lower (span is_ident_part s).0) v)
                (omega arith)))
        (λ e. failed)

  atom-Fits :
      (expr : Text → Calculation (Float × Text)) (s : Text)
      → ((t : Text) → length t < length s → Fits (length t) (expr t))
      → Fits (length s) (atom M expr s)
  unfolding atom
  atom-Fits expr [] k = failed
  atom-Fits expr (c ∷ s) k =
      Fits-if _ (c == b'(')
        (λ e.
          Fits-and_then (length s) _ _ (k s (omega arith))
            (λ v r l. close_group-Fits _ v r (omega arith)))
        (λ e.
          Fits-if _ (is_number_byte c) (λ e. parse_number-Fits (c ∷ s))
            (λ e.
              Fits-if _ (is_ident_start c) (λ e. function_call-Fits _ expr (c ∷ s) (omega arith) k)
                (λ e. failed)))

  Fits-le : (m n : ℕ) {x : Calculation (Float × Text)} → m ≤ n → Fits m x → Fits n x
  Fits-le m n h (fits l) = fits (omega arith)
  Fits-le m n h failed = failed

  -- The text after a byte that is skipped to and taken is shorter.
  after :
      (c : ℕ) (s : Text)
      → 0 < c
      → (peek (skip_space s) == c) ≡ true
      → suc (length (tail (skip_space s))) ≤ length s
  after c s h e = omega (arith, length-skip_space s, length-tail c (skip_space s) h e)

  mutual
    unfolding parse_expr expr_loop parse_term term_loop parse_unary parse_power parse_atom

    expr-Fits : (f : ℕ) (s : Text) → 8 * length s + 5 ≤ f → Fits (length s) (parse_expr M f s)
    expr-Fits zero s h = absurd (omega (arith, h))
    expr-Fits (suc f) s h =
        Fits-and_then (length s) _ _ (term-Fits f s (omega arith))
          (λ v r l. Fits-le (length r) _ l (expr_loop-Fits f v r (omega arith)))

    expr_loop-Fits :
        (f : ℕ) (v : Float) (s : Text) → 8 * length s + 1 ≤ f → Fits (length s) (expr_loop M f v s)
    expr_loop-Fits zero v s h = absurd (omega (arith, h))
    expr_loop-Fits (suc f) v s h =
        let t = tail (skip_space s) in
        Fits-if _ _
          (λ e.
            let less = after b'+' s (omega arith) e in
            Fits-and_then (length t) _ _ (term-Fits f t (omega arith)) (λ rhs r l.
              Fits-le (length r) _ (omega arith) (expr_loop-Fits f (M.add v rhs) r (omega arith))))
          (λ e.
            Fits-if _ _
              (λ e.
                let less = after b'-' s (omega arith) e in
                Fits-and_then (length t) _ _ (term-Fits f t (omega arith)) (λ rhs r l.
                  Fits-le (length r) _ (omega arith)
                    (expr_loop-Fits f (M.sub v rhs) r (omega arith))))
              (λ e. fits (length-skip_space s)))

    term-Fits : (f : ℕ) (s : Text) → 8 * length s + 4 ≤ f → Fits (length s) (parse_term M f s)
    term-Fits zero s h = absurd (omega (arith, h))
    term-Fits (suc f) s h =
        Fits-and_then (length s) _ _ (unary-Fits f s (omega arith))
          (λ v r l. Fits-le (length r) _ l (term_loop-Fits f v r (omega arith)))

    term_loop-Fits :
        (f : ℕ) (v : Float) (s : Text) → 8 * length s + 1 ≤ f → Fits (length s) (term_loop M f v s)
    term_loop-Fits zero v s h = absurd (omega (arith, h))
    term_loop-Fits (suc f) v s h =
        let t = tail (skip_space s) in
        Fits-if _ _
          (λ e.
            let less = after b'*' s (omega arith) e in
            Fits-and_then (length t) _ _ (unary-Fits f t (omega arith)) (λ rhs r l.
              Fits-le (length r) _ (omega arith) (term_loop-Fits f (M.mul v rhs) r (omega arith))))
          (λ e.
            Fits-if _ _
              (λ e.
                let less = after b'/' s (omega arith) e in
                Fits-and_then (length t) _ _ (unary-Fits f t (omega arith)) (λ rhs r l.
                  quotient-Fits (length s) (divided M v rhs) (divided-ne v rhs)
                    (λ q. term_loop M f q r)
                    (λ q. Fits-le (length r) _ (omega arith) (term_loop-Fits f q r (omega arith)))))
              (λ e. fits (length-skip_space s)))

    unary-Fits : (f : ℕ) (s : Text) → 8 * length s + 3 ≤ f → Fits (length s) (parse_unary M f s)
    unary-Fits zero s h = absurd (omega (arith, h))
    unary-Fits (suc f) s h =
        let t = tail (skip_space s) in
        Fits-if _ _
          (λ e.
            let less = after b'+' s (omega arith) e in
            Fits-le (length t) _ (omega arith) (unary-Fits f t (omega arith)))
          (λ e.
            Fits-if _ _
              (λ e.
                let less = after b'-' s (omega arith) e in
                Fits-and_then (length t) _ _ (unary-Fits f t (omega arith))
                  (λ v r l. fits (omega arith)))
              (λ e.
                let less = length-skip_space s in
                Fits-le (length (skip_space s)) _ less (power-Fits f (skip_space s) (omega arith))))

    power-Fits : (f : ℕ) (s : Text) → 8 * length s + 2 ≤ f → Fits (length s) (parse_power M f s)
    power-Fits zero s h = absurd (omega (arith, h))
    power-Fits (suc f) s h =
        Fits-and_then (length s) _ _ (term_atom-Fits f s (omega arith)) (λ base r l.
          Fits-if _ _
            (λ e.
              let less = after b'^' r (omega arith) e in
              Fits-and_then (length (tail (skip_space r))) _ _
                (unary-Fits f (tail (skip_space r)) (omega arith)) (λ v q k. fits (omega arith)))
            (λ e. fits (omega (arith, length-skip_space r))))

    term_atom-Fits : (f : ℕ) (s : Text) → 8 * length s + 1 ≤ f → Fits (length s) (parse_atom M f s)
    term_atom-Fits zero s h = absurd (omega (arith, h))
    term_atom-Fits (suc f) s h =
        let less = length-skip_space s in
        Fits-le (length (skip_space s)) _ less
          (atom-Fits (parse_expr M f) (skip_space s) (λ t k. expr-Fits f t (omega arith)))

  bind_finish-ne :
      (n : ℕ) (x : Calculation (Float × Text)) → Fits n x → and_then x (whole_input M) ≢ out_of_fuel
  unfolding whole_input
  bind_finish-ne n _ (fits {v = v} {r = r} h) = go (skip_space r)
    where
      go :
          (t : Text)
          → (elim t [ [] ↦ value v | c ∷ s ↦ fails (CalcError.unexpected_character c) ])
            ≢ out_of_fuel
      go [] = λ e. cc
      go (c ∷ s) = λ e. cc
  bind_finish-ne n _ failed = λ e. cc

  -- Evaluate returns for every text, with a value or an error: the parser never runs out of fuel.
  pub evaluate_total : (input : Text) → evaluate M input ≢ out_of_fuel
  unfolding evaluate
  evaluate_total input =
      let s = skip_space input in
      bind_finish-ne (length s) _ (expr-Fits (8 * length s + 8) s (omega arith))
