-- ===== src/Tools/Calculator.antt =====
-- pkg/tools/math/math.go. The arithmetic of float64 and the functions of the packages math and
-- strconv are the operations of `Floats`. The parser's position is the text that is left; the
-- positions in its errors are not modelled. Every call costs a unit of fuel.
pub mod Fuel
pub mod Grammar
pub mod Scanning
pub mod Reading
pub mod Levels
pub mod Evaluation
use souz_go.Prelude.{
  ℕ, zero, suc, ◌+◌, ◌*◌, ◌==◌, ◌&&◌, ◌||◌, Bool, true, false, List, [], ◌∷◌, Text, Error, Result,
  Option, none, some, Dict, lookup, codes, text_eq, leb, length, if◌then◌else◌,
}

pub record Floats : Type 1 where
  pub Float : Type 0
  pub add : Float → Float → Float
  pub sub : Float → Float → Float
  pub mul : Float → Float → Float
  pub div : Float → Float → Float
  pub neg : Float → Float
  -- v == 0 and v < 0
  pub is_zero : Float → Bool
  pub is_negative : Float → Bool
  -- math.Pow, math.Sqrt, and math.Sin, math.Cos and math.Tan of an angle in degrees
  pub pow : Float → Float → Float
  pub sqrt : Float → Float
  pub sin_degrees : Float → Float
  pub cos_degrees : Float → Float
  pub tan_degrees : Float → Float
  -- strconv.ParseFloat
  pub parse_float : Text → Option Float
  -- v == math.Trunc(v) && !math.IsInf(v, 0), and strconv.FormatFloat with 'f' and with 'g'
  pub is_whole : Float → Bool
  pub format_f : Float → Text
  pub format_g : Float → Text

pub data CalcError : Type 0 where
  unexpected_end expected_close expected_open division_by_zero sqrt_of_negative : CalcError
  unexpected_character : ℕ → CalcError
  invalid_number unknown_function : Text → CalcError

-- `out_of_fuel` has no counterpart in the program.
pub data Calculation (A : Type 0) : Type 0 where
  value : A → Calculation A
  fails : CalcError → Calculation A
  out_of_fuel : Calculation A

abbrev pub and_then : {A B : Type 0} → Calculation A → (A → Calculation B) → Calculation B
and_then (value a) f = f a
and_then (fails e) f = fails e
and_then out_of_fuel f = out_of_fuel

unfoldable pub skip_space : Text → Text
skip_space [] = []
skip_space (c ∷ s) = let rest = skip_space s in if c == 32 || c == 9 then rest else c ∷ s

-- 0 at the end of the input
abbrev pub peek : Text → ℕ
peek [] = 0
peek (c ∷ s) = c

abbrev pub tail : Text → Text
tail [] = []
tail (c ∷ s) = s

unfoldable pub is_number_byte : ℕ → Bool
is_number_byte c = (leb b'0' c && leb c b'9') || c == b'.'

unfoldable pub is_ident_start : ℕ → Bool
is_ident_start c = (leb b'a' c && leb c b'z') || (leb b'A' c && leb c b'Z')

unfoldable pub is_ident_part : ℕ → Bool
unfolding is_ident_start
is_ident_part c = is_ident_start c || (leb b'0' c && leb c b'9')

-- The longest start of bytes that pass, and the rest.
unfoldable pub span : (ℕ → Bool) → Text → Text × Text
span p [] = ([], [])
span p (c ∷ s) = let (taken, rest) = span p s in if p c then (c ∷ taken, rest) else ([], c ∷ s)

-- strings.ToLower on letters and digits of ASCII
unfoldable pub to_lower : Text → Text
to_lower [] = []
to_lower (c ∷ s) = (if leb b'A' c && leb c b'Z' then c + 32 else c) ∷ to_lower s

module _ (M : Floats) where
  open M use {Float}

  unfoldable pub parse_number : Text → Calculation (Float × Text)
  unfolding span is_number_byte
  parse_number s =
      let (digits, rest) = span is_number_byte s in
      elim (M.parse_float digits) [
        | none ↦ fails (invalid_number digits)
        | some v ↦ value (v, rest)
      ]

  -- The switch at the end of parseFunctionCall.
  unfoldable pub apply_function : Text → Float → Calculation Float
  apply_function name arg =
      if text_eq name (codes "sqrt")
      then (if M.is_negative arg then fails sqrt_of_negative else value (M.sqrt arg))
      else if text_eq name (codes "sin")
      then value (M.sin_degrees arg)
      else if text_eq name (codes "cos")
      then value (M.cos_degrees arg)
      else if text_eq name (codes "tan")
      then value (M.tan_degrees arg)
      else fails (unknown_function name)

  -- v /= rhs
  unfoldable pub divided : Float → Float → Calculation Float
  divided v rhs = if M.is_zero rhs then fails division_by_zero else value (M.div v rhs)

  -- The closing parenthesis after an expression in parentheses.
  unfoldable pub close_group : Float × Text → Calculation (Float × Text)
  unfolding skip_space
  close_group (v, r) =
      let t = skip_space r in if peek t == b')' then value (v, tail t) else fails expected_close

  -- parseFunctionCall, with the call of parseExpr that it makes.
  unfoldable pub function_call :
      (Text → Calculation (Float × Text)) → Text → Calculation (Float × Text)
  unfolding span is_ident_part skip_space to_lower close_group apply_function
  function_call expr s =
      let (name, rest) = span is_ident_part s in
      let t = skip_space rest in
      elim (peek t == b'(') [
        | false ↦ fails expected_open
        | true ↦
            and_then (and_then (expr (tail t)) close_group)
              (λ (arg, r). and_then (apply_function (to_lower name) arg) (λ v. value (v, r)))
      ]

  -- parseAtom, with the call of parseExpr that it makes.
  unfoldable pub atom : (Text → Calculation (Float × Text)) → Text → Calculation (Float × Text)
  unfolding is_number_byte is_ident_start close_group parse_number function_call
  atom expr [] = fails unexpected_end
  atom expr (c ∷ s) = elim (c == b'(') [
    | true ↦ and_then (expr s) close_group
    | false ↦ elim (is_number_byte c) [
      | true ↦ parse_number (c ∷ s)
      | false ↦ elim (is_ident_start c) [
        | true ↦ function_call expr (c ∷ s)
        | false ↦ fails (unexpected_character c)
      ]
    ]
  ]

  unfoldable mutual
    pub parse_expr : ℕ → Text → Calculation (Float × Text)
    parse_expr zero s = out_of_fuel
    parse_expr (suc f) s = and_then (parse_term f s) (λ (v, r). expr_loop f v r)

    pub expr_loop : ℕ → Float → Text → Calculation (Float × Text)
    expr_loop zero v s = out_of_fuel
    expr_loop (suc f) v s =
        let t = skip_space s in
        elim (peek t == b'+') [
          | true ↦ and_then (parse_term f (tail t)) (λ (rhs, r). expr_loop f (M.add v rhs) r)
          | false ↦ elim (peek t == b'-') [
            | true ↦ and_then (parse_term f (tail t)) (λ (rhs, r). expr_loop f (M.sub v rhs) r)
            | false ↦ value (v, t)
          ]
        ]

    pub parse_term : ℕ → Text → Calculation (Float × Text)
    parse_term zero s = out_of_fuel
    parse_term (suc f) s = and_then (parse_unary f s) (λ (v, r). term_loop f v r)

    pub term_loop : ℕ → Float → Text → Calculation (Float × Text)
    term_loop zero v s = out_of_fuel
    term_loop (suc f) v s =
        let t = skip_space s in
        elim (peek t == b'*') [
          | true ↦ and_then (parse_unary f (tail t)) (λ (rhs, r). term_loop f (M.mul v rhs) r)
          | false ↦ elim (peek t == b'/') [
            | true ↦
                and_then (parse_unary f (tail t))
                  (λ (rhs, r). and_then (divided v rhs) (λ q. term_loop f q r))
            | false ↦ value (v, t)
          ]
        ]

    pub parse_unary : ℕ → Text → Calculation (Float × Text)
    parse_unary zero s = out_of_fuel
    parse_unary (suc f) s =
        let t = skip_space s in
        elim (peek t == b'+') [
          | true ↦ parse_unary f (tail t)
          | false ↦ elim (peek t == b'-') [
            | true ↦ and_then (parse_unary f (tail t)) (λ (v, r). value (M.neg v, r))
            | false ↦ parse_power f t
          ]
        ]

    pub parse_power : ℕ → Text → Calculation (Float × Text)
    parse_power zero s = out_of_fuel
    parse_power (suc f) s = and_then (parse_atom f s) (λ (base, r).
        let t = skip_space r in
        elim (peek t == b'^') [
          | true ↦ and_then (parse_unary f (tail t)) (λ (e, q). value (M.pow base e, q))
          | false ↦ value (base, t)
        ])

    pub parse_atom : ℕ → Text → Calculation (Float × Text)
    parse_atom zero s = out_of_fuel
    parse_atom (suc f) s = atom (parse_expr f) (skip_space s)

  -- What Evaluate makes of the value and the text that is left.
  unfoldable pub whole_input : Float × Text → Calculation Float
  unfolding skip_space
  whole_input (v, r) = elim (skip_space r) [ [] ↦ value v | c ∷ s ↦ fails (unexpected_character c) ]

  -- Evaluate, with the fuel that a text of its length can use.
  unfoldable pub evaluate : Text → Calculation Float
  unfolding parse_expr whole_input skip_space
  evaluate input =
      and_then (parse_expr (8 * length (skip_space input) + 8) (skip_space input)) whole_input

  unfoldable pub format_result : Float → Text
  format_result v = if M.is_whole v then M.format_f v else M.format_g v

  -- Execute; `unmarshal` is json.Unmarshal into a string.
  unfoldable pub execute_calculator :
      (Text → Result Error Text) → Dict Text → Result Error (Calculation Text)
  unfolding lookup evaluate format_result
  execute_calculator unmarshal args =
      let expression : Result Error Text = elim (lookup (codes "expression") args) [
        | none ↦ Result.ok []
        | some raw ↦ unmarshal raw
      ] in
      elim expression [
        | Result.err e ↦ Result.err e
        | Result.ok s ↦ Result.ok (and_then (evaluate s) (λ v. value (format_result v)))
      ]
