-- ===== src/Tools/Calculator/Reading.antt =====
-- The operands of the calculator's grammar, as the parser reads them.
use souz_go.Prelude.{
  ℕ, zero, suc, ◌==◌, ◌≡◌, refl, ap, ◌∙◌, true, false, ◌∷◌, ◌++◌, Text, Option, none, some,
}
use souz_go.Tools.Calculator.{
  Floats, CalcError, Calculation, value, fails, out_of_fuel, and_then, skip_space, peek, tail,
  is_number_byte, is_ident_part, is_ident_start, parse_number, apply_function, close_group,
  function_call, atom, to_lower,
}
use souz_go.Tools.Calculator.Grammar.{
  Expr, Atom, number, call, group, blanks, print, print_atom, all_of, literal, meaning,
  meaning_atom,
}
use souz_go.Tools.Calculator.Scanning.{
  skip_space-shown, span-append, AfterExpr, close-AfterExpr, number_byte-Shows, ident_start-Shows,
  ident_start_no_number, ident_start_no_group, number_byte_no_group, head_of_all,
}

-- A call that runs out of fuel, or gives this.
pub data Agrees {A : Type 0} (x y : Calculation A) : Type 0 where
  ran_out : x ≡ out_of_fuel → Agrees x y
  same : x ≡ y → Agrees x y

pub Agrees-at : {A : Type 0} {x x' y : Calculation A} → x ≡ x' → Agrees x' y → Agrees x y
Agrees-at e (ran_out h) = ran_out (e ∙ h)
Agrees-at e (same h) = same (e ∙ h)

bind_value : {A : Type 0} (x : Calculation A) → and_then x value ≡ x
bind_value (value a) = refl
bind_value (fails e) = refl
bind_value out_of_fuel = refl

module _ {F : Type 0} where
  -- A value, and the text that is left after it.
  abbrev pub left : Calculation F → Text → Calculation (F × Text)
  left y s = and_then y (λ v. value (v, s))

  pub Agrees-then :
      {x : Calculation (F × Text)} (y : Calculation F) {s : Text} (s' : Text)
      (k : F × Text → Calculation (F × Text)) (g : F → Calculation F)
      → Agrees x (left y s)
      → ((v : F) → Agrees (k (v, s)) (left (g v) s'))
      → Agrees (and_then x k) (left (and_then y g) s')
  Agrees-then y s' k g (ran_out e) h = ran_out (rw e refl)
  Agrees-then (value v) s' k g (same e) h = rw e (h v)
  Agrees-then (fails c) s' k g (same e) h = same (rw e refl)
  Agrees-then out_of_fuel s' k g (same e) h = same (rw e refl)

  pub Agrees-plain :
      (y : Calculation F) (s : Text) (k : F → Calculation (F × Text)) (g : F → Calculation F)
      → ((v : F) → Agrees (k v) (left (g v) s))
      → Agrees (and_then y k) (left (and_then y g) s)
  Agrees-plain (value v) s k g h = h v
  Agrees-plain (fails c) s k g h = same refl
  Agrees-plain out_of_fuel s k g h = same refl

  pub Agrees-closing :
      {x : Calculation (F × Text)} (y : Calculation F) {s : Text} (s' : Text)
      (k : F × Text → Calculation (F × Text))
      → Agrees x (left y s)
      → ((v : F) → k (v, s) ≡ value (v, s'))
      → Agrees (and_then x k) (left y s')
  Agrees-closing y s' k (ran_out e) h = ran_out (rw e refl)
  Agrees-closing (value v) s' k (same e) h = same (rw e (h v))
  Agrees-closing (fails c) s' k (same e) h = same (rw e refl)
  Agrees-closing out_of_fuel s' k (same e) h = same (rw e refl)

module _ (M : Floats) where
  open M use {Float}

  close_group-blanks :
      (v : Float) (n : ℕ) (s : Text)
      → close_group M (v, skip_space (blanks n (b')' ∷ s))) ≡ value (v, s)
  unfolding close_group skip_space
  close_group-blanks v n s = rw (skip_space-shown n b')' s refl) refl

  atom_number :
      (p : Text → Calculation (Float × Text)) (d : ℕ) (s : Text)
      → is_number_byte d ≡ true
      → atom M p (d ∷ s) ≡ parse_number M (d ∷ s)
  unfolding atom
  atom_number p d s h = rw (number_byte_no_group d h, h, atom) refl

  atom_call :
      (p : Text → Calculation (Float × Text)) (c : ℕ) (s : Text)
      → is_ident_start c ≡ true
      → atom M p (c ∷ s) ≡ function_call M p (c ∷ s)
  unfolding atom
  atom_call p c s h = rw (ident_start_no_group c h, ident_start_no_number c h, h, atom) refl

  parse_number_lem :
      (w s : Text)
      → all_of is_number_byte w ≡ true
      → is_number_byte (peek s) ≡ false
      → parse_number M (w ++ s) ≡ left (literal M w) s
  unfolding parse_number literal
  parse_number_lem w s h k =
      ap
        (λ (digits, rest). elim (M.parse_float digits) [
          | none ↦ fails (CalcError.invalid_number digits)
          | some v ↦ value (v, rest)
        ])
        (span-append is_number_byte w s h k)
      ∙ go (M.parse_float w)
    where
      go :
          (r : Option Float)
          → (elim r [ none ↦ fails (CalcError.invalid_number w) | some v ↦ value (v, s) ])
            ≡ left (elim r [ none ↦ fails (CalcError.invalid_number w) | some v ↦ value v ]) s
      go none = refl
      go (some v) = refl

  function_call_lem :
      (p : Text → Calculation (Float × Text)) (w s : Text) (m : ℕ)
      → all_of is_ident_part w ≡ true
      → function_call M p (w ++ blanks m (b'(' ∷ s))
        ≡ and_then
            (and_then (p s) (close_group M))
            (λ (arg, r). and_then (apply_function M (to_lower w) arg) (λ v. value (v, r)))
  unfolding function_call is_ident_part is_ident_start blanks
  function_call_lem p w s m h =
      ap (λ (name, rest). after name (skip_space rest))
        (span-append is_ident_part w (blanks m (b'(' ∷ s)) h (no_ident m))
      ∙ ap (after w) (skip_space-shown m b'(' s refl)
    where
      after : Text → Text → Calculation (Float × Text)
      after name t = elim (peek t == b'(') [
        | false ↦ fails CalcError.expected_open
        | true ↦
            and_then (and_then (p (tail t)) (close_group M))
              (λ (arg, r). and_then (apply_function M (to_lower name) arg) (λ v. value (v, r)))
      ]

      no_ident : (n : ℕ) → is_ident_part (peek (blanks n (b'(' ∷ s))) ≡ false
      no_ident zero = refl
      no_ident (suc n) = refl

  module _ (p : Text → Calculation (Float × Text)) where
    -- An operand in parentheses, with what its text is read as.
    group_lem :
        (e : Expr) (l : ℕ) (s : Text)
        → ((r : Text) → AfterExpr r → Agrees (p (print e r)) (left (meaning M e) (skip_space r)))
        → Agrees
            (and_then (p (print e (blanks l (b')' ∷ s)))) (close_group M))
            (left (meaning M e) s)
    group_lem e l s h =
        Agrees-closing (meaning M e) s (close_group M)
          (h (blanks l (b')' ∷ s)) (close-AfterExpr l s)) (λ v. close_group-blanks v l s)

    -- The atom reads off what the tree's text begins with.
    abbrev pub ReadsAtomThen : Atom → Text → Type 0
    ReadsAtomThen a s = Agrees (atom M p (skip_space (print_atom a s))) (left (meaning_atom M a) s)

    abbrev pub ReadsExprThen : Expr → Type 0
    ReadsExprThen e =
        (r : Text) → AfterExpr r → Agrees (p (print e r)) (left (meaning M e) (skip_space r))

    pub number_lem :
        (n d : ℕ) (ds : Text) (h : all_of is_number_byte (d ∷ ds) ≡ true) (s : Text)
        → is_number_byte (peek s) ≡ false
        → ReadsAtomThen (number n d ds h) s
    unfolding print_atom meaning_atom
    number_lem n d ds h s k =
        let byte = head_of_all is_number_byte d ds h in
        same (
          ap (atom M p) (skip_space-shown n d (ds ++ s) (number_byte-Shows d byte))
          ∙ atom_number p d (ds ++ s) byte
          ∙ parse_number_lem (d ∷ ds) s h k)

    pub call_lem :
        (n c : ℕ) (cs : Text) (h : is_ident_start c ≡ true)
        (k : all_of is_ident_part (c ∷ cs) ≡ true) (m : ℕ) (e : Expr) (l : ℕ) (s : Text)
        → ReadsExprThen e
        → ReadsAtomThen (call n c cs h k m e l) s
    unfolding print_atom meaning_atom
    call_lem n c cs h k m e l s ih =
        Agrees-at
          (ap (atom M p) (skip_space-shown n c _ (ident_start-Shows c h))
            ∙ atom_call p c _ h
            ∙ function_call_lem p (c ∷ cs) _ m k)
          (Agrees-then (meaning M e) s _ (apply_function M (to_lower (c ∷ cs))) (group_lem e l s ih)
            (λ v. same refl))

    pub group_atom_lem :
        (n : ℕ) (e : Expr) (l : ℕ) (s : Text) → ReadsExprThen e → ReadsAtomThen (group n e l) s
    unfolding print_atom meaning_atom
    group_atom_lem n e l s ih =
        Agrees-at (ap (atom M p) (skip_space-shown n b'(' _ refl))
          (unfold atom in group_lem e l s ih)
