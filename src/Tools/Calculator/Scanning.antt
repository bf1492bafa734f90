-- ===== src/Tools/Calculator/Scanning.antt =====
-- The text of a tree under the scanner of the calculator.
use souz_go.Prelude.{
  ℕ, zero, suc, ◌==◌, ◌≡◌, refl, Bool, true, false, [], ◌∷◌, ◌++◌, Text, ◌&&◌, ◌||◌, arith,
}
use souz_go.Tools.Calculator.{skip_space, peek, span, is_number_byte, is_ident_start}
use souz_go.Tools.Calculator.Grammar.{
  all_of, blanks, Sums, no_sums, plus, minus, Products, no_products, times, over, Atom, number,
  call, group, Power, base, raised, print_sums, print_products, print_power, print_atom,
}

pub skip_space-skip_space : (s : Text) → skip_space (skip_space s) ≡ skip_space s
unfolding skip_space
skip_space-skip_space [] = refl
skip_space-skip_space (c ∷ s) = ground (arith, skip_space-skip_space s)

pub skip_space-blanks : (n : ℕ) (s : Text) → skip_space (blanks n s) ≡ skip_space s
unfolding skip_space blanks
skip_space-blanks zero s = refl
skip_space-blanks (suc n) s = skip_space-blanks n s

abbrev pub Shows : ℕ → Type 0
Shows c = ((c == 32 || c == 9) ≡ false)

pub skip_space-shown : (n c : ℕ) (s : Text) → Shows c → skip_space (blanks n (c ∷ s)) ≡ c ∷ s
unfolding skip_space
skip_space-shown n c s h = rw (skip_space-blanks n (c ∷ s), h) refl

pub span-append :
    (p : ℕ → Bool) (w s : Text) → all_of p w ≡ true → p (peek s) ≡ false → span p (w ++ s) ≡ (w, s)
unfolding span all_of
span-append p [] [] h k = refl
span-append p [] (c ∷ s) h k = rw k refl
span-append p (c ∷ w) s h k = go (p c) refl h (λ t. span-append p w s t k)
  where
    go :
        (b : Bool)
        → p c ≡ b
        → (b && all_of p w) ≡ true
        → (all_of p w ≡ true → span p (w ++ s) ≡ (w, s))
        → span p ((c ∷ w) ++ s) ≡ (c ∷ w, s)
    go true e t ih = rw (ih t, e) refl
    go false e t ih = absurd (ground (arith, t))

-- The first byte after the blanks, or 0.
abbrev pub next : Text → ℕ
next s = peek (skip_space s)

-- Where an operand ends, a product of them, and a sum of these.
pub record AfterPower (s : Text) : Type 0 where
  pub no_digit : is_number_byte (peek s) ≡ false
  pub no_caret : (next s == b'^') ≡ false

pub record AfterTerm (s : Text) : Type 0 where
  pub operand : AfterPower s
  pub no_star : (next s == b'*') ≡ false
  pub no_slash : (next s == b'/') ≡ false

pub record AfterExpr (s : Text) : Type 0 where
  pub product : AfterTerm s
  pub no_plus : (next s == b'+') ≡ false
  pub no_minus : (next s == b'-') ≡ false

pub blank_no_digit :
    (n c : ℕ) (s : Text)
    → is_number_byte c ≡ false
    → is_number_byte (peek (blanks n (c ∷ s))) ≡ false
unfolding blanks is_number_byte
blank_no_digit zero c s h = h
blank_no_digit (suc n) c s h = refl

shown-AfterPower :
    (n c : ℕ) (s : Text)
    → Shows c
    → is_number_byte c ≡ false
    → (c == b'^') ≡ false
    → AfterPower (blanks n (c ∷ s))
shown-AfterPower n c s h d e = record {
  no_digit = blank_no_digit n c s d;
  no_caret = rw (skip_space-shown n c s h, e) refl;
}

pub print_products-AfterPower :
    (ps : Products) (s : Text) → AfterTerm s → AfterPower (print_products ps s)
unfolding print_products is_number_byte
print_products-AfterPower no_products s h = h.operand
print_products-AfterPower (times n u ps) s h = shown-AfterPower n b'*' _ refl refl refl
print_products-AfterPower (over n u ps) s h = shown-AfterPower n b'/' _ refl refl refl

shown-AfterTerm :
    (n c : ℕ) (s : Text)
    → Shows c
    → is_number_byte c ≡ false
    → (c == b'^') ≡ false
    → (c == b'*') ≡ false
    → (c == b'/') ≡ false
    → AfterTerm (blanks n (c ∷ s))
shown-AfterTerm n c s h d e t o = record {
  operand = shown-AfterPower n c s h d e;
  no_star = rw (skip_space-shown n c s h, t) refl;
  no_slash = rw (skip_space-shown n c s h, o) refl;
}

pub print_sums-AfterTerm : (ss : Sums) (s : Text) → AfterExpr s → AfterTerm (print_sums ss s)
unfolding print_sums is_number_byte
print_sums-AfterTerm no_sums s h = h.product
print_sums-AfterTerm (plus n t ss) s h = shown-AfterTerm n b'+' _ refl refl refl refl refl
print_sums-AfterTerm (minus n t ss) s h = shown-AfterTerm n b'-' _ refl refl refl refl refl

pub close-AfterExpr : (n : ℕ) (s : Text) → AfterExpr (blanks n (b')' ∷ s))
unfolding is_number_byte
close-AfterExpr n s = record {
  product = shown-AfterTerm n b')' s refl refl refl refl refl;
  no_plus = rw (skip_space-shown n b')' s refl) refl;
  no_minus = rw (skip_space-shown n b')' s refl) refl;
}

pub end-AfterExpr : (n : ℕ) → AfterExpr (blanks n [])
unfolding is_number_byte skip_space blanks
end-AfterExpr n = record {
  product = record {
    operand = record { no_digit = digit n; no_caret = rw (skip_space-blanks n []) refl };
    no_star = rw (skip_space-blanks n []) refl;
    no_slash = rw (skip_space-blanks n []) refl;
  };
  no_plus = rw (skip_space-blanks n []) refl;
  no_minus = rw (skip_space-blanks n []) refl;
}
  where
    digit : (m : ℕ) → is_number_byte (peek (blanks m [])) ≡ false
    digit zero = refl
    digit (suc m) = refl

-- The classes of bytes do not overlap.
pub number_byte-Shows : (c : ℕ) → is_number_byte c ≡ true → Shows c
unfolding is_number_byte
number_byte-Shows c h = ground arith

pub ident_start-Shows : (c : ℕ) → is_ident_start c ≡ true → Shows c
unfolding is_ident_start
ident_start-Shows c h = ground arith

pub ident_start_no_number : (c : ℕ) → is_ident_start c ≡ true → is_number_byte c ≡ false
unfolding is_ident_start is_number_byte
ident_start_no_number c h = ground arith

pub ident_start_no_group : (c : ℕ) → is_ident_start c ≡ true → (c == b'(') ≡ false
unfolding is_ident_start
ident_start_no_group c h = ground arith

pub number_byte_no_group : (c : ℕ) → is_number_byte c ≡ true → (c == b'(') ≡ false
unfolding is_number_byte
number_byte_no_group c h = ground arith

-- A byte that an operand without a sign begins with.
pub head_of_all : (p : ℕ → Bool) (c : ℕ) (s : Text) → all_of p (c ∷ s) ≡ true → p c ≡ true
unfolding all_of
head_of_all p c s h = ground (arith, h)

pub print_atom_no_sign :
    (a : Atom) (s : Text)
    → ((next (print_atom a s) == b'+') ≡ false) × ((next (print_atom a s) == b'-') ≡ false)
unfolding print_atom is_number_byte is_ident_start
print_atom_no_sign (number n d ds h) s =
    let k = head_of_all is_number_byte d ds h in
    rw (skip_space-shown n d (ds ++ s) (number_byte-Shows d k))
      (ground (arith, k), ground (arith, k))
print_atom_no_sign (call n c cs k h m e l) s =
    rw (skip_space-shown n c _ (ident_start-Shows c k)) (ground (arith, k), ground (arith, k))
print_atom_no_sign (group n e l) s = rw (skip_space-shown n b'(' _ refl) (refl, refl)

pub print_power_no_sign :
    (p : Power) (s : Text)
    → ((next (print_power p s) == b'+') ≡ false) × ((next (print_power p s) == b'-') ≡ false)
unfolding print_power
print_power_no_sign (base a) s = print_atom_no_sign a s
print_power_no_sign (raised a n u) s = print_atom_no_sign a _
