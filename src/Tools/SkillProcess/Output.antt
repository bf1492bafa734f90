-- ===== src/Tools/SkillProcess/Output.antt =====
-- What a process that writes without end leaves in memory.
use mathlib.Core.List.{flatten}
use souz_go.Prelude.{
  ℕ, zero, suc, ◌-◌, ◌≤◌, ◌≡◌, refl, sym, ap, ◌∙◌, Bool, true, false, List, [], ◌∷◌, ◌++◌,
  append_assoc, append-nil, Text, length, take, length-append, arith, ltb, if◌then◌else◌,
}
use souz_go.Tools.SkillProcess.{write, write_all}

module _ {ℓ} {A : Type ℓ} where
  take-append_short :
      (n : ℕ) (xs ys : List A) → length xs ≤ n → take n (xs ++ ys) ≡ xs ++ take (n - length xs) ys
  take-append_short n [] ys h = ap (λ k. take k ys) (omega arith)
  take-append_short zero (x ∷ xs) ys h = absurd (omega (arith, h))
  take-append_short (suc n) (x ∷ xs) ys h =
      ap (◌∷◌ x)
        (take-append_short n xs ys (omega (arith, h)) ∙ ap (λ k. xs ++ take k ys) (omega arith))

  take_all : (n : ℕ) (xs : List A) → length xs ≤ n → take n xs ≡ xs
  take_all zero [] h = refl
  take_all (suc n) [] h = refl
  take_all zero (x ∷ xs) h = absurd (omega (arith, h))
  take_all (suc n) (x ∷ xs) h = ap (◌∷◌ x) (take_all n xs (omega (arith, h)))

  length-take : (n : ℕ) (xs : List A) → length (take n xs) ≤ n
  length-take zero xs = omega arith
  length-take (suc n) [] = omega arith
  length-take (suc n) (x ∷ xs) = omega (arith, length-take n xs)

  take-take_append : (n : ℕ) (xs ys : List A) → take n (take n xs ++ ys) ≡ take n (xs ++ ys)
  take-take_append zero xs ys = refl
  take-take_append (suc n) [] ys = refl
  take-take_append (suc n) (x ∷ xs) ys = ap (◌∷◌ x) (take-take_append n xs ys)

write-take : (max : ℕ) (buf p : Text) → length buf ≤ max → write max buf p ≡ take max (buf ++ p)
unfolding write
write-take max buf p h =
    by_room (ltb 0 (max - length buf)) (ltb (max - length buf) (length p)) refl refl
  where
    by_room :
        (a b : Bool)
        → ltb 0 (max - length buf) ≡ a
        → ltb (max - length buf) (length p) ≡ b
        → (if a then (if b then buf ++ take (max - length buf) p else buf ++ p) else buf)
          ≡ take max (buf ++ p)
    by_room true true q r = sym (take-append_short max buf p h)
    by_room true false q r =
        sym (take_all max (buf ++ p) (ground (arith, q, r, length-append buf p)))
    by_room false b q r =
        let full : max - length buf ≡ 0 = ground (arith, q) in
        sym (take-append_short max buf p h ∙ ap (λ k. buf ++ take k p) full ∙ append-nil buf)

length-write : (max : ℕ) (buf p : Text) → length buf ≤ max → length (write max buf p) ≤ max
length-write max buf p h = rw (write-take max buf p h) (length-take max (buf ++ p))

write_all-take_from :
    (max : ℕ) (buf : Text) (ps : List Text)
    → length buf ≤ max
    → write_all max buf ps ≡ take max (buf ++ flatten ps)
unfolding write_all flatten
write_all-take_from max buf [] h = sym (ap (take max) (append-nil buf) ∙ take_all max buf h)
write_all-take_from max buf (p ∷ ps) h =
    write_all-take_from max (write max buf p) ps (length-write max buf p h)
    ∙ ap (λ t. take max (t ++ flatten ps)) (write-take max buf p h)
    ∙ take-take_append max (buf ++ p) (flatten ps)
    ∙ ap (take max) (append_assoc buf p (flatten ps))

-- The buffer of an output stream holds the first bytes of all that was written to it, as many as its
-- capacity, in whatever pieces they were written.
pub write_all-take : (max : ℕ) (ps : List Text) → write_all max [] ps ≡ take max (flatten ps)
write_all-take max ps = write_all-take_from max [] ps (omega arith)
