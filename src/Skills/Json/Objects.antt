-- ===== src/Skills/Json/Objects.antt =====
-- Texts with balanced braces, and what extractJSONObject makes of a text that holds one.
use souz_go.Prelude.{ℕ, suc, ◌≡◌, ◌≢◌, [], ◌∷◌, ◌++◌, some, Text, arith, All, append_assoc}
use souz_go.Skills.Json.{depth_after, until_closed, extract_json_object}

-- The text between the braces of an object: bytes other than braces, and objects.
pub data Inside : Text → Type 0 where
  end : Inside []
  byte : {c : ℕ} {s : Text} → c ≢ b'{' → c ≢ b'}' → Inside s → Inside (c ∷ s)
  object : {s t u : Text} → Inside s → Inside t → u ≡ b'{' ∷ (s ++ b'}' ∷ t) → Inside u

-- The loop passes over a text inside braces: the depth after it is the one before it.
until_closed-Inside :
    (depth : ℕ) (s rest x : Text)
    → Inside s
    → until_closed (suc depth) rest ≡ some x
    → until_closed (suc depth) (s ++ rest) ≡ some (s ++ x)
unfolding until_closed depth_after
until_closed-Inside depth _ rest x end h = h
until_closed-Inside depth _ rest x (byte {c = c} {s = s} hc kc i) h =
    ground (arith, until_closed-Inside depth s rest x i h)
until_closed-Inside depth u rest x (object {s = s} {t = t} i j e) h =
    let tail : until_closed (suc (suc depth)) (b'}' ∷ (t ++ rest)) ≡ some (b'}' ∷ (t ++ x)) =
      ground (arith, until_closed-Inside depth t rest x j h) in
    let whole = until_closed-Inside (suc depth) s (b'}' ∷ (t ++ rest)) (b'}' ∷ (t ++ x)) i tail in
    ground (arith, whole, append_assoc s (b'}' ∷ t) rest, append_assoc s (b'}' ∷ t) x)

-- A balanced object is found behind any text without an opening brace, and what follows it does
-- not matter.
pub extract_json_object-object :
    (pre inside post : Text)
    → All (λ c. c ≢ b'{') pre
    → Inside inside
    → extract_json_object (pre ++ (b'{' ∷ (inside ++ b'}' ∷ post))) ≡ b'{' ∷ (inside ++ b'}' ∷ [])
unfolding extract_json_object until_closed depth_after
extract_json_object-object [] inside post _ i =
    let tail : until_closed 1 (b'}' ∷ post) ≡ some (b'}' ∷ []) = ground arith in
    ground (arith, until_closed-Inside 0 inside (b'}' ∷ post) (b'}' ∷ []) i tail)
extract_json_object-object (c ∷ pre) inside post (h, hs) i =
    ground (arith, extract_json_object-object pre inside post hs i)
