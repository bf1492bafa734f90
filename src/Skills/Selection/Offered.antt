-- ===== src/Skills/Selection/Offered.antt =====
-- Select offers nothing that the caller did not: the ids of its selection are those of candidates.
use souz_go.Prelude.{
  Option, ◌≡◌, none, some, true, List, [], ◌∷◌, Text, Result, Dict, Bool, ◌⊎◌, inr, lookup, insert,
  lookup-insert_ne, text_eq, any, all, refl, arith, Error,
}
use souz_go.Providers.{ChatResponse}
use souz_go.Agent.Platform.{Platform}
use souz_go.Skills.Services.{Services, SelectionResponse}
use souz_go.Skills.Selection.{
  Candidate, Selection, known_ids, is_known, filter_known, parse_selection_response,
  selection_request, selected, select,
}

-- The id is that of a candidate.
unfoldable pub is_offered : List Candidate → Text → Bool
is_offered cs id = any (λ c. text_eq c.skill_id id) cs

is_known-known_ids :
    (cs : List Candidate) (known : Dict Bool) (id : Text)
    → is_known (known_ids cs known) id ≡ true
    → (is_offered cs id ≡ true) ⊎ (is_known known id ≡ true)
unfolding is_known known_ids is_offered
is_known-known_ids [] known id h = inr h
is_known-known_ids (c ∷ cs) known id h = ground (
  arith,
  is_known-known_ids cs (insert c.skill_id true known) id h,
  lookup-insert_ne c.skill_id id true known,
)

filter_known-is_offered :
    (cs : List Candidate) (ids : List Text)
    → all (is_offered cs) (filter_known (known_ids cs []) ids) ≡ true
unfolding filter_known is_known lookup
filter_known-is_offered cs [] = refl
filter_known-is_offered cs (id ∷ ids) =
    ground (arith, is_known-known_ids cs [] id, filter_known-is_offered cs ids)

selected-is_offered :
    (P : Platform) (S : Services P) (cs : List Candidate) (content : Text)
    → all (is_offered cs) (selected P S cs content).selected_skill_ids ≡ true
unfolding selected
selected-is_offered P S cs content = by_parsed _ refl
  where
    by_parsed :
        (p : Option SelectionResponse)
        → parse_selection_response P S content ≡ p
        → all (is_offered cs) (selected P S cs content).selected_skill_ids ≡ true
    by_parsed none e = ground (arith, e)
    by_parsed (some parsed) e =
        ground (arith, e, filter_known-is_offered cs parsed.selected_skill_ids)

-- For every answer of the model, the ids that Select returns are ids of candidates.
pub select-is_offered :
    (P : Platform) (S : Services P) (message model : Text) (cs : List Candidate) (w w' : P.World)
    (result : Selection)
    → select P S message model cs w ≡ (w', Result.ok result)
    → all (is_offered cs) result.selected_skill_ids ≡ true
unfolding select
select-is_offered P S message model [] w w' result h = ground (arith, h)
select-is_offered P S message model (c ∷ cs) w w' result h = by_answer _ refl
  where
    by_answer :
        (r : Result Error ChatResponse)
        → (P.chat (selection_request P S message model (c ∷ cs)) w).1 ≡ r
        → all (is_offered (c ∷ cs)) result.selected_skill_ids ≡ true
    by_answer (Result.err e) k = ground (arith, h, k)
    by_answer (Result.ok resp) k =
        ground (arith, h, k, selected-is_offered P S (c ∷ cs) resp.content)
