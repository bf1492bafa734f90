-- ===== src/Skills/Validation/Approval.antt =====
-- When Validate approves a bundle: every stage has to.
use souz_go.Prelude.{
  ◌≡◌, refl, sym, ◌∙◌, ◌↔◌, true, false, ◌||◌, Bool, List, [], ◌∷◌, ◌++◌, Text, Error, Option, none,
  some, Result, text_eq, arith, float_le, float_lt,
}
use souz_go.Providers.{ChatResponse}
use souz_go.Agent.Platform.{Platform}
use souz_go.Skills.Json.{extract_json_object}
use souz_go.Skills.Bundle.{SkillBundle}
use souz_go.Skills.Services.{Services, RawVerdict}
use souz_go.Skills.Validation.{Decision, Policy, is_approved, Finding}
use souz_go.Skills.Validation.Rules.{structural, static}
use souz_go.Skills.Validation.Verdict.{
  decision_of, checked_verdict, parse_verdict, verdict_of, review_request, validate_with_llm,
  fail_closed,
}
use souz_go.Skills.Validation.Pipeline.{validate, accepts, verdict_record}

module _ (P : Platform) (S : Services P) (b : SkillBundle) (policy : Policy) where
  -- The text of an answer holds an object that decodes to an approval with enough confidence.
  pub data Approves : Text → Type 0 where
    approves :
        {content : Text} (raw : RawVerdict)
        → text_eq (extract_json_object content) [] ≡ false
        → S.unmarshal_verdict (extract_json_object content) ≡ Result.ok raw
        → decision_of raw.decision ≡ some Decision.approve
        → float_le policy.min_approval_confidence raw.confidence ≡ true
        → (float_lt raw.confidence 0 || float_lt 0x3ff0000000000000 raw.confidence) ≡ false
        → Approves content

  -- No rule finds anything, the turn is not cancelled, and the model answers with an approval.
  pub data IsVetted (model : Text) (w : P.World) : Type 0 where
    vetted :
        (resp : ChatResponse)
        → structural b ≡ []
        → static S.match_string b ≡ []
        → P.ctx_err w ≡ none
        → (P.chat (review_request P S b policy model) w).1 ≡ Result.ok resp
        → Approves resp.content
        → IsVetted model w

  accepts-checked_verdict :
      (raw : RawVerdict) (content : Text)
      → text_eq (extract_json_object content) [] ≡ false
      → S.unmarshal_verdict (extract_json_object content) ≡ Result.ok raw
      → accepts policy (verdict_of P S content) ≡ true
      → Approves content
  unfolding accepts verdict_of parse_verdict checked_verdict fail_closed
  accepts-checked_verdict raw content t u h =
      approves raw t u (ground (arith, t, u, h)) (ground (arith, t, u, h)) (ground (arith, t, u, h))

  accepts-Approves :
      (content : Text) → accepts policy (verdict_of P S content) ≡ true → Approves content
  unfolding accepts verdict_of parse_verdict fail_closed
  accepts-Approves content h = by_text _ refl
    where
      by_raw :
          (r : Result Error RawVerdict)
          → text_eq (extract_json_object content) [] ≡ false
          → S.unmarshal_verdict (extract_json_object content) ≡ r
          → Approves content
      by_raw (Result.err e) t u = ground (arith, t, u, h)
      by_raw (Result.ok raw) t u = accepts-checked_verdict raw content t u h

      by_text : (t : Bool) → text_eq (extract_json_object content) [] ≡ t → Approves content
      by_text true t = ground (arith, t, h)
      by_text false t = by_raw _ t refl

  Approves-accepts :
      (content : Text) → Approves content → accepts policy (verdict_of P S content) ≡ true
  unfolding accepts verdict_of parse_verdict checked_verdict
  Approves-accepts content (approves raw t u d c r) = ground (arith, t, u, d, c, r)

  validate-accepts :
      (model : Text) (w : P.World) (resp : ChatResponse)
      → structural b ≡ []
      → static S.match_string b ≡ []
      → P.ctx_err w ≡ none
      → (P.chat (review_request P S b policy model) w).1 ≡ Result.ok resp
      → is_approved (validate P S b policy model w).1 ≡ accepts policy (verdict_of P S resp.content)
  unfolding validate validate_with_llm verdict_record is_approved
  validate-accepts model w resp s t c a = ground (arith, s, t, c, a)

  append-nil_left : (xs ys : List Finding) → xs ++ ys ≡ [] → xs ≡ []
  append-nil_left [] ys h = refl
  append-nil_left (x ∷ xs) ys h = cc

  append-nil_right : (xs ys : List Finding) → xs ++ ys ≡ [] → ys ≡ []
  append-nil_right [] ys h = h
  append-nil_right (x ∷ xs) ys h = cc

  approved-IsVetted :
      (model : Text) (w : P.World)
      → is_approved (validate P S b policy model w).1 ≡ true
      → IsVetted model w
  unfolding validate validate_with_llm verdict_record is_approved fail_closed accepts
  approved-IsVetted model w h = by_findings _ refl
    where
      by_answer :
          structural b ++ static S.match_string b ≡ []
          → P.ctx_err w ≡ none
          → (r : Result Error ChatResponse) → (P.chat (review_request P S b policy model) w).1 ≡ r
          → IsVetted model w
      by_answer f c (Result.err e) a = ground (arith, f, c, a, h)
      by_answer f c (Result.ok resp) a =
          let s = append-nil_left (structural b) (static S.match_string b) f in
          let t = append-nil_right (structural b) (static S.match_string b) f in
          vetted resp s t c a
            (accepts-Approves resp.content (sym (validate-accepts model w resp s t c a) ∙ h))

      by_context :
          structural b ++ static S.match_string b ≡ []
          → (o : Option Error) → P.ctx_err w ≡ o
          → IsVetted model w
      by_context f none c = by_answer f c _ refl
      by_context f (some e) c = ground (arith, f, c, h)

      by_findings :
          (fs : List Finding) → structural b ++ static S.match_string b ≡ fs → IsVetted model w
      by_findings [] f = by_context f _ refl
      by_findings (x ∷ xs) f = ground (arith, f, h)

  IsVetted-approved :
      (model : Text) (w : P.World)
      → IsVetted model w
      → is_approved (validate P S b policy model w).1 ≡ true
  IsVetted-approved model w (vetted resp s t c a v) =
      validate-accepts model w resp s t c a ∙ Approves-accepts resp.content v

  -- Validate approves a bundle exactly where the structural and the static stage find nothing, the
  -- context is not done, the model answers, and the first object of its answer decodes to an
  -- APPROVE whose confidence is in [0, 1] and reaches the policy's minimum.
  pub validate-IsVetted :
      (model : Text) (w : P.World)
      → (is_approved (validate P S b policy model w).1 ≡ true) ↔ IsVetted model w
  validate-IsVetted model w = (approved-IsVetted model w, IsVetted-approved model w)
