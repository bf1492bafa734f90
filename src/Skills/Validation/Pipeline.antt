-- ===== src/Skills/Validation/Pipeline.antt =====
-- Validate of pkg/skills/validation/validation.go.
use souz_go.Prelude.{Bool, false, [], ◌∷◌, ◌++◌, Text, none, some, codes, if◌then◌else◌, float_le}
use souz_go.Agent.Platform.{Platform}
use souz_go.Skills.Bundle.{SkillBundle, hash}
use souz_go.Skills.Services.{Services}
use souz_go.Skills.Validation.{Decision, Status, Record, Policy, LlmVerdict}
use souz_go.Skills.Validation.Rules.{structural, static}
use souz_go.Skills.Validation.Verdict.{validate_with_llm}

-- verdict.Decision == DecisionApprove && verdict.Confidence >= policy.MinApprovalConfidence
unfoldable pub accepts : Policy → LlmVerdict → Bool
unfolding float_le
accepts policy v = elim v.decision [
  | Decision.approve ↦ float_le policy.min_approval_confidence v.confidence
  | Decision.reject ↦ false
]

unfoldable pub verdict_record : Policy → Record → LlmVerdict → Record
unfolding accepts
verdict_record policy rec v = record rec {
  confidence = v.confidence;
  reasons = v.reasons;
  findings = rec.findings ++ v.findings;
  status = if accepts policy v then Status.approved else Status.rejected;
}

module _ (P : Platform) (S : Services P) where
  -- The record that Validate starts with, whose status is the empty string.
  unfoldable pub new_record : SkillBundle → Policy → P.World → Record
  unfolding hash
  new_record b policy w = record {
    skill_id = b.skill_id;
    bundle_hash = hash S.sha256 b;
    policy_version = policy.version;
    status = Status.unknown [];
    confidence = 0;
    reasons = [];
    findings = [];
    created_at = S.now w;
  }

  unfoldable pub validate : SkillBundle → Policy → Text → P.World → P.World × Record
  unfolding structural static new_record validate_with_llm verdict_record
  validate b policy model w =
      let rec = new_record b policy w in
      elim (structural b ++ static S.match_string b) [
        | f ∷ fs ↦ (
          w,
          record rec {
            status = Status.rejected;
            findings = f ∷ fs;
            reasons = codes "structural/static checks failed" ∷ [];
          },
        )
        | [] ↦ elim (P.ctx_err w) [
          | some e ↦ (
            w,
            record rec {
              status = Status.rejected;
              reasons = (codes "validation cancelled: " ++ P.error_text e) ∷ [];
            },
          )
          | none ↦
              (let (w', v) = validate_with_llm P S b policy model w in
                (w', verdict_record policy rec v))
        ]
      ]
