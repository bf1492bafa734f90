-- ===== src/Skills/Validation.antt =====
-- pkg/skills/validation: the data of validation.go, and its children for the stages.
pub mod Rules
pub mod Verdict
pub mod Pipeline
pub mod Approval
use souz_go.Prelude.{ℕ, ℤ, pos, Bool, true, false, List, [], Text, codes, text_eq}
use souz_go.Providers.{Float64}

pub data Decision : Type 0 where
  approve reject : Decision

pub data Status : Type 0 where
  approved rejected stale : Status
  -- Any other string of a record that is read from the disk.
  unknown : Text → Status

pub record Finding : Type 0 where
  pub stage : Text
  pub file : Text
  pub message : Text

pub record Record : Type 0 where
  pub skill_id : Text
  pub bundle_hash : Text
  pub policy_version : ℕ
  pub status : Status
  pub confidence : Float64
  pub reasons : List Text
  pub findings : List Finding
  pub created_at : ℕ

-- Record.Approved
unfoldable pub is_approved : Record → Bool
is_approved r = elim r.status [ Status.approved ↦ true | _ ↦ false ]

-- The limits on characters are ints, of which those up to 0 mean that there is no limit.
pub record Policy : Type 0 where
  pub version : ℕ
  pub min_approval_confidence : Float64
  pub excerpt_chars_per_file : ℤ
  pub max_skill_markdown_chars : ℤ

-- The bits of 0.66.
abbrev pub default_policy : Policy
default_policy = record {
  version = 1;
  min_approval_confidence = 0x3fe51eb851eb851f;
  excerpt_chars_per_file = pos 2000;
  max_skill_markdown_chars = pos 8000;
}

pub record LlmVerdict : Type 0 where
  pub decision : Decision
  pub confidence : Float64
  pub risk_level : Text
  pub reasons : List Text
  pub findings : List Finding

-- What a file of the cache holds: bytes that cannot be read or decoded, or a record.
pub data Content : Type 0 where
  unreadable undecodable : Content
  decoded : Record → Content

-- The file {skillId}/policies/{policyVersion}/{bundleHash}.json.
pub record Entry : Type 0 where
  pub skill_id : Text
  pub policy_version : ℕ
  pub bundle_hash : Text
  pub content : Content
