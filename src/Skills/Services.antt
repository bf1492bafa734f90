-- ===== src/Skills/Services.antt =====
-- What the packages of pkg/skills use of the standard library's codecs, hashes, regular expressions
-- and clock, and of the disk. The registry of the installed skills is used by its interface.
use souz_go.Prelude.{ℕ, Bool, List, Option, Text, Error, Result}
use souz_go.Providers.{Float64}
use souz_go.Agent.Platform.{Platform}
use souz_go.Skills.Bundle.{StoredSkill, SkillBundle}
use souz_go.Skills.Validation.{Entry}

-- selectionResponse
pub record SelectionResponse : Type 0 where
  pub selected_skill_ids : List Text
  pub rationale : Text

-- The struct that parseVerdict decodes.
pub record RawVerdict : Type 0 where
  pub decision : Text
  pub confidence : Float64
  pub risk_level : Text
  pub reasons : List Text

pub record Services (P : Platform) : Type 0 where
  -- json.Unmarshal into selectionResponse and into the struct of parseVerdict.
  pub unmarshal_selection : Text → Result Error SelectionResponse
  pub unmarshal_verdict : Text → Result Error RawVerdict
  -- crypto/sha256.Sum256
  pub sha256 : Text → Text
  -- regexp.MustCompile(pattern).MatchString(text)
  pub match_string : Text → Text → Bool
  -- time.Now().UTC()
  pub now : P.World → ℕ
  -- The files of the cache of verdicts, and how the disk holds them.
  pub entries : P.World → List Entry
  pub put_entries : List Entry → P.World → P.World
  -- Whether MkdirAll, CreateTemp, Write, Close and Rename succeed for a file of the cache, without
  -- the file that they bring about, and whether ReadDir does for a directory that exists.
  pub write_file : P.World → P.World × Option Error
  pub read_dir : P.World → Option Error
  -- Registry.ListSkills and Registry.LoadSkillBundle
  pub list_skills : P.World → Result Error (List StoredSkill)
  pub load_skill_bundle : Text → Text → P.World → Result Error SkillBundle
