-- ===== src/Skills/Bundle.antt =====
-- pkg/skills/bundle: the data of a bundle, its hash and NormalizePath, and the type StoredSkill of
-- pkg/skills/registry.
pub mod Paths
pub mod Frontmatter
pub mod Load
pub mod Walked
pub mod Admitted
use souz_go.Prelude.{
  ℕ, Bool, List, [], ◌∷◌, ◌++◌, Text, Dict, codes, ◌/◌, ◌%◌, ltb, if◌then◌else◌, ◌+◌,
}

abbrev pub skill_md_path : Text
skill_md_path = codes "SKILL.md"

pub record Manifest : Type 0 where
  pub name : Text
  pub description : Text
  pub author : Text
  pub version : Text
  pub metadata : Dict Text

pub record File : Type 0 where
  pub path : Text
  pub content : Text

pub record SkillBundle : Type 0 where
  pub skill_id : Text
  pub manifest : Manifest
  pub files : List File
  pub body : Text
  pub raw_frontmatter : Text

-- An entry of the catalog: the time of its creation is not read.
pub record StoredSkill : Type 0 where
  pub skill_id : Text
  pub manifest : Manifest
  pub bundle_hash : Text
  pub loose : Bool

-- hex.EncodeToString
unfoldable pub hex_digit : ℕ → ℕ
hex_digit n = if ltb n 10 then b'0' + n else 87 + n

unfoldable pub hex : Text → Text
unfolding hex_digit
hex [] = []
hex (c ∷ s) = hex_digit (c / 16) ∷ hex_digit (c % 16) ∷ hex s

-- The text that is hashed, by the digest of the files: crypto/sha256.Sum256.
module _ (sha256 : Text → Text) where
  unfoldable pub hashed_text : List File → Text
  unfolding hex
  hashed_text [] = []
  hashed_text (f ∷ fs) =
      f.path ++ (codes "\n" ++ (hex (sha256 f.content) ++ (codes "\n" ++ hashed_text fs)))

  unfoldable pub hash : SkillBundle → Text
  unfolding hashed_text
  hash b = hex (sha256 (hashed_text b.files))
