-- ===== src/Skills/Registry.antt =====
-- pkg/skills/registry/registry.go, as far as it reads the disk. The path of an id below the root is
-- `at`, for whatever id; a stat that fails finds nothing there. `join` is filepath.Join.
pub mod Loose
use souz_go.Prelude.{
  ℕ, Bool, true, false, List, [], ◌∷◌, Option, none, some, Text, Error, Label, Result, codes,
  text_eq, text_leb, if◌then◌else◌,
}
use souz_go.Skills.Bundle.{StoredSkill, SkillBundle, hash}
use souz_go.Skills.Bundle.Load.{LoadPolicy, Directory, load}

-- stored-skill.json
pub data StoredFile : Type 0 where
  unread undecodable : StoredFile
  decoded : StoredSkill → StoredFile

-- What stands at the path of an id: stored-skill.json, the directories of bundles by their names,
-- whether there is a SKILL.md, and the directory itself.
pub record SkillDir : Type 0 where
  pub stored : StoredFile
  pub bundles : Text → Option Directory
  pub has_skill_md : Bool
  pub own : Directory

-- What ReadDir gives for the root: names, and whether they are directories.
pub data Listing : Type 0 where
  missing : Listing
  unreadable : Error → Listing
  listed : List (Text × Bool) → Listing

pub record Root : Type 0 where
  pub path : Text
  pub listing : Listing
  pub at : Text → SkillDir

-- sort.Slice by the id; the program leaves the order of equal ids open.
unfoldable pub insert_skill : StoredSkill → List StoredSkill → List StoredSkill
unfolding text_leb
insert_skill s [] = s ∷ []
insert_skill s (t ∷ ts) =
    if text_leb s.skill_id t.skill_id then s ∷ t ∷ ts else t ∷ insert_skill s ts

unfoldable pub sort_skills : List StoredSkill → List StoredSkill
unfolding insert_skill
sort_skills [] = []
sort_skills (s ∷ ss) = insert_skill s (sort_skills ss)

unfoldable pub first_named : Text → List StoredSkill → Option StoredSkill
first_named name [] = none
first_named name (s ∷ ss) = if text_eq s.manifest.name name then some s else first_named name ss

-- The directory that BundleRoot resolves.
unfoldable pub bundle_directory : Root → Text → Text → Option Directory
bundle_directory root skill_id bundle_hash = elim ((root.at skill_id).bundles bundle_hash) [
  | some d ↦ some d
  | none ↦ if (root.at skill_id).has_skill_md then some (root.at skill_id).own else none
]

-- Its path.
unfoldable pub bundle_root : (Text → Text → Text) → Root → Text → Text → Option Text
bundle_root join root skill_id bundle_hash =
    let dir = join root.path skill_id in
    elim ((root.at skill_id).bundles bundle_hash) [
      | some d ↦ some (join (join dir (codes "bundles")) bundle_hash)
      | none ↦ if (root.at skill_id).has_skill_md then some dir else none
    ]

module _ (to_lower sha256 : Text → Text) (policy : LoadPolicy) where
  unfoldable pub read_skill : SkillDir → Option StoredSkill
  unfolding load hash
  read_skill dir = elim dir.stored [
    | StoredFile.decoded stored ↦ some stored
    | undecodable ↦ none
    | unread ↦
        if dir.has_skill_md
        then elim (load to_lower policy dir.own) [
          | none ↦ none
          | some b ↦ some (record {
            skill_id = b.skill_id;
            manifest = b.manifest;
            bundle_hash = hash sha256 b;
            loose = true;
          })
        ]
        else none
  ]

  -- The loop of ListSkills.
  unfoldable pub read_listed : (Text → SkillDir) → List (Text × Bool) → List StoredSkill
  unfolding read_skill
  read_listed at [] = []
  read_listed at ((name, is_dir) ∷ es) =
      let rest = read_listed at es in
      if is_dir
      then elim (read_skill (at name)) [ none ↦ rest | some stored ↦ stored ∷ rest ]
      else rest

  unfoldable pub list_skills : Root → Result Error (List StoredSkill)
  unfolding read_listed sort_skills
  list_skills root = elim root.listing [
    | missing ↦ Result.ok []
    | unreadable e ↦ Result.err (Error.wrap (Label.stage (codes "skill registry")) e)
    | listed es ↦ Result.ok (sort_skills (read_listed root.at es))
  ]

  unfoldable pub get_skill : Root → Text → Option StoredSkill
  unfolding read_skill
  get_skill root skill_id = read_skill (root.at skill_id)

  unfoldable pub get_skill_by_name : Root → Text → Result Error (Option StoredSkill)
  unfolding list_skills first_named
  get_skill_by_name root name = elim (list_skills root) [
    | Result.err e ↦ Result.err e
    | Result.ok ss ↦ Result.ok (first_named name ss)
  ]

  unfoldable pub load_skill_bundle : Root → Text → Text → Option SkillBundle
  unfolding bundle_directory load hash
  load_skill_bundle root skill_id bundle_hash = elim (bundle_directory root skill_id bundle_hash) [
    | none ↦ none
    | some d ↦ elim (load to_lower policy d) [
      | none ↦ none
      | some b ↦ if text_eq (hash sha256 b) bundle_hash then some b else none
    ]
  ]
