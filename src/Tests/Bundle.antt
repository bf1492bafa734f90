-- ===== src/Tests/Bundle.antt =====
-- Runs of the loader of bundles.
use mathlib.Core.List.{map}
use souz_go.Prelude.{
  true, false, text_eq, leb, ◌+◌, ◌&&◌, if◌then◌else◌, ◌≡◌, refl, [], ◌∷◌, Text, codes, none, some,
}
use souz_go.Skills.Bundle.Frontmatter.{parse_frontmatter}
use souz_go.Skills.Bundle.Load.{
  slug, extension, Directory, directory, regular, load, default_load_policy,
}
use souz_go.Skills.Bundle.{SkillBundle, hash}
use souz_go.Skills.Registry.{
  StoredFile, SkillDir, listed, Root, list_skills, get_skill, load_skill_bundle,
}
use souz_go.Skills.Registry.Loose.{
  lists, LoadsFrom, load_skill_bundle-LoadsFrom, listed_loose_skill_not_loaded,
}

slug_lem : slug (λ s. s) (codes "  my  --skill 2! ") ≡ codes "my-skill-2"
unfolding slug
slug_lem = refl

extension_lem : extension (codes "a.b/c.tar.gz") ≡ codes "gz"
unfolding extension
extension_lem = refl

extension_none : extension (codes "a.b/c") ≡ []
unfolding extension
extension_none = refl

parse_frontmatter_lem :
    parse_frontmatter (
      codes
        "---\r\nname: \"x y\"\nmetadata:\n  a: b\n c:\nauthor: z\ndescription: 'd'\n---\n\nBody\n")
    ≡ some (
      record {
        name = codes "x y";
        description = codes "d";
        author = codes "z";
        version = [];
        metadata = (codes "a", codes "b") ∷ (codes "c", []) ∷ [];
      },
      (codes "name: \"x y\"\nmetadata:\n  a: b\n c:\nauthor: z\ndescription: 'd'", codes "Body"),
    )
unfolding parse_frontmatter
parse_frontmatter_lem = refl

abbrev skill_text : Text
skill_text = codes "---\nname: My Tool\ndescription: d\n---\nhi"

abbrev sample_directory : Directory
sample_directory = record {
  is_dir = true;
  entries =
      record {
        walked = true;
        rel = codes "SKILL.md";
        kind = regular;
        size = some 43;
        data_of_file = some skill_text;
      }
      ∷ record {
        walked = true;
        rel = codes "lib";
        kind = directory;
        size = none;
        data_of_file = none;
      }
      ∷ [];
}

abbrev lower : Text → Text
lower s = map (λ c. if leb b'A' c && leb c b'Z' then c + 32 else c) s

abbrev sample_bundle : SkillBundle
sample_bundle = record {
  skill_id = codes "my-tool";
  manifest = record {
    name = codes "My Tool";
    description = codes "d";
    author = [];
    version = [];
    metadata = [];
  };
  files = record { path = codes "SKILL.md"; content = skill_text } ∷ [];
  body = codes "hi";
  raw_frontmatter = codes "name: My Tool\ndescription: d";
}

sample_directory_lem : load lower default_load_policy sample_directory ≡ some sample_bundle
unfolding load
sample_directory_lem = refl

-- The loose skill stands in the directory "tool".
abbrev vacant_dir : SkillDir
vacant_dir = record {
  stored = StoredFile.unread;
  bundles = λ h. none;
  has_skill_md = false;
  own = record { is_dir = false; entries = [] };
}

abbrev loose_root : Root
loose_root = record {
  path = codes "/skills";
  listing = listed ((codes "tool", true) ∷ []);
  at = λ id.
      if text_eq id (codes "tool")
      then record vacant_dir { has_skill_md = true; own = sample_directory }
      else vacant_dir;
}

listed_loose_skill_not_loaded_example :
    (lists (codes "my-tool") (list_skills lower (λ s. s) default_load_policy loose_root) ≡ true)
    × ((get_skill lower (λ s. s) default_load_policy loose_root (codes "my-tool") ≡ none)
        × (load_skill_bundle lower (λ s. s) default_load_policy loose_root (codes "my-tool") []
            ≡ none))
listed_loose_skill_not_loaded_example =
    listed_loose_skill_not_loaded lower (λ s. s) default_load_policy loose_root (codes "tool") [] []
      sample_bundle [] refl refl refl sample_directory_lem
      (record { stored = refl; has_skill_md = refl; bundles = λ h. refl })

abbrev sample_hash : Text
sample_hash = hash (λ s. s) sample_bundle

load_skill_bundle-LoadsFrom_example :
    LoadsFrom lower (λ s. s) default_load_policy loose_root (codes "tool") sample_hash sample_bundle
unfolding load_skill_bundle
load_skill_bundle-LoadsFrom_example =
    load_skill_bundle-LoadsFrom lower (λ s. s) default_load_policy loose_root (codes "tool")
      sample_hash sample_bundle refl
