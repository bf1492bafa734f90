-- ===== src/Skills/Bundle/Load.antt =====
-- pkg/skills/bundle/bundle.go: Load, from the entries that filepath.WalkDir meets, and FromFiles. The
-- texts of the errors are not modelled. `to_lower` is strings.ToLower.
use souz_go.Prelude.{
  ℕ, ◌+◌, ◌*◌, ◌==◌, ◌||◌, ◌&&◌, not, Bool, true, false, List, [], ◌∷◌, ◌++◌, Option, none, some,
  Text, codes, text_eq, trim_space, text_leb, any, length, leb, ltb, if◌then◌else◌,
}
use souz_go.Skills.Bundle.{File, SkillBundle, skill_md_path}
use souz_go.Skills.Bundle.Paths.{normalize_path}
use souz_go.Skills.Bundle.Frontmatter.{parse_frontmatter}

pub record LoadPolicy : Type 0 where
  pub max_files : ℕ
  pub max_file_bytes : ℕ
  pub max_bundle_bytes : ℕ
  pub allowed_ext : List Text

abbrev pub default_load_policy : LoadPolicy
default_load_policy = record {
  max_files = 64;
  max_file_bytes = 128 * 1024;
  max_bundle_bytes = 512 * 1024;
  allowed_ext =
      codes "cjs"
      ∷ codes "css"
      ∷ codes "csv"
      ∷ codes "html"
      ∷ codes "js"
      ∷ codes "json"
      ∷ codes "jsx"
      ∷ codes "md"
      ∷ codes "mjs"
      ∷ codes "py"
      ∷ codes "sh"
      ∷ codes "sql"
      ∷ codes "text"
      ∷ codes "toml"
      ∷ codes "ts"
      ∷ codes "tsx"
      ∷ codes "txt"
      ∷ codes "xml"
      ∷ codes "yaml"
      ∷ codes "yml"
      ∷ codes "zsh"
      ∷ [];
}

pub data Kind : Type 0 where
  symlink directory regular other : Kind

-- What the walk meets below the root: the path relative to it, and what Info and ReadFile give. The
-- walk, Info and ReadFile may fail.
pub record WalkEntry : Type 0 where
  pub walked : Bool
  pub rel : Text
  pub kind : Kind
  pub size : Option ℕ
  pub data_of_file : Option Text

-- A directory: whether Lstat finds one, and its entries in the order of the walk.
pub record Directory : Type 0 where
  pub is_dir : Bool
  pub entries : List WalkEntry

-- strings.TrimPrefix(filepath.Ext(path), "."): what follows the last dot of the last segment.
unfoldable pub extension_from : Option Text → Text → Text
extension_from none [] = []
extension_from (some ext) [] = ext
extension_from ext (c ∷ s) =
    if c == b'/'
    then extension_from none s
    else if c == b'.'
    then extension_from (some []) s
    else elim ext [ none ↦ extension_from none s | some e ↦ extension_from (some (e ++ c ∷ [])) s ]

unfoldable pub extension : Text → Text
unfolding extension_from
extension path = extension_from none path

-- The variables files and totalBytes of collectFiles.
pub record Collected : Type 0 where
  pub files : List File
  pub total_bytes : ℕ

module _ (to_lower : Text → Text) (policy : LoadPolicy) where
  unfoldable pub is_allowed_ext : Text → Bool
  unfolding extension
  is_allowed_ext path = any (λ e. text_eq e (to_lower (extension path))) policy.allowed_ext

  -- The tests on a regular file whose path is normalized.
  unfoldable pub add_file : Text → WalkEntry → Collected → Option Collected
  unfolding is_allowed_ext
  add_file normalized e c =
      if not (is_allowed_ext normalized) || leb policy.max_files (length c.files)
      then none
      else elim e.size [
        | none ↦ none
        | some size ↦
            if ltb policy.max_file_bytes size || ltb policy.max_bundle_bytes (c.total_bytes + size)
            then none
            else elim e.data_of_file [
              | none ↦ none
              | some content ↦ some (record {
                files = c.files ++ record { path = normalized; content = content } ∷ [];
                total_bytes = c.total_bytes + size;
              })
            ]
      ]

  -- The function that collectFiles passes to WalkDir.
  unfoldable pub visit : WalkEntry → Collected → Option Collected
  unfolding normalize_path add_file
  visit e c =
      if e.walked
      then elim e.kind [
        | symlink ↦ none
        | directory ↦ some c
        | other ↦ none
        | regular ↦ elim (normalize_path e.rel) [
          | none ↦ none
          | some normalized ↦ add_file normalized e c
        ]
      ]
      else none

  unfoldable pub walk_dir : List WalkEntry → Collected → Option Collected
  unfolding visit
  walk_dir [] c = some c
  walk_dir (e ∷ es) c = elim (visit e c) [ none ↦ none | some c' ↦ walk_dir es c' ]

  unfoldable pub collect_files : Directory → Option (List File)
  unfolding walk_dir
  collect_files d =
      if d.is_dir
      then elim (walk_dir d.entries (record { files = []; total_bytes = 0 })) [
        | none ↦ none
        | some c ↦ some c.files
      ]
      else none

-- The loop of FromFiles: no path is empty or met twice; the SKILL.md.
unfoldable pub check_files : List File → (seen : List Text) → Option File → Option (Option File)
check_files [] seen skill_md = some skill_md
check_files (f ∷ fs) seen skill_md =
    if text_eq f.path [] || any (text_eq f.path) seen
    then none
    else if text_eq f.path skill_md_path
    then check_files fs (f.path ∷ seen) (some f)
    else check_files fs (f.path ∷ seen) skill_md

-- sort.Slice by path; no two paths are equal where it is called.
unfoldable pub insert_file : File → List File → List File
unfolding text_leb
insert_file f [] = f ∷ []
insert_file f (g ∷ gs) = if text_leb f.path g.path then f ∷ g ∷ gs else g ∷ insert_file f gs

unfoldable pub sort_files : List File → List File
unfolding insert_file
sort_files [] = []
sort_files (f ∷ fs) = insert_file f (sort_files fs)

unfoldable pub is_slug_byte : ℕ → Bool
is_slug_byte c = (leb b'a' c && leb c b'z') || (leb b'0' c && leb c b'9')

-- invalidSlugChars.ReplaceAllString(s, "-") and strings.Trim of dashes: the run of other bytes
-- between two slug bytes becomes one dash. `started` says that a slug byte was met, `pending` that
-- such a run follows one.
unfoldable pub slug_from : (started pending : Bool) → Text → Text
unfolding is_slug_byte
slug_from started pending [] = []
slug_from started pending (c ∷ s) =
    let rest = slug_from true false s in
    let gap = slug_from started started s in
    if is_slug_byte c then (if pending then b'-' ∷ c ∷ rest else c ∷ rest) else gap

module _ (to_lower : Text → Text) where
  unfoldable pub slug : Text → Text
  unfolding slug_from trim_space
  slug name = slug_from false false (to_lower (trim_space name))

  unfoldable pub from_files : List File → Option SkillBundle
  unfolding check_files parse_frontmatter slug sort_files
  from_files files = elim (check_files files [] none) [
    | none ↦ none
    | some none ↦ none
    | some (some skill_md) ↦ elim (parse_frontmatter skill_md.content) [
      | none ↦ none
      | some (m, (raw, body)) ↦ some (record {
        skill_id = slug m.name;
        manifest = m;
        files = sort_files files;
        body = body;
        raw_frontmatter = raw;
      })
    ]
  ]

  unfoldable pub load : LoadPolicy → Directory → Option SkillBundle
  unfolding collect_files from_files
  load policy d = elim (collect_files to_lower policy d) [
    | none ↦ none
    | some files ↦ from_files files
  ]
