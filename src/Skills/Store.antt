-- ===== src/Skills/Store.antt =====
-- pkg/skills/validation/store.go: the cache of verdicts on the disk.
pub mod Verdicts
use souz_go.Prelude.{
  ℕ, ◌==◌, Bool, true, false, not, ◌&&◌, List, [], ◌∷◌, Text, Error, Label, Result, Option, none,
  some, codes, text_eq, if◌then◌else◌,
}
use souz_go.Agent.Platform.{Platform}
use souz_go.Skills.Services.{Services}
use souz_go.Skills.Validation.{Record, Status, Content, Entry}

-- The two paths that recordPath makes are the same, for ids and hashes that are each one element of
-- a path: filepath.Join also cleans `.`, `..` and separators in them, which the model does not.
unfoldable pub is_at : Text → ℕ → Text → Entry → Bool
is_at skill_id version hash e =
    text_eq e.skill_id skill_id && e.policy_version == version && text_eq e.bundle_hash hash

unfoldable pub read_entry : Text → ℕ → Text → List Entry → Option Content
unfolding is_at
read_entry skill_id version hash [] = none
read_entry skill_id version hash (e ∷ es) =
    if is_at skill_id version hash e then some e.content else read_entry skill_id version hash es

-- The renaming at the end of writeFileAtomic.
unfoldable pub write_entry : Text → ℕ → Text → Record → List Entry → List Entry
unfolding is_at
write_entry skill_id version hash rec [] =
    record {
      skill_id = skill_id;
      policy_version = version;
      bundle_hash = hash;
      content = Content.decoded rec;
    }
    ∷ []
write_entry skill_id version hash rec (e ∷ es) =
    if is_at skill_id version hash e
    then record e { content = Content.decoded rec } ∷ es
    else e ∷ write_entry skill_id version hash rec es

-- What Get makes of the file.
unfoldable pub record_of : Option Content → Result Error (Option Record)
record_of none = Result.ok none
record_of (some Content.unreadable) =
    Result.err (Error.other (codes "skill validation store: read"))
record_of (some Content.undecodable) =
    Result.err (Error.other (codes "skill validation store: decode"))
record_of (some (Content.decoded rec)) = Result.ok (some rec)

-- Where the file is one that InvalidateOthers rewrites: its record, as it was.
unfoldable pub superseded : Text → ℕ → Text → Entry → Option Record
superseded skill_id version current e =
    if text_eq e.skill_id skill_id
      && e.policy_version == version
      && not (text_eq e.bundle_hash current)
    then elim e.content [
      | Content.decoded rec ↦ elim rec.status [ Status.approved ↦ some rec | _ ↦ none ]
      | _ ↦ none
    ]
    else none

module _ (P : Platform) (S : Services P) where
  -- Get
  unfoldable pub get : Text → ℕ → Text → P.World → Result Error (Option Record)
  unfolding read_entry record_of
  get skill_id version hash w = record_of (read_entry skill_id version hash (S.entries w))

  -- writeFileAtomic of a record, at the path of the three parts.
  unfoldable pub write_record : Text → ℕ → Text → Record → P.World → P.World × Option Error
  unfolding write_entry
  write_record skill_id version hash rec w =
      let (w', failure) = S.write_file w in
      elim failure [
        | some e ↦ (w', some e)
        | none ↦ (S.put_entries (write_entry skill_id version hash rec (S.entries w')) w', none)
      ]

  -- Save
  unfoldable pub save : Record → P.World → P.World × Option Error
  unfolding write_record
  save rec w =
      let (w', failure) = write_record rec.skill_id rec.policy_version rec.bundle_hash rec w in
      elim failure [
        | none ↦ (w', none)
        | some e ↦ (w', some (Error.wrap (Label.stage (codes "skill validation store")) e))
      ]

  -- The loop of InvalidateOthers over the files of the directory, as ReadDir listed them.
  unfoldable pub invalidate_each : Text → ℕ → Text → List Entry → P.World → P.World
  unfolding superseded write_record
  invalidate_each skill_id version current [] w = w
  invalidate_each skill_id version current (e ∷ es) w =
      let w' : P.World = elim (superseded skill_id version current e) [
        | none ↦ w
        | some rec ↦
            (write_record skill_id version e.bundle_hash (record rec { status = Status.stale }) w).0
      ] in
      invalidate_each skill_id version current es w'

  -- InvalidateOthers
  unfoldable pub invalidate_others : Text → ℕ → Text → P.World → P.World × Option Error
  unfolding invalidate_each
  invalidate_others skill_id version current w = elim (S.read_dir w) [
    | some e ↦ (w, some (Error.wrap (Label.stage (codes "skill validation store")) e))
    | none ↦ (invalidate_each skill_id version current (S.entries w) w, none)
  ]
