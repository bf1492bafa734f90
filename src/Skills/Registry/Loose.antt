-- ===== src/Skills/Registry/Loose.antt =====
-- What the registry promises of a bundle that it loads, and a loose skill that it lists and cannot
-- load.
use souz_go.Prelude.{
  ◌≡◌, refl, sym, ap, ◌∙◌, ◌++◌, Bool, true, false, List, [], ◌∷◌, Option, none, some, Text, Error,
  Result, text_eq, text_eq→eq, text_eq_refl, any, arith, ◌||◌, if◌then◌else◌,
}
use souz_go.Skills.Bundle.{StoredSkill, SkillBundle, hash}
use souz_go.Skills.Bundle.Load.{LoadPolicy, Directory, load}
use souz_go.Skills.Bundle.Admitted.{IsAdmitted, load-IsAdmitted}
use souz_go.Skills.Registry.{
  unread, SkillDir, listed, Root, insert_skill, sort_skills, read_skill, read_listed, list_skills,
  get_skill, bundle_directory, load_skill_bundle,
}

unfoldable pub has_id : Text → List StoredSkill → Bool
has_id id ss = any (λ s. text_eq s.skill_id id) ss

-- Whether a listing has a skill of this id.
unfoldable pub lists : Text → Result Error (List StoredSkill) → Bool
unfolding has_id
lists id r = elim r [ Result.err e ↦ false | Result.ok ss ↦ has_id id ss ]

insert_skill-has_id :
    (id : Text) (s : StoredSkill) (ss : List StoredSkill)
    → has_id id (insert_skill s ss) ≡ (text_eq s.skill_id id || has_id id ss)
unfolding insert_skill has_id
insert_skill-has_id id s [] = refl
insert_skill-has_id id s (t ∷ ts) = ground (arith, insert_skill-has_id id s ts)

sort_skills-has_id : (id : Text) (ss : List StoredSkill) → has_id id (sort_skills ss) ≡ has_id id ss
unfolding sort_skills has_id
sort_skills-has_id id [] = refl
sort_skills-has_id id (s ∷ ss) =
    ground (arith, insert_skill-has_id id s (sort_skills ss), sort_skills-has_id id ss)

-- There is nothing at the path of this id.
pub record IsVacant (root : Root) (id : Text) : Type 0 where
  pub stored : (root.at id).stored ≡ unread
  pub has_skill_md : (root.at id).has_skill_md ≡ false
  pub bundles : (bundle_hash : Text) → (root.at id).bundles bundle_hash ≡ none

bundle_directory-IsVacant :
    (root : Root) (id bundle_hash : Text)
    → IsVacant root id
    → bundle_directory root id bundle_hash ≡ none
unfolding bundle_directory
bundle_directory-IsVacant root id bundle_hash v =
    rw (v.bundles bundle_hash, v.has_skill_md, bundle_directory) refl

module _ (to_lower sha256 : Text → Text) (policy : LoadPolicy) where
  -- Loaded from the directory that BundleRoot resolves, with the hash that was asked for.
  pub data LoadsFrom (root : Root) (skill_id bundle_hash : Text) (b : SkillBundle) : Type 0 where
    loads :
        (d : Directory)
        → bundle_directory root skill_id bundle_hash ≡ some d
        → load to_lower policy d ≡ some b
        → hash sha256 b ≡ bundle_hash
        → IsAdmitted to_lower policy d b
        → LoadsFrom root skill_id bundle_hash b

  -- A bundle that LoadSkillBundle returns is what Load gives for the directory that BundleRoot
  -- resolves, has the hash that was asked for, and is within the policy: no symbolic link below the
  -- directory, files and bytes within the limits, and paths normalized and of allowed extensions.
  pub load_skill_bundle-LoadsFrom :
      (root : Root) (skill_id bundle_hash : Text) (b : SkillBundle)
      → load_skill_bundle to_lower sha256 policy root skill_id bundle_hash ≡ some b
      → LoadsFrom root skill_id bundle_hash b
  unfolding load_skill_bundle
  load_skill_bundle-LoadsFrom root skill_id bundle_hash b h =
      by_directory (bundle_directory root skill_id bundle_hash) refl h
    where
      by_bundle :
          (d : Directory) (r : Option SkillBundle)
          → bundle_directory root skill_id bundle_hash ≡ some d
          → load to_lower policy d ≡ r
          → (elim r [
            | none ↦ none
            | some c ↦ if text_eq (hash sha256 c) bundle_hash then some c else none
          ])
            ≡ some b
          → LoadsFrom root skill_id bundle_hash b
      by_bundle d none p q t = absurd (ground (arith, t))
      by_bundle d (some c) p q t =
          let same : c ≡ b = ground (arith, t) in
          let equal : text_eq (hash sha256 c) bundle_hash ≡ true = ground (arith, t) in
          loads d p (q ∙ ap some same)
            (ap (hash sha256) (sym same) ∙ text_eq→eq (hash sha256 c) bundle_hash equal)
            (load-IsAdmitted to_lower policy d b (q ∙ ap some same))

      by_directory :
          (r : Option Directory)
          → bundle_directory root skill_id bundle_hash ≡ r
          → (elim r [
            | none ↦ none
            | some d ↦ elim (load to_lower policy d) [
              | none ↦ none
              | some c ↦ if text_eq (hash sha256 c) bundle_hash then some c else none
            ]
          ])
            ≡ some b
          → LoadsFrom root skill_id bundle_hash b
      by_directory none p t = absurd (ground (arith, t))
      by_directory (some d) p t = by_bundle d (load to_lower policy d) p refl t

  read_listed-has_id :
      (at : Text → SkillDir) (name : Text) (stored : StoredSkill) (es fs : List (Text × Bool))
      → read_skill to_lower sha256 policy (at name) ≡ some stored
      → has_id stored.skill_id (read_listed to_lower sha256 policy at (es ++ (name, true) ∷ fs))
        ≡ true
  unfolding read_listed has_id
  read_listed-has_id at name stored [] fs h = rw h (rw (text_eq_refl stored.skill_id) refl)
  read_listed-has_id at name stored ((other, is_dir) ∷ es) fs h =
      let ih = read_listed-has_id at name stored es fs h in ground (arith, ih)

  -- A loose skill, in a directory with a SKILL.md and without a stored-skill.json, is listed under
  -- the slug of its name. Where there is nothing at the path of this slug, for the directory has
  -- another name, GetSkill does not find the id that was listed, and LoadSkillBundle fails for it
  -- with every hash.
  pub listed_loose_skill_not_loaded :
      (root : Root) (name : Text) (es fs : List (Text × Bool)) (b : SkillBundle)
      (bundle_hash : Text)
      → root.listing ≡ listed (es ++ (name, true) ∷ fs)
      → (root.at name).stored ≡ unread
      → (root.at name).has_skill_md ≡ true
      → load to_lower policy (root.at name).own ≡ some b
      → IsVacant root b.skill_id
      → (lists b.skill_id (list_skills to_lower sha256 policy root) ≡ true)
        × ((get_skill to_lower sha256 policy root b.skill_id ≡ none)
            × (load_skill_bundle to_lower sha256 policy root b.skill_id bundle_hash ≡ none))
  unfolding lists list_skills get_skill read_skill load_skill_bundle bundle_directory
  listed_loose_skill_not_loaded root name es fs b bundle_hash at_root no_file has_md loaded vacant =
      let stored : StoredSkill = record {
        skill_id = b.skill_id;
        manifest = b.manifest;
        bundle_hash = hash sha256 b;
        loose = true;
      } in
      let found : read_skill to_lower sha256 policy (root.at name) ≡ some stored =
        rw (no_file, has_md, loaded, read_skill) refl in
      (
        rw (at_root, list_skills)
            (sort_skills-has_id b.skill_id
                (read_listed to_lower sha256 policy root.at (es ++ (name, true) ∷ fs))
              ∙ read_listed-has_id root.at name stored es fs found),
        (
          rw (vacant.stored, vacant.has_skill_md, read_skill) refl,
          rw (bundle_directory-IsVacant root b.skill_id bundle_hash vacant, load_skill_bundle) refl,
        ),
      )
