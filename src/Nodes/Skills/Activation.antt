-- ===== src/Nodes/Skills/Activation.antt =====
-- The node "skills" of pkg/agent/nodes/skills.go. The catalog is read once; its two maps are lists
-- and a lookup.
use souz_go.Prelude.{
  Bool, true, false, List, [], ◌∷◌, Option, none, some, Text, Result, Dict, lookup, insert,
  if◌then◌else◌,
}
use souz_go.Agent.Context.{AgentContext}
use souz_go.Agent.Platform.{Platform}
use souz_go.Skills.Bundle.{StoredSkill, SkillBundle}
use souz_go.Skills.Services.{Services}
use souz_go.Skills.Selection.{Candidate, select}
use souz_go.Skills.Validation.{Policy, Record, Status, is_approved}
use souz_go.Skills.Validation.Pipeline.{validate}
use souz_go.Skills.Store.{get, save, invalidate_others}
use souz_go.Nodes.Common.{NodeFn}
use souz_go.Nodes.Skills.{
  ActivatedSkill, strip_skills_context, append_skills_context, with_active_skills_description,
  without_skills_context, closed_context,
}

-- `configured` says that none of the three pointers of the configuration is nil.
pub record SkillsConfig : Type 0 where
  pub configured : Bool
  pub policy : Policy
  pub model : Text

unfoldable pub candidate_of : StoredSkill → Candidate
candidate_of s = record {
  skill_id = s.skill_id;
  name = s.manifest.name;
  description = s.manifest.description;
  author = s.manifest.author;
  version = s.manifest.version;
}

unfoldable pub candidates_of : List StoredSkill → List Candidate
unfolding candidate_of
candidates_of [] = []
candidates_of (s ∷ ss) = candidate_of s ∷ candidates_of ss

-- byID, filled in the order of the catalog.
unfoldable pub by_id : List StoredSkill → Dict StoredSkill → Dict StoredSkill
unfolding insert
by_id [] m = m
by_id (s ∷ ss) m = by_id ss (insert s.skill_id s m)

unfoldable pub activated_skill : StoredSkill → SkillBundle → ActivatedSkill
activated_skill stored b = record {
  skill_id = stored.skill_id;
  name = b.manifest.name;
  description = b.manifest.description;
  version = b.manifest.version;
  body = b.body;
}

unfoldable pub skill_ids : List ActivatedSkill → List Text
skill_ids [] = []
skill_ids (s ∷ ss) = s.skill_id ∷ skill_ids ss

-- The record that asks for a validation: none, or one that is stale.
unfoldable pub needs_validation : Option Record → Bool
needs_validation none = true
needs_validation (some rec) = elim rec.status [ Status.stale ↦ true | _ ↦ false ]

unfoldable pub allows : Option Record → Bool
unfolding is_approved
allows none = false
allows (some rec) = is_approved rec

module _ (P : Platform) (S : Services P) (cfg : SkillsConfig) where
  -- The validation of a bundle that was loaded, and what is kept of it.
  unfoldable pub validate_now : SkillBundle → P.World → P.World × Option SkillBundle
  unfolding validate save is_approved
  validate_now loaded w =
      let (w', fresh) = validate P S loaded cfg.policy cfg.model w in
      let (w'', _) = save P S fresh w' in (w'', if is_approved fresh then some loaded else none)

  -- The rest of ensureApproved after a record, or none, was read.
  unfoldable pub judge : StoredSkill → Option Record → P.World → P.World × Option SkillBundle
  unfolding needs_validation allows validate_now
  judge stored rec w =
      if needs_validation rec
      then elim (S.load_skill_bundle stored.skill_id stored.bundle_hash w) [
        | Result.err e ↦ (w, none)
        | Result.ok loaded ↦ validate_now loaded w
      ]
      else if allows rec
      then elim (S.load_skill_bundle stored.skill_id stored.bundle_hash w) [
        | Result.err e ↦ (w, none)
        | Result.ok loaded ↦ (w, some loaded)
      ]
      else (w, none)

  unfoldable pub ensure_approved : StoredSkill → P.World → P.World × Option SkillBundle
  unfolding invalidate_others get judge
  ensure_approved stored w =
      let (w', _) = invalidate_others P S stored.skill_id cfg.policy.version stored.bundle_hash w in
      elim (get P S stored.skill_id cfg.policy.version stored.bundle_hash w') [
        | Result.err e ↦ (w', none)
        | Result.ok rec ↦ judge stored rec w'
      ]

  -- The loop over the selected ids.
  unfoldable pub activate_each :
      Dict StoredSkill → List Text → P.World → P.World × List ActivatedSkill
  unfolding lookup ensure_approved activated_skill
  activate_each m [] w = (w, [])
  activate_each m (id ∷ ids) w = elim (lookup id m) [
    | none ↦ activate_each m ids w
    | some stored ↦
        (let (w', approved) = ensure_approved stored w in
          let (w'', rest) = activate_each m ids w' in
          (w'', elim approved [ none ↦ rest | some b ↦ activated_skill stored b ∷ rest ]))
  ]

  unfoldable pub with_activated : AgentContext P.Sink → List ActivatedSkill → AgentContext P.Sink
  unfolding without_skills_context append_skills_context strip_skills_context
      with_active_skills_description skill_ids
  with_activated c [] = without_skills_context c
  with_activated c (s ∷ ss) = record c {
    system_prompt = append_skills_context (strip_skills_context c.system_prompt) (s ∷ ss);
    invocation_meta = record c.invocation_meta { active_skill_ids = some (skill_ids (s ∷ ss)) };
    active_tools = with_active_skills_description c.active_tools (s ∷ ss);
  }

  unfoldable pub activate_skills : NodeFn P
  unfolding select candidates_of by_id activate_each with_activated without_skills_context
  activate_skills w c =
      if cfg.configured
      then elim (S.list_skills w) [
        | Result.err e ↦ (w, Result.err e)
        | Result.ok [] ↦ (w, Result.ok (without_skills_context c))
        | Result.ok (s ∷ ss) ↦
            (let (w', r) = select P S c.input cfg.model (candidates_of (s ∷ ss)) w in
              elim r [
                | Result.err e ↦ (w', Result.err e)
                | Result.ok result ↦
                    (let (w'', activated) =
                        activate_each (by_id (s ∷ ss) []) result.selected_skill_ids w' in
                      (w'', Result.ok (with_activated c activated)))
              ])
      ]
      else (w, Result.ok c)

  unfoldable pub skills : NodeFn P
  unfolding activate_skills closed_context
  skills w c =
      let (w', r) = activate_skills w c in
      elim r [
        | Result.err e ↦ (w', Result.ok (closed_context c))
        | Result.ok out ↦ (w', Result.ok out)
      ]
