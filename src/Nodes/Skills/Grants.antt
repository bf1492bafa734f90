-- ===== src/Nodes/Skills/Grants.antt =====
-- What the node "skills" grants to the tool RunSkillCommand.
use souz_go.Prelude.{
  ◌≡◌, refl, ◌⊎◌, inr, Bool, true, not, ◌≤◌, List, [], ◌∷◌, Option, none, some, Text, Error, Result,
  Dict, lookup, insert, lookup-insert_self, lookup-insert_ne, text_eq, text_eq→eq, all, length,
  arith,
}
use souz_go.Providers.{ToolDefinition}
use souz_go.Agent.Context.{AgentContext}
use souz_go.Agent.Platform.{Platform}
use souz_go.Skills.Bundle.{StoredSkill, SkillBundle}
use souz_go.Skills.Services.{Services}
use souz_go.Skills.Selection.{Selection, select}
use souz_go.Skills.Selection.Offered.{is_offered, select-is_offered}
use souz_go.Nodes.Skills.{
  ActivatedSkill, without_run_skill_command, run_skill_command_tool_name, without_skills_context,
  closed_context, is_none,
}
use souz_go.Nodes.Skills.Activation.{
  SkillsConfig, candidates_of, by_id, skill_ids, activated_skill, ensure_approved, activate_each,
  with_activated, activate_skills, skills,
}

-- No tool of the list is RunSkillCommand.
unfoldable pub hides_command : List ToolDefinition → Bool
hides_command ts = all (λ t. not (text_eq t.name run_skill_command_tool_name)) ts

without_run_skill_command-hides_command :
    (ts : List ToolDefinition) → hides_command (without_run_skill_command ts) ≡ true
unfolding hides_command without_run_skill_command
without_run_skill_command-hides_command [] = refl
without_run_skill_command-hides_command (t ∷ ts) =
    ground (arith, without_run_skill_command-hides_command ts)

length-without_run_skill_command :
    (ts : List ToolDefinition) → length (without_run_skill_command ts) ≤ length ts
unfolding without_run_skill_command
length-without_run_skill_command [] = ground arith
length-without_run_skill_command (t ∷ ts) = ground (arith, length-without_run_skill_command ts)

hides_command-length :
    (ts : List ToolDefinition)
    → length (without_run_skill_command ts) ≡ length ts
    → hides_command ts ≡ true
unfolding hides_command without_run_skill_command
hides_command-length [] h = refl
hides_command-length (t ∷ ts) h =
    ground (arith, h, length-without_run_skill_command ts, hides_command-length ts)

-- The context grants nothing: no ids, and the tool is not offered.
unfoldable pub IsClosed : {Sink : Type 0} → AgentContext Sink → Type 0
IsClosed c = (c.invocation_meta.active_skill_ids ≡ none) × (hides_command c.active_tools ≡ true)

closed_context-IsClosed : {Sink : Type 0} (c : AgentContext Sink) → IsClosed (closed_context c)
unfolding IsClosed closed_context
closed_context-IsClosed c = (refl, without_run_skill_command-hides_command c.active_tools)

without_skills_context-IsClosed :
    {Sink : Type 0} (c : AgentContext Sink) → IsClosed (without_skills_context c)
unfolding IsClosed without_skills_context closed_context is_none
without_skills_context-IsClosed c = (
  ground arith,
  ground (
    arith,
    hides_command-length c.active_tools,
    without_run_skill_command-hides_command c.active_tools,
  ),
)

lookup-by_id :
    (ss : List StoredSkill) (m : Dict StoredSkill) (id : Text) (s : StoredSkill)
    → lookup id (by_id ss m) ≡ some s
    → (s.skill_id ≡ id) ⊎ (lookup id m ≡ some s)
unfolding by_id lookup
lookup-by_id [] m id s h = inr h
lookup-by_id (t ∷ ss) m id s h = ground (
  arith,
  lookup-by_id ss (insert t.skill_id t m) id s h,
  lookup-insert_ne t.skill_id id t m,
  lookup-insert_self t.skill_id t m,
  text_eq→eq t.skill_id id,
)

module _ (P : Platform) (S : Services P) (cfg : SkillsConfig) where
  -- A test that every selected id passes is one that every activated id passes.
  all-activate_each :
      (p : Text → Bool) (ss : List StoredSkill) (ids : List Text) (w : P.World)
      → all p ids ≡ true
      → all p (skill_ids (activate_each P S cfg (by_id ss []) ids w).1) ≡ true
  unfolding activate_each skill_ids activated_skill
  all-activate_each p ss [] w h = refl
  all-activate_each p ss (id ∷ ids) w h =
      by_entry (λ x. all-activate_each p ss ids x (ground (arith, h))) _ refl
    where
      Goal : Type 0
      Goal = all p (skill_ids (activate_each P S cfg (by_id ss []) (id ∷ ids) w).1) ≡ true

      by_approval :
          ((x : P.World) → all p (skill_ids (activate_each P S cfg (by_id ss []) ids x).1) ≡ true)
          → (s : StoredSkill) → lookup id (by_id ss []) ≡ some s
          → (o : Option SkillBundle) → (ensure_approved P S cfg s w).1 ≡ o
          → Goal
      by_approval rest s e none a = ground (arith, e, a, rest (ensure_approved P S cfg s w).0)
      by_approval rest s e (some b) a =
          ground (arith, h, e, a, rest (ensure_approved P S cfg s w).0, lookup-by_id ss [] id s e)

      by_entry :
          ((x : P.World) → all p (skill_ids (activate_each P S cfg (by_id ss []) ids x).1) ≡ true)
          → (o : Option StoredSkill) → lookup id (by_id ss []) ≡ o
          → Goal
      by_entry rest none e = ground (arith, e, rest w)
      by_entry rest (some s) e = by_approval rest s e _ refl

  -- What the node returns: a context that grants nothing, or ids of the catalog.
  pub data IsSafe (w : P.World) (r : Result Error (AgentContext P.Sink)) : Type 0 where
    closed : (out : AgentContext P.Sink) → r ≡ Result.ok out → IsClosed out → IsSafe w r
    granted :
        (out : AgentContext P.Sink) (catalog : List StoredSkill) (ids : List Text)
        → r ≡ Result.ok out
        → S.list_skills w ≡ Result.ok catalog
        → out.invocation_meta.active_skill_ids ≡ some ids
        → all (is_offered (candidates_of catalog)) ids ≡ true
        → IsSafe w r

  with_activated-IsSafe :
      (w : P.World) (c : AgentContext P.Sink) (catalog : List StoredSkill)
      (activated : List ActivatedSkill) (r : Result Error (AgentContext P.Sink))
      → r ≡ Result.ok (with_activated P S cfg c activated)
      → S.list_skills w ≡ Result.ok catalog
      → all (is_offered (candidates_of catalog)) (skill_ids activated) ≡ true
      → IsSafe w r
  unfolding with_activated
  with_activated-IsSafe w c catalog [] r q e h =
      closed (without_skills_context c) q (without_skills_context-IsClosed c)
  with_activated-IsSafe w c catalog (s ∷ ss) r q e h =
      granted (with_activated P S cfg c (s ∷ ss)) catalog (skill_ids (s ∷ ss)) q e refl h

  -- Where the node is configured, it never fails, whatever the registry, the model and the cache
  -- do: the context it returns either grants no skill and offers no RunSkillCommand, or grants ids
  -- that are all in the catalog.
  pub skills-IsSafe :
      (w : P.World) (c : AgentContext P.Sink)
      → cfg.configured ≡ true
      → IsSafe w (skills P S cfg w c).1
  unfolding skills activate_skills
  skills-IsSafe w c h = by_catalog _ refl
    where
      Goal : Type 0
      Goal = IsSafe w (skills P S cfg w c).1

      by_selection :
          (s : StoredSkill) (ss : List StoredSkill)
          → S.list_skills w ≡ Result.ok (s ∷ ss)
          → (w' : P.World) (r : Result Error Selection)
          → select P S c.input cfg.model (candidates_of (s ∷ ss)) w ≡ (w', r)
          → Goal
      by_selection s ss e w' (Result.err x) q =
          closed (closed_context c) (ground (arith, h, e, q)) (closed_context-IsClosed c)
      by_selection s ss e w' (Result.ok result) q =
          let ids = result.selected_skill_ids in
          let offered =
            select-is_offered P S c.input cfg.model (candidates_of (s ∷ ss)) w w' result q in
          with_activated-IsSafe w c (s ∷ ss) (activate_each P S cfg (by_id (s ∷ ss) []) ids w').1 _
            (ground (arith, h, e, q)) e
            (all-activate_each (is_offered (candidates_of (s ∷ ss))) (s ∷ ss) ids w' offered)

      by_catalog : (l : Result Error (List StoredSkill)) → S.list_skills w ≡ l → Goal
      by_catalog (Result.err x) e =
          closed (closed_context c) (ground (arith, h, e)) (closed_context-IsClosed c)
      by_catalog (Result.ok []) e =
          closed (without_skills_context c) (ground (arith, h, e))
            (without_skills_context-IsClosed c)
      by_catalog (Result.ok (s ∷ ss)) e = by_selection s ss e _ _ refl
