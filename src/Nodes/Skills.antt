-- ===== src/Nodes/Skills.antt =====
-- The system prompt and the tools of pkg/agent/nodes/skills.go; the children hold the node itself.
pub mod Activation
pub mod Grants
pub mod Approved
pub mod Cancelled
use souz_go.Prelude.{
  ◌+◌, ◌==◌, ◌&&◌, Bool, true, false, List, [], ◌∷◌, ◌++◌, Option, none, some, Text, codes, text_eq,
  index, take, drop, trim_space, length, if◌then◌else◌,
}
use souz_go.Providers.{ToolDefinition}
use souz_go.Agent.Context.{AgentContext}

abbrev pub skills_context_start : Text
skills_context_start = codes "<souz_skills_context>"

abbrev pub skills_context_end : Text
skills_context_end = codes "</souz_skills_context>"

abbrev pub run_skill_command_tool_name : Text
run_skill_command_tool_name = codes "RunSkillCommand"

pub record ActivatedSkill : Type 0 where
  pub skill_id : Text
  pub name : Text
  pub description : Text
  pub version : Text
  pub body : Text

unfoldable pub without_run_skill_command : List ToolDefinition → List ToolDefinition
without_run_skill_command [] = []
without_run_skill_command (t ∷ ts) =
    let rest = without_run_skill_command ts in
    if text_eq t.name run_skill_command_tool_name then rest else t ∷ rest

unfoldable pub skill_id_lines : List ActivatedSkill → Text
skill_id_lines [] = []
skill_id_lines (s ∷ ss) = codes "- " ++ (s.skill_id ++ (codes "\n" ++ skill_id_lines ss))

unfoldable pub active_description : Text → List ActivatedSkill → Text
unfolding skill_id_lines
active_description description activated =
    description
    ++ (codes "\n\nActive Skills for this turn:\n"
        ++ (skill_id_lines activated
            ++ codes
                "Do not use this tool merely to list or inspect the skill bundle files. Call it only when an active skill instruction requires executing a bundled script or command. For instruction-only/template-only skills, follow the injected skill instructions without calling this tool."))

unfoldable pub with_active_skills_description :
    List ToolDefinition → List ActivatedSkill → List ToolDefinition
unfolding active_description
with_active_skills_description [] activated = []
with_active_skills_description (t ∷ ts) activated =
    (if text_eq t.name run_skill_command_tool_name
      then record t { description = active_description t.description activated }
      else t)
    ∷ with_active_skills_description ts activated

unfoldable pub strip_skills_context : Text → Text
unfolding trim_space
strip_skills_context system_prompt = elim (index system_prompt skills_context_start) [
  | none ↦ system_prompt
  | some start ↦ elim (index system_prompt skills_context_end) [
    | none ↦ system_prompt
    | some end ↦
        trim_space
          (take start system_prompt ++ drop (end + length skills_context_end) system_prompt)
  ]
]

unfoldable pub skill_section : ActivatedSkill → Text
skill_section s =
    codes "\n## "
    ++ (s.name
        ++ ((if text_eq s.version [] then [] else codes " (v" ++ (s.version ++ codes ")"))
            ++ (codes "\n"
                ++ ((if text_eq s.description [] then [] else s.description ++ codes "\n\n")
                    ++ (s.body ++ codes "\n")))))

unfoldable pub skill_sections : List ActivatedSkill → Text
unfolding skill_section
skill_sections [] = []
skill_sections (s ∷ ss) = skill_section s ++ skill_sections ss

unfoldable pub append_skills_context : Text → List ActivatedSkill → Text
unfolding skill_sections
append_skills_context system_prompt activated =
    let block =
      skills_context_start
      ++ (codes
            "\nThe following skills were selected as relevant to the current request. Follow each skill's instructions when performing related work; ignore skills that turn out not to apply.\n"
          ++ (skill_sections activated ++ skills_context_end)) in
    if text_eq system_prompt [] then block else system_prompt ++ (codes "\n\n" ++ block)

-- x == nil
unfoldable pub is_none : {A : Type 0} → Option A → Bool
is_none none = true
is_none (some a) = false

module _ {Sink : Type 0} where
  -- The context without prompt block, grants and tool.
  unfoldable pub closed_context : AgentContext Sink → AgentContext Sink
  unfolding strip_skills_context without_run_skill_command
  closed_context c = record c {
    system_prompt = strip_skills_context c.system_prompt;
    invocation_meta = record c.invocation_meta { active_skill_ids = none };
    active_tools = without_run_skill_command c.active_tools;
  }

  unfoldable pub without_skills_context : AgentContext Sink → AgentContext Sink
  unfolding closed_context strip_skills_context without_run_skill_command is_none
  without_skills_context c =
      if text_eq (strip_skills_context c.system_prompt) c.system_prompt
        && is_none c.invocation_meta.active_skill_ids
        && length (without_run_skill_command c.active_tools) == length c.active_tools
      then c
      else closed_context c
