-- ===== src/Tools.antt =====
-- pkg/tools/tool.go: the Tool interface, the registry and the typed arguments.
pub mod Registry
pub mod Calculator
pub mod SkillProcess
pub mod RunSkillCommand
use souz_go.Prelude.{
  List, [], ◌∷◌, Text, Error, Result, Dict, keys, lookup, insert, sort_texts, Option, none, some,
}
use souz_go.Providers.{ToolDefinition}
use souz_go.Agent.Context.{InvocationMeta}
use souz_go.Agent.Platform.{Args}

-- `W` is the state that a tool acts on.
pub record Tool (W : Type 0) : Type 0 where
  pub name : Text
  pub description : Text
  pub schema : Text
  pub execute : Args → InvocationMeta → W → W × Result Error Text

module _ {W : Type 0} where
  unfoldable pub to_definition : Tool W → ToolDefinition
  to_definition t = record { name = t.name; description = t.description; input_schema = t.schema }

  -- The loop over the sorted names; every name is a key of the registry.
  unfoldable pub definitions_of : Dict (Tool W) → List Text → List ToolDefinition
  unfolding to_definition
  definitions_of registry [] = []
  definitions_of registry (n ∷ ns) = elim (lookup n registry) [
    | some t ↦ to_definition t ∷ definitions_of registry ns
    | none ↦ definitions_of registry ns
  ]

  unfoldable pub to_definitions : Dict (Tool W) → List ToolDefinition
  unfolding definitions_of
  to_definitions registry = definitions_of registry (sort_texts (keys registry))

  unfoldable pub register : List (Tool W) → Dict (Tool W) → Dict (Tool W)
  register [] registry = registry
  register (t ∷ ts) registry = register ts (insert t.name t registry)

  unfoldable pub register_all : List (List (Tool W)) → Dict (Tool W) → Dict (Tool W)
  unfolding register
  register_all [] registry = registry
  register_all (ts ∷ lists) registry = register_all lists (register ts registry)

  unfoldable pub new_registry : List (List (Tool W)) → Dict (Tool W)
  unfolding register_all
  new_registry lists = register_all lists []

-- ArgString, ArgInt and ArgBool: an absent key gives the default, and what json.Unmarshal refuses
-- is an error. `unmarshal` is the decoding at the type of the argument.
unfoldable pub arg : {T : Type 0} → (Text → Result Error T) → Args → Text → T → Result Error T
arg unmarshal args key def = elim (lookup key args) [
  | none ↦ Result.ok def
  | some raw ↦ unmarshal raw
]
