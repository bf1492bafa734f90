-- ===== src/Nodes/Mcp.antt =====
-- pkg/agent/nodes/mcp.go and classify.go
use souz_go.Prelude.{
  List, [], ◌∷◌, ◌++◌, none, some, Text, Result, Dict, keys, lookup, sort_texts, codes,
}
use souz_go.Providers.{ToolDefinition}
use souz_go.Tools.{Tool, to_definitions}
use souz_go.Agent.Context.{AgentContext, with_tools}
use souz_go.Agent.Platform.{Platform, ToolInfo}
use souz_go.Nodes.Common.{NodeFn}

unfoldable pub mcp_tool_name : Text → Text → Text
mcp_tool_name server_name tool_name = server_name ++ (codes "." ++ tool_name)

unfoldable pub mcp_definitions : Text → List ToolInfo → List ToolDefinition
unfolding mcp_tool_name
mcp_definitions name [] = []
mcp_definitions name (ti ∷ tis) =
    record {
      name = mcp_tool_name name ti.name;
      description = ti.description;
      input_schema = ti.input_schema;
    }
    ∷ mcp_definitions name tis

module _ (P : Platform) where
  open P use {World, Client}

  -- One server of the loop; a server that fails is skipped.
  unfoldable pub list_server : Text → Client → World → World × List ToolDefinition
  unfolding mcp_definitions
  list_server name client w =
      let (w', r) = P.list_tools client w in
      elim r [ Result.err e ↦ (w', []) | Result.ok infos ↦ (w', mcp_definitions name infos) ]

  -- The loop over the sorted names; every name is a key of the map.
  unfoldable pub list_servers : Dict Client → List Text → World → World × List ToolDefinition
  unfolding list_server
  list_servers clients [] w = (w, [])
  list_servers clients (n ∷ ns) w = elim (lookup n clients) [
    | none ↦ list_servers clients ns w
    | some client ↦
        let (w', defs) = list_server n client w in
        let (w'', rest) = list_servers clients ns w' in (w'', defs ++ rest)
  ]

  unfoldable pub merge_tools : AgentContext P.Sink → List ToolDefinition → AgentContext P.Sink
  merge_tools c [] = c
  merge_tools c (d ∷ ds) = with_tools c (c.active_tools ++ d ∷ ds)

  unfoldable pub mcp : Dict Client → NodeFn P
  unfolding list_servers merge_tools
  mcp [] w c = (w, Result.ok c)
  mcp (kv ∷ clients) w c =
      let (w', defs) = list_servers (kv ∷ clients) (sort_texts (keys (kv ∷ clients))) w in
      (w', Result.ok (merge_tools c defs))

  unfoldable pub classify : Dict (Tool World) → NodeFn P
  unfolding to_definitions
  classify registry w c = (w, Result.ok (with_tools c (to_definitions registry)))
