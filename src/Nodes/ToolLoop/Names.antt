-- ===== src/Nodes/ToolLoop/Names.antt =====
-- The names under which the tools of MCP servers are advertised, and how a call finds its server.
use souz_go.Prelude.{
  Bool, true, Option, Result, codes, ℕ, suc, ◌≡◌, ◌≢◌, refl, [], ◌∷◌, ◌++◌, none, some, Text, Dict,
  lookup, length, take, drop, index_byte, arith, All, length-append, append_assoc,
}
use souz_go.Providers.{ToolCall}
use souz_go.Tools.{Tool}
use souz_go.Agent.Context.{InvocationMeta, Event}
use souz_go.Agent.Platform.{Platform, emit_to}
use souz_go.Nodes.Mcp.{mcp_tool_name}
use souz_go.Nodes.ToolLoop.{
  split_mcp_tool_name, mcp_target, execute_tool, execute_mcp_tool, no_such_tool, tool_reply,
}

-- No byte of the text is a '.'.
abbrev pub HasNoDot : Text → Type 0
HasNoDot = All (λ c. c ≢ b'.')

index_byte-dot : (s t : Text) → HasNoDot s → index_byte (s ++ b'.' ∷ t) b'.' ≡ some (length s)
index_byte-dot [] t h = refl
index_byte-dot (c ∷ s) t (hc, hs) = ground (arith, index_byte-dot s t hs)

take-dot : (s t : Text) → take (length s) (s ++ t) ≡ s
take-dot [] t = refl
take-dot (c ∷ s) t = cc (take-dot s t)

drop-dot : (s : Text) (c : ℕ) (t : Text) → drop (suc (length s)) (s ++ c ∷ t) ≡ t
drop-dot [] c t = refl
drop-dot (d ∷ s) c t = drop-dot s c t

split-append :
    (s t : Text) → s ≢ [] → t ≢ [] → HasNoDot s → split_mcp_tool_name (s ++ b'.' ∷ t) ≡ some (s, t)
unfolding split_mcp_tool_name
split-append [] t hs ht h = absurd (hs refl)
split-append (c ∷ s) [] hs ht h = absurd (ht refl)
split-append (c ∷ s) (d ∷ t) hs ht h = ground (
  arith,
  index_byte-dot (c ∷ s) (d ∷ t) h,
  length-append s (b'.' ∷ d ∷ t),
  take-dot s (b'.' ∷ d ∷ t),
  drop-dot s b'.' (d ∷ t),
)

append-ne-nil : (s : Text) (c : ℕ) (t : Text) → s ++ c ∷ t ≢ []
append-ne-nil [] c t = λ e. cc
append-ne-nil (d ∷ s) c t = λ e. cc

-- The server that a name may mean: none where the name is empty.
abbrev pub client_of : {C : Type 0} → Text → Dict C → Option C
client_of [] cs = none
client_of (c ∷ s) cs = lookup (c ∷ s) cs

mcp_target-mcp_tool_name :
    (P : Platform) (clients : Dict P.Client) (server tool : Text) (client : P.Client)
    → server ≢ []
    → tool ≢ []
    → HasNoDot server
    → lookup server clients ≡ some client
    → mcp_target P clients (mcp_tool_name server tool) ≡ some (client, tool)
unfolding mcp_target mcp_tool_name
mcp_target-mcp_tool_name P clients server tool client hs ht h found =
    ground (arith, split-append server tool hs ht h)

mcp_target-dotted :
    (P : Platform) (clients : Dict P.Client) (front back tool : Text)
    → HasNoDot front
    → mcp_target P clients (mcp_tool_name (front ++ b'.' ∷ back) tool)
      ≡ elim (client_of front clients) [
        | none ↦ none
        | some client ↦ some (client, back ++ b'.' ∷ tool)
      ]
unfolding mcp_target mcp_tool_name split_mcp_tool_name
mcp_target-dotted P clients [] back tool h = refl
mcp_target-dotted P clients (c ∷ s) back tool h = ground (
  arith,
  split-append (c ∷ s) (back ++ b'.' ∷ tool) (λ e. cc) (append-ne-nil back b'.' tool) h,
  append_assoc (c ∷ s) (b'.' ∷ back) (b'.' ∷ tool),
)

module _ (P : Platform) (sink : Option P.Sink) where
  -- A tool's answer goes to the sink and to the model.
  abbrev pub answered_with : ToolCall → Text → Bool → P.World → P.World × Text
  answered_with call text is_error w =
      (emit_to P sink (Event.tool_result call.name text is_error) w, text)

  -- What a call is, of this tool of the server of this client.
  abbrev pub called_on : P.Client → Text → ToolCall → P.World → P.World × Text
  called_on client tool call w =
      let (w', r) =
        P.call_tool client tool call.args
          (emit_to P sink (Event.tool_call call.name call.args) w) in
      elim r [
        | Result.err e ↦ answered_with call (P.error_text e) true w'
        | Result.ok (text, is_error) ↦ answered_with call text is_error w'
      ]

  -- What a call is that finds no tool.
  abbrev pub called_nowhere : ToolCall → P.World → P.World × Text
  called_nowhere call w =
      answered_with call (codes "no such tool: " ++ call.name) true
        (emit_to P sink (Event.tool_call call.name call.args) w)

  -- A call by the name that the mcp node advertises for a tool of a server is a call of that tool by
  -- its own name, with the arguments of the call, at that server's client, whose answer or error
  -- goes to the sink and to the model. The server's name is not empty and holds no '.', the
  -- tool's name is not empty, and no local tool has the advertised name.
  pub execute_tool-mcp_tool_name :
      (registry : Dict (Tool P.World)) (clients : Dict P.Client) (server tool : Text)
      (client : P.Client) (call : ToolCall) (meta : InvocationMeta) (w : P.World)
      → server ≢ []
      → tool ≢ []
      → HasNoDot server
      → lookup server clients ≡ some client
      → call.name ≡ mcp_tool_name server tool
      → lookup call.name registry ≡ none
      → execute_tool P registry clients call meta sink w ≡ called_on client tool call w
  unfolding execute_tool execute_mcp_tool tool_reply
  execute_tool-mcp_tool_name registry clients server tool client call meta w hs ht h found name
        local =
      let target : mcp_target P clients call.name ≡ some (client, tool) =
        rw name (mcp_target-mcp_tool_name P clients server tool client hs ht h found) in
      ground (arith, local, target)

  -- A tool of a server whose name holds a '.' is not called by its advertised name: a call by the
  -- name that is advertised for a tool of `front.back`, where `front` may be empty and holds no
  -- '.', is a call of the tool `back.tool` at the client of the server `front`, or finds no tool
  -- where there is no such server or `front` is empty. No local tool has the advertised name.
  pub execute_tool-dotted :
      (registry : Dict (Tool P.World)) (clients : Dict P.Client) (front back tool : Text)
      (call : ToolCall) (meta : InvocationMeta) (w : P.World)
      → HasNoDot front
      → call.name ≡ mcp_tool_name (front ++ b'.' ∷ back) tool
      → lookup call.name registry ≡ none
      → execute_tool P registry clients call meta sink w ≡ elim (client_of front clients) [
        | none ↦ called_nowhere call w
        | some client ↦ called_on client (back ++ b'.' ∷ tool) call w
      ]
  unfolding execute_tool execute_mcp_tool no_such_tool tool_reply
  execute_tool-dotted registry clients front back tool call meta w h name local =
      let target : mcp_target P clients call.name ≡ elim (client_of front clients) [
        | none ↦ none
        | some client ↦ some (client, back ++ b'.' ∷ tool)
      ] =
        rw name (mcp_target-dotted P clients front back tool h) in
      ground (arith, local, target)
