-- ===== src/Nodes/Enrich.antt =====
-- pkg/agent/nodes/enrich.go. The clock and the zone database are those of the platform.
pub mod Context
use souz_go.Prelude.{
  ◌&&◌, List, [], ◌∷◌, ◌++◌, Text, text_eq, Result, codes, contains, if◌then◌else◌,
}
use souz_go.Providers.{Message, Role, is_user, text_message}
use souz_go.Agent.Context.{InvocationMeta}
use souz_go.Agent.Platform.{Platform}
use souz_go.Nodes.Common.{NodeFn}

abbrev pub context_marker : Text
context_marker = codes "<context>"

unfoldable pub strip_context_messages : List Message → List Message
strip_context_messages [] = []
strip_context_messages (m ∷ msgs) =
    let out = strip_context_messages msgs in
    if is_user m.role && contains m.content context_marker then out else m ∷ out

unfoldable pub locale_line : Text → Text
locale_line locale = if text_eq locale [] then [] else codes "- Locale: " ++ (locale ++ codes "\n")

-- The first argument is the formatted date and time in the zone of the turn.
unfoldable pub build_context_message : Text → InvocationMeta → Message
unfolding locale_line
build_context_message date_time meta = text_message Role.user (
    context_marker
    ++ (codes
          "\nBackground information. Use ONLY if strictly relevant to the user query; otherwise ignore. Do not reference this block in your reply.\n"
        ++ (codes "---\n- Current date and time: "
            ++ (date_time ++ (codes "\n" ++ (locale_line meta.locale ++ codes "</context>"))))))

unfoldable pub enriched_history : Text → Text → InvocationMeta → List Message → List Message
unfolding strip_context_messages build_context_message
enriched_history input date_time meta history =
    let stripped = strip_context_messages history in
    if text_eq input []
    then stripped
    else stripped ++ build_context_message date_time meta ∷ text_message Role.user input ∷ []

unfoldable pub enrich : (P : Platform) → NodeFn P
unfolding enriched_history
enrich P w c = (
  w,
  Result.ok (record c {
    history =
        enriched_history c.input (P.date_time c.invocation_meta.time_zone w) c.invocation_meta
          c.history;
  }),
)
