-- ===== src/Nodes/Summarize/Memory.antt =====
-- What a summary leaves of the history, and what the turn then answers.
use souz_go.Prelude.{
  ◌≡◌, not, ◌&&◌, List, [], ◌++◌, some, Text, text_eq, codes, arith, get_last?, if◌then◌else◌,
}
use souz_go.Providers.{Message, is_assistant}
use souz_go.Agent.Executor.{last_assistant_text}
use souz_go.Nodes.Summarize.{compacted, summarization_prefix}

-- The text of the turn's answer after a summary of a history that is not empty: that of the last
-- message if it is an assistant's message with a text, and else the memory dump itself.
pub last_assistant_text-compacted :
    (summary : Text) (history : List Message) (last : Message)
    → get_last? history ≡ some last
    → last_assistant_text (compacted summary history) ≡ (
        if is_assistant last.role && not (text_eq last.content [])
        then last.content
        else summarization_prefix ++ (codes "\n\n" ++ summary))
unfolding last_assistant_text compacted
last_assistant_text-compacted summary history last h = rw (h, compacted) (ground arith)
