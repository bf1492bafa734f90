-- ===== src/Lib.antt =====
-- souz-go, an agent for embedded devices: the execution of its turns, and what the turns stand on.
--
-- Parts of the program, and the files that model them
--
-- * Graph.Defs and Graph.Runner model pkg/graph: nodes, conditional edges, and Runner.Run with its
--   work queue, step limit, retries and cancellation. A *Node is a number, its identity, with a
--   name and a function. A function of a node takes and returns the state of the world.
-- * Providers models pkg/providers/types.go, the conversation and the requests and responses.
-- * Agent.Context, Agent.Platform and Agent.Executor model pkg/agent: the context that flows along the
--   edges, what a turn uses of code outside this repository, and Execute.
-- * Providers.Anthropic and Providers.OpenaiCompat model pkg/providers/anthropic and
--   pkg/providers/openai_compat: the request, the response in one piece, and the stream of lines.
-- * Hooks and Tools model pkg/hooks and pkg/tools/tool.go; Tools.Calculator is pkg/tools/math, with
--   its grammar as trees in Tools.Calculator.Grammar. Tools.RunSkillCommand and Tools.SkillProcess
--   are pkg/tools/skills, with the system in the record Host.
-- * Nodes models pkg/agent/nodes, a file for each node; Nodes.Pipeline is BuildGraph. Pipeline.Turn is
--   the turn without a graph that BuildGraph is compared with. Nodes.Skills is the node of skills.go,
--   which the graph takes as an argument.
-- * Bus models pkg/bus as a step relation: the calls of Publish, the one of Close that takes effect,
--   and the readers take their steps in any order.
-- * Skills models pkg/skills: the bundle, its hash, its paths, SKILL.md and the loading of a
--   directory; the registry, as far as it reads; the selection by the model, the stages of the
--   validation, and the cache of verdicts. Skills.Services is what it uses of the standard library,
--   of the disk and of the registry.
-- * Storage models pkg/storage: a file for each chat, which may be missing or not decode.
-- * Http models the handler of messages of pkg/http/http.go, cut into steps that the steps of other
--   requests come between, and the map that keeps two turns of a chat apart; Http.Broadcast
--   models the subscribers of pkg/http/sse.go.
-- * Mcp models the calls of pkg/mcp/client.go, its pump and its Close as a step relation.
-- * Channels models the allow-list of pkg/channels/channel.go.
-- * Prelude holds what the modules share: Go strings as lists of bytes, maps as association lists
--   in an order that no caller may rely on, errors as chains, sorting, float64 as bits.
--
-- How the parts interact: Execute runs the graph of BuildGraph on a context. The nodes llm and
-- summarize call the model of Platform, toolloop the tools and the MCP clients, skills the packages
-- of pkg/skills. State passes from one call to the next as a value of the type World of the
-- platform, which also holds the files of the cache of verdicts.
--
-- Bounds and fuel
--
-- * Graph.Runner.drain is recursion on the steps that the limit leaves: each iteration of the loop
--   takes one, and the iteration that finds none left returns the error of the limit.
-- * The attempts of executeWithRetry are recursion on the attempts that the policy leaves.
-- * Prelude.Decimal writes a number n with fuel n + 1, and n has at most n + 1 digits.
-- * The parser of the calculator gets fuel 8 n + 8 for a text of n bytes: between two bytes that
--   are read there are at most seven calls.
-- * The buffers of the bus hold 64 messages.
-- * Go's int is a natural number where the code never makes it negative, and else a natural number or
--   its mirror image; no sum of this code comes near 2 ^ 63.
--
-- Not modelled
--
-- The code of models, transports, processes, clocks and codecs is a parameter: the fields of
-- Platform and of Services, Floats for the arithmetic of float64, and Codec of Storage for the JSON
-- of a chat, where IsJson of Storage.Json says what encoding/json documents. The texts that
-- fmt.Errorf formats are not modelled beyond what they wrap. Configuration, the other routes of the HTTP API,
-- the connections of the channels, the transports of MCP, the HTTP exchange of the providers, the
-- provider codex, the installation of bundles by SaveSkillBundle, and the tools files and web are
-- not modelled. Timeouts and delays of retries take no time in the model, but a cancellation may
-- come with any of them.
pub mod Prelude
pub mod Graph
pub mod Providers
pub mod Agent
pub mod Hooks
pub mod Tools
pub mod Nodes
mod Tests
pub mod Bus
pub mod Skills
pub mod Storage
pub mod Http
pub mod Mcp
pub mod Channels
