-- ===== src/Tests/Runner.antt =====
-- pkg/graph and pkg/tools at concrete inputs.
use souz_go.Prelude.{
  ℕ, suc, ◌+◌, ◌*◌, ◌≤◌, ◌≡◌, refl, true, false, Option, none, some, [], ◌∷◌, Error, Label, Result,
  pos, codes, ltb, arith, Dict, Text, text_eq, text_eq→eq, keys, lookup, if◌then◌else◌,
}
use mathlib.Core.List.{Permᴰ}
use souz_go.Graph.Defs.{Node, Definition, next_nodes}
use souz_go.Graph.Runner.{
  RetryPolicy, Outcome, run, execute_with_retry, attempt_loop, retries, notify, attempts_or_default,
  step_limit_or_default,
}
use souz_go.Graph.Retry.{
  Fails, never, once_more, execute_with_retry_succeeds, execute_with_retry_exhausted,
}
use souz_go.Graph.Bounds.{run_total}
use souz_go.Graph.Cost.{run_cost}
use souz_go.Tools.{Tool, to_definitions}
use souz_go.Tools.Registry.{to_definitions-perm}

-- The state counts the executions; the first two fail.
abbrev flaky : Node ℕ ℕ
flaky = record {
  ptr = 0;
  name = codes "flaky";
  exec = λ w v. (suc w, if ltb w 2 then Result.err (Error.other []) else Result.ok (v + 1));
}

abbrev alive : ℕ → Option Error
alive w = none

abbrev thrice : RetryPolicy ℕ ℕ
thrice = record { max_attempts = pos 3; should_retry = some (λ e n attempt. true) }

abbrev twice : RetryPolicy ℕ ℕ
twice = record { max_attempts = pos 2; should_retry = some (λ e n attempt. true) }

two_failures : Fails alive thrice flaky 5 1 2 0 2
unfolding retries
two_failures =
    once_more (Error.other []) refl refl refl (once_more (Error.other []) refl refl refl never)

execute_with_retry_succeeds_example : execute_with_retry alive thrice flaky 0 5 ≡ (3, Result.ok 6)
unfolding attempts_or_default
execute_with_retry_succeeds_example =
    execute_with_retry_succeeds alive thrice flaky 5 2 0 2 3 6 two_failures refl (omega arith) refl

one_failure : Fails alive twice flaky 5 1 1 0 1
unfolding retries
one_failure = once_more (Error.other []) refl refl refl never

execute_with_retry_exhausted_example :
    execute_with_retry alive twice flaky 0 5 ≡ (2, Result.err (Error.other []))
unfolding attempts_or_default
execute_with_retry_exhausted_example =
    execute_with_retry_exhausted alive twice flaky 5 1 0 1 2 (Error.other []) one_failure refl refl
      refl

-- A loop of one node: the step limit ends it.
abbrev looping : Definition ℕ ℕ
looping = record { edges = λ p. record { cond = none; to = flaky } ∷ [] }

run_total_example : (r : ℕ × Outcome ℕ) × (run alive flaky 0 looping (pos 5) thrice none 0 ≡ some r)
run_total_example = run_total alive flaky 0 looping (pos 5) thrice none 0

looping_lem :
    run alive flaky 0 looping (pos 2) thrice none 0
    ≡ some (4, record { out = some 2; error = some (Error.wrap (Label.limit 2) Error.max_steps) })
unfolding run execute_with_retry attempt_loop attempts_or_default next_nodes
looping_lem = refl

run_cost_example : 4 ≤ 0 + 2 * 3
unfolding attempts_or_default step_limit_or_default notify
run_cost_example =
    run_cost (λ w. w) alive flaky 0 looping (pos 2) thrice none 0 4
      (record { out = some 2; error = some (Error.wrap (Label.limit 2) Error.max_steps) })
      (λ u info n x y. omega arith) (λ p. (λ w v. omega arith, tt)) (λ w v. omega arith) looping_lem

abbrev tool_named : Text → Text → Tool ℕ
tool_named n d = record {
  name = n;
  description = d;
  schema = [];
  execute = λ args meta w. (w, Result.ok d);
}

abbrev old_a : Tool ℕ
old_a = tool_named (codes "a") (codes "old")

abbrev new_a : Tool ℕ
new_a = tool_named (codes "a") (codes "new")

abbrev only_b : Tool ℕ
only_b = tool_named (codes "b") []

abbrev a_first : Dict (Tool ℕ)
a_first = (codes "a", old_a) ∷ (codes "b", only_b) ∷ []

abbrev b_first : Dict (Tool ℕ)
b_first = (codes "b", only_b) ∷ (codes "a", old_a) ∷ []

-- Where the keys differ, the order in which they are asked for does not matter.
lookup-swap :
    (k : Text) (j i : Text) (t u : Tool ℕ)
    → text_eq j i ≡ false
    → lookup k ((j, t) ∷ (i, u) ∷ []) ≡ lookup k ((i, u) ∷ (j, t) ∷ [])
unfolding lookup
lookup-swap k j i t u h = ground (arith, text_eq→eq j k, text_eq→eq i k)

to_definitions-perm_example : to_definitions a_first ≡ to_definitions b_first
unfolding keys
to_definitions-perm_example =
    to_definitions-perm a_first b_first (Permᴰ.swap refl refl)
      (λ k. lookup-swap k (codes "a") (codes "b") old_a only_b refl)
