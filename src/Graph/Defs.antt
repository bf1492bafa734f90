-- ===== src/Graph/Defs.antt =====
-- pkg/graph/node.go and pkg/graph/definition.go. `W` is the state that the nodes act on (the outside
-- world and the context.Context), `V` stands for `any`.
use souz_go.Prelude.{
  ℕ, Bool, true, Option, none, some, List, [], ◌∷◌, ◌++◌, Text, Error, Result, ◌==◌, if◌then◌else◌,
}

-- A node is a pointer, which is its identity as a map key, and what it points to.
pub record Node (W V : Type 0) : Type 0 where
  pub ptr : ℕ
  pub name : Text
  pub exec : W → V → W × Result Error V

module _ {W V : Type 0} where
  -- The type assertion `in.(I)`, the zero value of `I`, and the conversion of `O` to `any`.
  unfoldable pub new_node :
      {I O : Type 0}
      → ℕ
      → Text
      → (V → Option I)
      → I
      → (O → V)
      → (W → I → W × Result Error O)
      → Node W V
  new_node ptr name typed zero_value to_any fn = record {
    ptr = ptr;
    name = name;
    exec = λ w v.
        let (w', r) = fn w (elim (typed v) [ some x ↦ x | none ↦ zero_value ]) in
        (w', elim r [ Result.ok out ↦ Result.ok (to_any out) | Result.err e ↦ Result.err e ]);
  }

-- A missing condition is an edge that is always followed.
pub record ConditionalEdge (W V : Type 0) : Type 0 where
  pub cond : Option (V → Bool)
  pub to : Node W V

-- map[*Node][]conditionalEdge; a missing key reads as the empty slice.
pub record Definition (W V : Type 0) : Type 0 where
  pub edges : ℕ → List (ConditionalEdge W V)

-- e.cond == nil || e.cond(out)
unfoldable pub followed : {V : Type 0} → Option (V → Bool) → V → Bool
followed none out = true
followed (some c) out = c out

module _ {W V : Type 0} where
  unfoldable pub new_definition : Definition W V
  new_definition = record { edges = λ p. [] }

  unfoldable pub append_edge : Definition W V → Node W V → ConditionalEdge W V → Definition W V
  append_edge d from e = record {
    edges = λ p. if p == from.ptr then d.edges p ++ e ∷ [] else d.edges p;
  }

  unfoldable pub add_edge : Definition W V → Node W V → Node W V → Definition W V
  unfolding append_edge
  add_edge d from to = append_edge d from (record { cond = none; to = to })

  unfoldable pub add_conditional_edge :
      Definition W V → Node W V → (V → Bool) → Node W V → Definition W V
  unfolding append_edge
  add_conditional_edge d from cond to = append_edge d from (record { cond = some cond; to = to })

  unfoldable pub enabled : List (ConditionalEdge W V) → V → List (Node W V)
  unfolding followed
  enabled [] out = []
  enabled (e ∷ es) out = if followed e.cond out then e.to ∷ enabled es out else enabled es out

  unfoldable pub next_nodes : Definition W V → Node W V → V → List (Node W V)
  unfolding enabled
  next_nodes d node out = enabled (d.edges node.ptr) out
