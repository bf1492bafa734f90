-- ===== src/Nodes/Pipeline/Drain.antt =====
-- One node of a graph under the runner, where the queue holds no other frame.
use souz_go.Prelude.{
  ℕ, zero, suc, ◌+◌, ◌≡◌, false, Option, none, some, [], ◌∷◌, Error, Result, leb, arith, refl,
}
use souz_go.Graph.Defs.{Node, Definition, next_nodes}
use souz_go.Graph.Runner.{RetryPolicy, drain, frames, run_round, settle, execute_with_retry}
use souz_go.Nodes.Pipeline.Turn.{Phase, phase, finish}

module _ {W V : Type 0} (ctx_err : W → Option Error) (def : Definition W V) (limit : ℕ)
    (policy : RetryPolicy W V) where
  -- The queue holds one frame, and its successors when the node has run.
  abbrev pub Continues : Node W V → ℕ → Phase ctx_err limit policy → ℕ → ℕ → Type 0
  Continues n depth next step b =
      (b' : ℕ) (out : V) (w : W)
      → b ≡ suc b'
      → drain ctx_err def limit policy none (suc b') (suc step) (some out)
          (frames (next_nodes def n out) out (suc depth)) w
        ≡ some (next b' (some out) out w)

  pub drain-phase :
      (n : Node W V) (next : Phase ctx_err limit policy) (b step depth : ℕ) (last : Option V)
      (v : V) (w : W)
      → step + b ≡ limit
      → Continues n depth next step b
      → drain ctx_err def limit policy none
          (suc b)
          step
          last
          (record { node = n; input = v; depth = depth } ∷ [])
          w
        ≡ some (phase ctx_err limit policy n next b last v w)
  unfolding drain phase run_round settle
  drain-phase n next zero step depth last v w e h = ground arith
  drain-phase n next (suc b) step depth last v w e h =
      go (ctx_err w) refl (execute_with_retry ctx_err policy n w v) refl
    where
      below : leb limit step ≡ false
      below = ground arith

      go :
          (c : Option Error)
          → ctx_err w ≡ c
          → (x : W × Result Error V) → execute_with_retry ctx_err policy n w v ≡ x
          → drain ctx_err def limit policy none
              (suc (suc b))
              step
              last
              (record { node = n; input = v; depth = depth } ∷ [])
              w
            ≡ some (phase ctx_err limit policy n next (suc b) last v w)
      go (some e) p x q = ground arith
      go none p (w', Result.err e) q = rw (p, run_round, phase, below, q) (rw q refl)
      go none p (w', Result.ok out) q = rw (p, run_round, phase, below, q) (rw q (h b out w' refl))

  -- A node with no successor ends the run with its output.
  pub drain-finish :
      (n : Node W V) (b step depth : ℕ) (last : Option V) (v : V) (w : W)
      → step + b ≡ limit
      → ((out : V) → next_nodes def n out ≡ [])
      → drain ctx_err def limit policy none
          (suc b)
          step
          last
          (record { node = n; input = v; depth = depth } ∷ [])
          w
        ≡ some (phase ctx_err limit policy n (finish ctx_err limit policy) b last v w)
  drain-finish n b step depth last v w e h =
      drain-phase n (finish ctx_err limit policy) b step depth last v w e
        λ b' out w' _. rw (h out) (unfold drain frames finish in refl)

  -- A node with one successor hands its output on.
  pub drain-next :
      (n : Node W V) (next : Phase ctx_err limit policy) (b step depth : ℕ) (last : Option V)
      (v : V) (w : W)
      → step + b ≡ limit
      → ((b' : ℕ) (out : V) (w' : W)
          → b ≡ suc b'
          → (m : Node W V) × (next_nodes def n out ≡ m ∷ [])
            × (drain ctx_err def limit policy none
                  (suc b')
                  (suc step)
                  (some out)
                  (record { node = m; input = out; depth = suc depth } ∷ [])
                  w'
                ≡ some (next b' (some out) out w')))
      → drain ctx_err def limit policy none
          (suc b)
          step
          last
          (record { node = n; input = v; depth = depth } ∷ [])
          w
        ≡ some (phase ctx_err limit policy n next b last v w)
  drain-next n next b step depth last v w e h =
      drain-phase n next b step depth last v w e
        λ b' out w' eb. let (m, one, rest) = h b' out w' eb in rw one (unfold frames in rest)
