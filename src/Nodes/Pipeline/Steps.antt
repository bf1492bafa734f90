-- ===== src/Nodes/Pipeline/Steps.antt =====
-- How many steps a turn takes, and what the step limit does to a turn that needs more.
use souz_go.Prelude.{
  ℕ, zero, suc, ◌+◌, ◌*◌, ◌≤◌, ◌<◌, ◌≡◌, refl, Bool, true, false, Option, none, some, Error, Label,
  Result, arith,
}
use souz_go.Graph.Defs.{Node}
use souz_go.Graph.Runner.{RetryPolicy, Outcome, execute_with_retry}
use souz_go.Nodes.Pipeline.Turn.{Phase, phase, finish, after_llm, converse, turn}

module _ {W V : Type 0} (ctx_err : W → Option Error) (limit : ℕ) (policy : RetryPolicy W V) where
  -- The node runs from `w` on `v`, retries included, and returns `out`.
  abbrev pub Succeeds : Node W V → V → W → V → W → Type 0
  Succeeds n v w out w' =
      (ctx_err w ≡ none) × (execute_with_retry ctx_err policy n w v ≡ (w', Result.ok out))

  abbrev pub limit_error : Option Error
  limit_error = some (Error.wrap (Label.limit limit) Error.max_steps)

  -- The run has ended normally, or by the step limit.
  abbrev pub Ends : W × Outcome V → W → V → Type 0
  Ends o w' r = o ≡ (w', record { out = some r; error = none })

  abbrev pub Stops : W × Outcome V → Type 0
  Stops o = o.1.error ≡ limit_error

  -- With `need` steps the phase ends in `r`; with fewer the limit stops it.
  abbrev pub Takes : Phase ctx_err limit policy → ℕ → ℕ → Option V → V → W → V → W → Type 0
  Takes p need b last v w r w' =
      (need ≤ b → Ends (p b last v w) w' r) × (b < need → Stops (p b last v w))

  phase-Succeeds :
      (n : Node W V) (next : Phase ctx_err limit policy) (b : ℕ) (last : Option V) (v : V) (w : W)
      (out : V) (w1 : W)
      → Succeeds n v w out w1
      → phase ctx_err limit policy n next (suc b) last v w ≡ next b (some out) out w1
  unfolding phase
  phase-Succeeds n next b last v w out w1 (c, x) = rw (c, phase, x) (rw x)

  -- One node more is one step more.
  Takes-phase :
      (n : Node W V) (next : Phase ctx_err limit policy) (need need' b : ℕ) (last : Option V)
      (v : V) (w : W) (out : V) (w1 : W) (r : V) (w' : W)
      → Succeeds n v w out w1
      → need' ≡ suc need
      → ((b' : ℕ) → b ≡ suc b' → Takes next need b' (some out) out w1 r w')
      → Takes (phase ctx_err limit policy n next) need' b last v w r w'
  unfolding phase
  Takes-phase n next need need' zero last v w out w1 r w' (c, x) e ih =
      (λ h. absurd (omega arith), λ h. rw (c, phase))
  Takes-phase n next need need' (suc b) last v w out w1 r w' s e ih =
      rw (phase-Succeeds n next b last v w out w1 s)
        (λ h. (ih b refl).0 (omega arith), λ h. (ih b refl).1 (omega arith))

  Takes-finish : (b : ℕ) (v : V) (w : W) → Takes (finish ctx_err limit policy) 0 b (some v) v w v w
  unfolding finish
  Takes-finish b v w = (λ h. refl, λ h. absurd (omega arith))

  module _ (pending : V → Bool) (llm tools summarize : Node W V) where
    -- The conversation from `v` and `w` has `k` rounds of tools, and ends in `r` and `w'`; every
    -- node of it succeeds.
    pub data Talk : ℕ → V → W → V → W → Type 0 where
      answer :
          {v : V} {w : W} {out : V} {w1 : W} {r : V} {w' : W}
          → Succeeds llm v w out w1
          → pending out ≡ false
          → Succeeds summarize out w1 r w'
          → Talk zero v w r w'
      round :
          {k : ℕ} {v : V} {w : W} {out : V} {w1 : W} {out' : V} {w2 : W} {r : V} {w' : W}
          → Succeeds llm v w out w1
          → pending out ≡ true
          → Succeeds tools out w1 out' w2
          → Talk k out' w2 r w'
          → Talk (suc k) v w r w'

    abbrev conversation : ℕ → Phase ctx_err limit policy
    conversation = converse ctx_err limit policy pending llm tools summarize

    abbrev after : Phase ctx_err limit policy → Phase ctx_err limit policy
    after = after_llm ctx_err limit policy pending llm tools summarize

    Takes-converse :
        (rounds k b : ℕ) (last : Option V) (v : V) (w : W) (r : V) (w' : W)
        → Talk k v w r w'
        → b ≤ rounds
        → Takes (conversation rounds) (2 * k + 2) b last v w r w'
    unfolding converse after_llm phase
    Takes-converse zero zero zero last v w r w' (answer (c, x) p s) h =
        (λ k. absurd (omega arith), λ k. rw (c, phase))
    Takes-converse zero (suc k) zero last v w r w' (round (c, x) p s t) h =
        (λ k. absurd (omega arith), λ k. rw (c, phase))
    Takes-converse zero k (suc b) last v w r w' t h = absurd (omega arith)
    Takes-converse (suc rounds) _ b last v w r w' (answer {out = o} {w1 = u} l p s) h =
        Takes-phase llm (after (conversation rounds)) 1 2 b last v w o u r w' l refl λ b' e.
          rw (p, after_llm)
            (Takes-phase summarize (finish ctx_err limit policy) 0 1 b' (some o) o u r w' r w' s
              refl λ b'' e'. Takes-finish b'' r w')
    Takes-converse (suc rounds) _ b last v w r w'
          (round {k = k} {out = o} {w1 = u} {out' = o'} {w2 = u'} l p s t) h =
        Takes-phase llm (after (conversation rounds)) (2 * k + 3) (2 * suc k + 2) b last v w o u r
          w' l (omega arith)
          λ b' e.
            rw (p, after_llm)
              (Takes-phase tools (conversation rounds) (2 * k + 2) (2 * k + 3) b' (some o) o u o' u'
                r w' s (omega arith)
                λ b'' e'. Takes-converse rounds k b'' (some o') o' u' r w' t (omega arith))

    -- A turn with `k` rounds of tools takes 2k + 6 steps.
    pub turn_steps :
        (classify mcp skills enrich : Node W V) (k : ℕ) (v v1 v2 v3 v4 r : V) (w w1 w2 w3 w4 w' : W)
        → Succeeds classify v w v1 w1
        → Succeeds mcp v1 w1 v2 w2
        → Succeeds skills v2 w2 v3 w3
        → Succeeds enrich v3 w3 v4 w4
        → Talk k v4 w4 r w'
        → Takes
            (turn ctx_err limit policy pending llm tools summarize classify mcp skills enrich)
            (2 * k + 6)
            limit
            none
            v
            w
            r
            w'
    unfolding turn
    turn_steps classify mcp skills enrich k v v1 v2 v3 v4 r w w1 w2 w3 w4 w' s1 s2 s3 s4 t =
        let p3 = phase ctx_err limit policy enrich (conversation limit) in
        let p2 = phase ctx_err limit policy skills p3 in
        let p1 = phase ctx_err limit policy mcp p2 in
        Takes-phase classify p1 (2 * k + 5) (2 * k + 6) limit none v w v1 w1 r w' s1 (omega arith)
          λ b1 e1.
            Takes-phase mcp p2 (2 * k + 4) (2 * k + 5) b1 (some v1) v1 w1 v2 w2 r w' s2
              (omega arith)
              λ b2 e2.
                Takes-phase skills p3 (2 * k + 3) (2 * k + 4) b2 (some v2) v2 w2 v3 w3 r w' s3
                  (omega arith)
                  λ b3 e3.
                    Takes-phase enrich (conversation limit) (2 * k + 2) (2 * k + 3) b3 (some v3) v3
                      w3 v4 w4 r w' s4 (omega arith)
                      λ b4 e4. Takes-converse limit k b4 (some v4) v4 w4 r w' t (omega arith)
