-- ===== src/Graph/Retry.antt =====
-- executeWithRetry of pkg/graph/runner.go: what it returns, and what it may cost.
use souz_go.Prelude.{
  ℕ, zero, suc, ◌-◌, ◌≤◌, ◌<◌, ◌≡◌, true, Option, none, Error, Result, arith, ℤ, pos, negsuc,
}
use souz_go.Graph.Defs.{Node}
use souz_go.Graph.Runner.{
  RetryPolicy, attempts_or_default, retries, attempt_loop, execute_with_retry,
}

-- The node fails `n` times in a row from `w`, each time with an error that ShouldRetry accepts, and
-- leaves the state `w'`; the context is not done before any of these attempts.
pub data Fails {W V : Type 0} (ctx_err : W → Option Error) (policy : RetryPolicy W V)
    (node : Node W V) (v : V) : ℕ → ℕ → W → W → Type 0 where
  never : {attempt : ℕ} {w : W} → Fails ctx_err policy node v attempt zero w w
  once_more :
      {attempt n : ℕ} {w w' w'' : W} (e : Error)
      → ctx_err w ≡ none
      → node.exec w v ≡ (w', Result.err e)
      → retries ctx_err policy e node attempt ≡ true
      → Fails ctx_err policy node v (suc attempt) n w' w''
      → Fails ctx_err policy node v attempt (suc n) w w''

module _ {W V : Type 0} (ctx_err : W → Option Error) (policy : RetryPolicy W V) (node : Node W V)
    (v : V) where
  attempt_loop_first_success :
      (left attempt n : ℕ) (w w' w'' : W) (out : V)
      → Fails ctx_err policy node v attempt n w w'
      → n ≤ left
      → ctx_err w' ≡ none
      → node.exec w' v ≡ (w'', Result.ok out)
      → attempt_loop ctx_err left attempt policy node w v ≡ (w'', Result.ok out)
  unfolding attempt_loop
  attempt_loop_first_success zero attempt n w w' w'' out never h c x = ground arith
  attempt_loop_first_success (suc left) attempt n w w' w'' out never h c x = ground arith
  attempt_loop_first_success zero attempt n w w' w'' out (once_more e c0 x0 r f) h c x =
      absurd (omega arith)
  attempt_loop_first_success (suc left) attempt n w w' w'' out
        (once_more {n = m} {w' = u} e c0 x0 r f) h c x =
      ground
        (arith, attempt_loop_first_success left (suc attempt) m u w' w'' out f (omega arith) c x)

  attempt_loop_last_error :
      (left attempt n : ℕ) (w w' w'' : W) (e : Error)
      → Fails ctx_err policy node v attempt n w w'
      → left ≡ n
      → ctx_err w' ≡ none
      → node.exec w' v ≡ (w'', Result.err e)
      → attempt_loop ctx_err left attempt policy node w v ≡ (w'', Result.err e)
  unfolding attempt_loop
  attempt_loop_last_error zero attempt n w w' w'' e never h c x = ground arith
  attempt_loop_last_error (suc left) attempt n w w' w'' e never h c x = absurd (omega arith)
  attempt_loop_last_error zero attempt n w w' w'' e (once_more e0 c0 x0 r f) h c x =
      absurd (omega arith)
  attempt_loop_last_error (suc left) attempt n w w' w'' e (once_more {n = m} {w' = u} e0 c0 x0 r f)
        h c x =
      ground (arith, attempt_loop_last_error left (suc attempt) m u w' w'' e f (omega arith) c x)

  -- Retries hide failures: after `n` failures that the policy retries, with fewer than the policy's
  -- attempts spent, a success of the next attempt is the result, and nothing is executed after it.
  pub execute_with_retry_succeeds :
      (n : ℕ) (w w' w'' : W) (out : V)
      → Fails ctx_err policy node v 1 n w w'
      → ctx_err w' ≡ none
      → n < attempts_or_default policy.max_attempts
      → node.exec w' v ≡ (w'', Result.ok out)
      → execute_with_retry ctx_err policy node w v ≡ (w'', Result.ok out)
  unfolding execute_with_retry
  execute_with_retry_succeeds n w w' w'' out f c h x =
      attempt_loop_first_success (attempts_or_default policy.max_attempts - 1) 1 n w w' w'' out f
        (omega arith) c x

  -- When all the policy's attempts but one have failed, a failure of the last one is final: its error
  -- is the result, and the node is not executed again, whatever ShouldRetry says of it.
  pub execute_with_retry_exhausted :
      (n : ℕ) (w w' w'' : W) (e : Error)
      → Fails ctx_err policy node v 1 n w w'
      → ctx_err w' ≡ none
      → suc n ≡ attempts_or_default policy.max_attempts
      → node.exec w' v ≡ (w'', Result.err e)
      → execute_with_retry ctx_err policy node w v ≡ (w'', Result.err e)
  unfolding execute_with_retry
  execute_with_retry_exhausted n w w' w'' e f c h x =
      attempt_loop_last_error (attempts_or_default policy.max_attempts - 1) 1 n w w' w'' e f
        (omega arith) c x

-- Run makes at least one attempt at every node.
pub attempts_positive : (n : ℤ) → 1 ≤ attempts_or_default n
unfolding attempts_or_default
attempts_positive (pos zero) = omega arith
attempts_positive (pos (suc n)) = omega arith
attempts_positive (negsuc n) = omega arith
