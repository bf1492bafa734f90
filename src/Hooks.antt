-- ===== src/Hooks.antt =====
-- pkg/hooks/hooks.go: scripts around a turn. The goroutine that waits for a script, with its time
-- limit and its log line, runs outside; what the turn does is to start it.
use souz_go.Prelude.{Bool, true, false, Text, text_eq, [], if◌then◌else◌}

-- Config; `New` keeps it.
pub record Hooks : Type 0 where
  pub turn_start_script : Text
  pub turn_end_script : Text

module _ {W : Type 0} (run_script : Text → W → W) where
  unfoldable pub run_hook : Text → W → W
  run_hook script w = if text_eq script [] then w else run_script script w

  unfoldable pub start_turn : Hooks → W → W
  unfolding run_hook
  start_turn h w = run_hook h.turn_start_script w

  -- The function that StartTurn returns, with the state of its sync.Once.
  unfoldable pub end_turn : Hooks → Bool → W → Bool × W
  unfolding run_hook
  end_turn h true w = (true, w)
  end_turn h false w = (true, run_hook h.turn_end_script w)
