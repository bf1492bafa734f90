-- ===== src/Prelude/Errors.antt =====
-- Go's error chains. The text that `fmt.Errorf` formats is not modelled: a wrapper keeps what it
-- names, and `errors.Is` walks down to the error that was wrapped first.
use Prim.Native.Nat.{ℕ}
use mathlib.Core.Bool.{Bool, true, false}
use souz_go.Prelude.Strings.{Text}

-- What a `fmt.Errorf("… %w", err)` adds to the error.
pub data Label : Type 0 where
  -- graph node %q
  graph_node : Text → Label
  -- (limit=%d)
  limit : ℕ → Label
  -- a fixed prefix
  stage : Text → Label

pub data Error : Type 0 where
  -- context.Canceled and context.DeadlineExceeded
  canceled deadline_exceeded : Error
  -- graph.ErrMaxSteps
  max_steps : Error
  -- bus.ErrBusClosed
  bus_closed : Error
  -- any other error
  other : Text → Error
  wrap : Label → Error → Error

-- errors.Is(err, context.Canceled)
unfoldable pub is_canceled : Error → Bool
is_canceled canceled = true
is_canceled (wrap l e) = is_canceled e
is_canceled _ = false
