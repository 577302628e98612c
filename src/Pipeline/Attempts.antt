-- ===== src/Pipeline/Attempts.antt =====
-- How often a job goes out to a judge.
use judgeloom_core.Base.{ℕ, suc, Bool}
use judgeloom_core.Judge.Machine.{
  View, Moves, stays, moves, is_taken, begins, returns, succeeds, gives_up, is_reset,
}

-- The moves that took the job from the queue since it was reset last, or since the start.
abbrev pub takes : {resets : ℕ → Bool} {v w : View} → Moves resets v w → ℕ
takes stays = 0
takes (moves before (is_taken judge q)) = suc (takes before)
takes (moves before (begins c)) = takes before
takes (moves before (returns c left)) = takes before
takes (moves before (succeeds c)) = takes before
takes (moves before (gives_up c)) = takes before
takes (moves before (is_reset r)) = 0
