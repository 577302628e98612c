-- ===== src/Ranking/Frozen.antt =====
-- The scoreboard after the freeze (apps/contests/services/ranking_service.py, `get_frozen_ranking`):
-- it tells nothing of what was submitted later.
use judgeloom_core.Base.{ℕ, ◌+◌, ◌≡◌, Option, none, some, List, [], ◌∷◌, ◌>>=◌}
use judgeloom_core.Models.{Submission, Contest, Participation, Store}

-- Two rows of one participation, whose stored standings may differ.
pub record IsAlike (p q : Participation) : Type 0 where
  pub same_id : p.id ≡ q.id
  pub same_user : p.user_id ≡ q.user_id
  pub same_start : p.virtual_start ≡ q.virtual_start

abbrev pub AreAlike : List Participation → List Participation → Type 0
AreAlike [] [] = Unit
AreAlike (p ∷ ps) (q ∷ qs) = IsAlike p q × AreAlike ps qs
AreAlike _ _ = ⊥

-- The time of the freeze, if the contest has one.
abbrev pub freeze_time : Contest → Option ℕ → Option ℕ
freeze_time c none = none
freeze_time c (some after) = some (c.start_time + after)

-- The database with another history of submissions, and with other standings calculated from it.
abbrev pub with_history : List Submission → List Participation → Store → Store
with_history subs rows db = record db { submissions = subs; participations = rows }
