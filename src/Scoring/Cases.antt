-- ===== src/Scoring/Cases.antt =====
-- The score of one case: the ratio of the reported points to the reported total, clamped to
-- [0, 1], of the case's points in the package (scoring_service.py, the body of the first loop).
use judgeloom_core.Base.{String, ℕ, ◌*◌, ltb, ◌==◌, if◌then◌else◌, min}
use judgeloom_core.Base.Int.{ℤ, pos, pos_part}
use judgeloom_core.Models.{Verdict, Reported, ac, partial, is_ac, round4, round_half_even}

-- One entry of a worker's report.
pub record ReportedCase : Type 0 where
  pub case_number : ℕ
  pub status : Reported
  pub time_used : ℕ
  pub memory_used : ℕ
  pub points : ℤ
  pub total_points : ℤ
  pub feedback : String
  pub output : String

-- `x or y`
abbrev pub or_else : ℤ → ℕ → ℤ
or_else (pos ℕ.zero) y = pos y
or_else x y = x

-- The reported points, with what the verdict says of them.
abbrev pub reported_points : ℕ → Verdict → ℤ → ℤ → ℤ
reported_points maximum ac points total =
    if pos_part points == 0 then or_else total maximum else points
reported_points maximum partial points total = points
reported_points maximum _ points total = pos 0

-- round(maximum * min(max(reported / total, 0), 1), 4)
unfoldable pub scaled : ℕ → ℕ → ℕ → ℕ
scaled maximum reported total = round_half_even (maximum * min reported total) (total * 100) * 100

unfoldable pub case_score : ℕ → Verdict → ℤ → ℤ → ℕ
unfolding scaled
case_score maximum status points total_points =
    let total = or_else total_points maximum in
    if ltb 0 (pos_part total)
    then scaled maximum (pos_part (reported_points maximum status points total)) (pos_part total)
    else (if is_ac status then round4 maximum else 0)
