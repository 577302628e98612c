-- ===== src/Formats/BestPoints.antt =====
-- The best result of several submissions, in the default format (apps/contests/formats/default.py)
-- and in the IOI format (apps/contests/formats/ioi.py).
use judgeloom_core.Base.{
  ℕ, ◌≡◌, ◌∙◌, List, [], ◌∷◌, foldl, arith, max, ltb, ◌==◌, length, if◌then◌else◌,
}
use judgeloom_core.Base.Dict.{Dict, insert, get_or, lookup-insert}
use judgeloom_core.Models.{Submission, Contest, Participation}
use judgeloom_core.Formats.Common.{is_accepted, submission_time}
use judgeloom_core.Formats.Default.{default_step, default_result}
use judgeloom_core.Formats.Ioi.{merge_subtasks, ioi_update, ioi_scan, ioi_result}

-- The greatest points of a history, and the latest time of an accepted submission.
abbrev pub best_of : List Submission → ℕ
best_of [] = 0
best_of (s ∷ subs) = max s.points (best_of subs)

abbrev pub latest_ac : Contest → Participation → List Submission → ℕ
latest_ac c p [] = 0
latest_ac c p (s ∷ subs) =
    max (if is_accepted s then submission_time c p s else 0) (latest_ac c p subs)

default_totals-best :
    (c : Contest) (p : Participation) (subs : List Submission) (best ac : ℕ)
    → foldl (default_step c p) (best, ac) subs
      ≡ (max best (best_of subs), max ac (latest_ac c p subs))
default_totals-best c p [] best ac = ground arith
default_totals-best c p (s ∷ subs) best ac =
    default_totals-best c p subs (default_step c p (best, ac) s).0 (default_step c p (best, ac) s).1
    ∙ ground arith

-- In the default format a problem's points are the best of all its submissions, every one is an
-- attempt, and the time is that of the latest accepted one.
pub default_result-best :
    (c : Contest) (p : Participation) (subs : List Submission)
    → default_result c p subs ≡ record {
      points = best_of subs;
      attempts = length subs;
      ac_seconds = latest_ac c p subs;
      solved = ltb 0 (latest_ac c p subs);
    }
unfolding default_result
default_result-best c p subs = rw (default_totals-best c p subs 0 0) (ground arith)

-- The greatest value that a dictionary, or a history of them, gives to a subtask.
abbrev pub best_in : ℕ → Dict ℕ → ℕ
best_in k [] = 0
best_in k ((j, v) ∷ d) = max (if k == j then v else 0) (best_in k d)

abbrev pub best_subtask : ℕ → List Submission → ℕ
best_subtask k [] = 0
best_subtask k (s ∷ subs) = max (best_in k s.subtask_scores) (best_subtask k subs)

get_or-insert :
    (k j v : ℕ) (d : Dict ℕ) → get_or k 0 (insert j v d) ≡ (if k == j then v else get_or k 0 d)
get_or-insert k j v d = rw (lookup-insert k j v d, get_or) (ground arith)

merge_subtasks-best :
    (k : ℕ) (best d : Dict ℕ)
    → get_or k 0 (merge_subtasks best d) ≡ max (get_or k 0 best) (best_in k d)
unfolding merge_subtasks
merge_subtasks-best k best [] = ground arith
merge_subtasks-best k best ((j, v) ∷ d) =
    merge_subtasks-best k (insert j (max (get_or j 0 best) v) best) d
    ∙ ground (arith, get_or-insert k j (max (get_or j 0 best) v) best)

ioi_update-best :
    (k : ℕ) (st : Dict ℕ × ℕ) (d : Dict ℕ) (points : ℕ)
    → get_or k 0 (ioi_update st d points).0 ≡ max (get_or k 0 st.0) (best_in k d)
unfolding ioi_update
ioi_update-best k (best, pts) [] points = ground arith
ioi_update-best k (best, pts) (e ∷ d) points = merge_subtasks-best k best (e ∷ d)

ioi_scan-best :
    (k : ℕ) (subs : List Submission) (st : Dict ℕ × ℕ)
    → get_or k 0 (ioi_scan subs st).0 ≡ max (get_or k 0 st.0) (best_subtask k subs)
unfolding ioi_scan
ioi_scan-best k [] st = ground arith
ioi_scan-best k (s ∷ subs) st =
    ioi_scan-best k subs (ioi_update st s.subtask_scores s.points)
    ∙ ground (arith, ioi_update-best k st s.subtask_scores s.points)

-- In the IOI format each subtask has the best score that any submission reached in it, also when no
-- single submission reached them all.
pub ioi_result-best :
    (k : ℕ) (subs : List Submission) → get_or k 0 (ioi_result subs).subtasks ≡ best_subtask k subs
unfolding ioi_result
ioi_result-best k subs = ioi_scan-best k subs ([], 0) ∙ ground arith
