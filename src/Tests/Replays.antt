-- ===== src/Tests/Replays.antt =====
-- The replay of a submission, from its claim to its verdict.
use judgeloom_core.Base.{
  ℕ, ◌≡◌, ◌↔◌, refl, arith, true, false, Option, none, some, List, [], ◌∷◌, All, first, select,
  is_id, ◌==◌, Result, ok, err,
}
use judgeloom_core.Models.{ac, wa, whole}
use judgeloom_core.Shadow.Jobs.{
  ShadowJob, shadow_config, new_shadow_job, claimed_shadow, claim_shadow,
}
use judgeloom_core.Shadow.Callbacks.{starts, recorded_shadow, call_shadow}
use judgeloom_core.Shadow.Exclusive.{IsOnlyRow, IsFor, claim_shadow-exclusive}
use judgeloom_core.Submissions.Create.{new_submission}
use judgeloom_core.Tests.Data.{request, problem, pack, reported}

abbrev queued_replay : ShadowJob
queued_replay =
    new_shadow_job 1 (new_submission request 100 (whole 60)) (some pack) (some 7)
      (shadow_config none problem (new_submission request 100 (whole 60))) (whole 61)

abbrev held_replay : ShadowJob
held_replay = claimed_shadow 7 (whole 70) queued_replay

claim_ok :
    claim_shadow [] 7 (5 ∷ []) (whole 70) (queued_replay ∷ [])
    ≡ (held_replay ∷ [], some held_replay)
unfolding claim_shadow judgeloom_core.Base.Sort.sort_by new_submission
claim_ok = refl

replay-IsOnlyRow : All (IsOnlyRow held_replay) (held_replay ∷ [])
replay-IsOnlyRow = (λ e. refl, tt)

claim_shadow-exclusive_example :
    All (IsOnlyRow held_replay) (claim_shadow [] 8 (5 ∷ []) (whole 80) (held_replay ∷ [])).0
    × IsFor 8 held_replay (claim_shadow [] 8 (5 ∷ []) (whole 80) (held_replay ∷ [])).1
claim_shadow-exclusive_example =
    claim_shadow-exclusive [] 8 (5 ∷ []) (whole 80) held_replay (held_replay ∷ []) refl refl
      replay-IsOnlyRow

abbrev jobs_or : Result (List ShadowJob) → List ShadowJob
jobs_or (ok jobs) = jobs
jobs_or (err e) = []

abbrev started_replays : List ShadowJob
started_replays = jobs_or (call_shadow 1 7 (whole 71) starts (held_replay ∷ []))

replay_started : call_shadow 1 7 (whole 71) starts (held_replay ∷ []) ≡ ok started_replays
unfolding call_shadow
replay_started = refl

abbrev judged_replay : ShadowJob
judged_replay = recorded_shadow (whole 72) (reported 1 ac 1 ∷ reported 2 wa 0 ∷ []) held_replay
