-- ===== src/Shadow/Outcome.antt =====
-- The verdict of a replay (apps/judge/services/shadow_job_service.py, `finish`).
use judgeloom_core.Base.{
  ℕ, ◌≡◌, ◌≤◌, ◌<◌, ◌↔◌, ◌≢◌, ◌∙◌, refl, sym, ap, Bool, true, false, Option, some, List, [], ◌∷◌,
  arith, length, count_where, String,
}
use judgeloom_core.Models.{Reported, known, ac}
use judgeloom_core.Scoring.Cases.{ReportedCase}
use judgeloom_core.Shadow.Jobs.{ShadowJob}
use judgeloom_core.Shadow.Callbacks.{
  is_accepted_case, first_failure, shadow_result, finished_shadow,
}

accepted-le_total : (cs : List ReportedCase) → count_where is_accepted_case cs ≤ length cs
accepted-le_total [] = omega arith
accepted-le_total (c ∷ cs) = ground (arith, accepted-le_total cs)

passed-first_failure :
    (cs : List ReportedCase)
    → count_where is_accepted_case cs ≡ length cs
    → first_failure cs ≡ known ac
passed-first_failure [] h = refl
passed-first_failure (c ∷ cs) h = ground (arith, passed-first_failure cs, accepted-le_total cs)

unaccepted : (c : ReportedCase) → is_accepted_case c ≡ false → c.status ≢ known ac
unaccepted c h e = absurd (true-≢-false (sym (ap accepted_report e) ∙ h))
  where
    true-≢-false : true ≢ false
    true-≢-false e = cc

    accepted_report : Reported → Bool
    accepted_report (known ac) = true
    accepted_report _ = false

first_failure-passed :
    (cs : List ReportedCase)
    → first_failure cs ≡ known ac
    → count_where is_accepted_case cs ≡ length cs
first_failure-passed [] h = refl
first_failure-passed (c ∷ cs) h = ground (arith, first_failure-passed cs, unaccepted c)

shadow_result-nonempty :
    (cs : List ReportedCase) (payload : Option Reported)
    → 0 < length cs
    → shadow_result cs payload ≡ first_failure cs
shadow_result-nonempty [] payload h = absurd (omega (arith, h))
shadow_result-nonempty (c ∷ cs) payload h = refl

-- A replay that reported a case is AC exactly when every reported case is accepted, and its counts
-- then agree.
pub finished_shadow-ac :
    (now : ℕ) (payload : Option Reported) (message : String) (j : ShadowJob)
    → 0 < length j.case_results
    → ((finished_shadow now payload message j).result ≡ some (known ac)) ↔ (
        (finished_shadow now payload message j).case_passed
        ≡ (finished_shadow now payload message j).case_total)
unfolding finished_shadow
finished_shadow-ac now payload message j h =
    let same = shadow_result-nonempty j.case_results payload h in
    (
      λ e. first_failure-passed j.case_results (cc (e, same)),
      λ e. ap some (same ∙ passed-first_failure j.case_results e),
    )
