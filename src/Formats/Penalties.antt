-- ===== src/Formats/Penalties.antt =====
-- What the ICPC format (apps/contests/formats/icpc.py) makes of a history of submissions.
use judgeloom_core.Base.{
  ℕ, suc, ◌+◌, ◌*◌, ◌/◌, ◌≡◌, ap, ◌∙◌, Bool, true, false, not, ◌&&◌, none, some, List, [], ◌∷◌,
  ◌++◌, arith, count_where, All, if◌then◌else◌,
}
use judgeloom_core.Models.{Submission, Contest, Participation, minute, whole}
use judgeloom_core.Formats.Common.{is_accepted, submission_time}
use judgeloom_core.Formats.Icpc.{wrong_penalty, is_skipped, icpc_scan, icpc_payload, icpc_result}

-- A submission that costs penalty time once the problem is solved.
abbrev pub is_wrong : Submission → Bool
is_wrong s = not (is_skipped s) && not (is_accepted s)

accepted-unskipped : (s : Submission) → is_accepted s ≡ true → is_skipped s ≡ false
accepted-unskipped s h = ground arith

module _ (c : Contest) (p : Participation) where
  icpc_scan_step :
      (s : Submission) (subs : List Submission) (wrong : ℕ)
      → icpc_scan c p (s ∷ subs) wrong ≡ (
          if is_skipped s
          then icpc_scan c p subs wrong
          else (if is_accepted s
              then (wrong, some (submission_time c p s / minute))
              else icpc_scan c p subs (suc wrong)))
  unfolding icpc_scan
  icpc_scan_step s subs wrong = ground arith

  icpc_scan-unsolved :
      (subs : List Submission) (wrong : ℕ)
      → All (λ s. is_accepted s ≡ false) subs
      → icpc_scan c p subs wrong ≡ (wrong + count_where is_wrong subs, none)
  unfolding icpc_scan
  icpc_scan-unsolved [] wrong h = ground arith
  icpc_scan-unsolved (s ∷ subs) wrong h =
      icpc_scan_step s subs wrong
      ∙ ground (arith, icpc_scan-unsolved subs wrong h.1, icpc_scan-unsolved subs (suc wrong) h.1)

  icpc_scan-solved :
      (before : List Submission) (s : Submission) (after : List Submission) (wrong : ℕ)
      → All (λ s. is_accepted s ≡ false) before
      → is_accepted s ≡ true
      → icpc_scan c p (before ++ (s ∷ after)) wrong
        ≡ (wrong + count_where is_wrong before, some (submission_time c p s / minute))
  icpc_scan-solved [] s after wrong h a =
      icpc_scan_step s after wrong ∙ rw (accepted-unskipped s a, a) (ground arith)
  icpc_scan-solved (r ∷ before) s after wrong h a =
      icpc_scan_step r (before ++ (s ∷ after)) wrong
      ∙ ground (
        arith,
        icpc_scan-solved before s after wrong h.1 a,
        icpc_scan-solved before s after (suc wrong) h.1 a,
      )

  -- The first accepted submission decides: its minute, with a penalty for each earlier submission
  -- that is neither accepted nor CE nor IE; what comes after it counts for nothing.
  pub icpc_result-solved :
      (before : List Submission) (s : Submission) (after : List Submission)
      → All (λ s. is_accepted s ≡ false) before
      → is_accepted s ≡ true
      → icpc_result c p (before ++ (s ∷ after)) ≡ record {
        points = whole 1;
        attempts = count_where is_wrong before + 1;
        wrong_attempts = count_where is_wrong before;
        solved = true;
        solve_minutes = submission_time c p s / minute;
        penalty_minutes =
            submission_time c p s / minute
            + count_where is_wrong before * wrong_penalty c.format_config.wrong_penalty_minutes;
      }
  unfolding icpc_result
  icpc_result-solved before s after h a =
      ap (icpc_payload (wrong_penalty c.format_config.wrong_penalty_minutes)) (
        icpc_scan-solved before s after 0 h a
        ∙ ap (λ n. (n, some (submission_time c p s / minute))) (omega arith))

  -- A problem without an accepted submission gives no point and no penalty, however many attempts
  -- were wrong.
  pub icpc_result-unsolved :
      (subs : List Submission)
      → All (λ s. is_accepted s ≡ false) subs
      → icpc_result c p subs ≡ record {
        points = 0;
        attempts = count_where is_wrong subs;
        wrong_attempts = count_where is_wrong subs;
        solved = false;
        solve_minutes = 0;
        penalty_minutes = 0;
      }
  unfolding icpc_result
  icpc_result-unsolved subs h =
      ap (icpc_payload (wrong_penalty c.format_config.wrong_penalty_minutes))
        (icpc_scan-unsolved subs 0 h)
      ∙ ground arith
