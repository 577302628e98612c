-- ===== src/Formats/Locality.antt =====
-- A calculation reads the submissions only through `_submission_queryset`
-- (apps/contests/formats/base.py): two histories that give the same queries give the same
-- standing; and of the participation it reads no more than its keys and its start.
use judgeloom_core.Base.{
  ℕ, suc, ◌-◌, ◌/◌, ◌≡◌, refl, ap, ◌∙◌, Bool-cases, inl, inr, Option, some, List, [], ◌∷◌, ok,
  ◌>>=◌,
}
use judgeloom_core.Models.{Submission, Contest, ContestProblem, Participation, minute}
use judgeloom_core.Formats.Common.{submission_queryset, is_accepted, start_of}
use judgeloom_core.Formats.Default.{
  DefaultState, default_add, default_result, default_loop, default_calculate,
}
use judgeloom_core.Formats.Icpc.{
  wrong_penalty, is_skipped, icpc_scan, icpc_payload, IcpcState, icpc_add, icpc_result, icpc_loop,
  icpc_calculate,
}
use judgeloom_core.Formats.Ioi.{IoiState, ioi_add, ioi_result, ioi_loop, ioi_calculate}
use judgeloom_core.Formats.Atcoder.{
  AtcoderState, atcoder_add, atcoder_payload, atcoder_scan, atcoder_loop, atcoder_calculate,
}
use judgeloom_core.Formats.Ecoo.{
  EcooState, ecoo_summary, tries_per_problem, ecoo_add, ecoo_result, ecoo_loop, ecoo_calculate,
}
use judgeloom_core.Formats.Registry.{
  ContestFormat, default, icpc, ioi, atcoder, ecoo, calculate_participation,
}

module _ (c : Contest) (p p' : Participation) (begun : p.virtual_start ≡ p'.virtual_start) where
  default_result-same : (q : List Submission) → default_result c p q ≡ default_result c p' q
  unfolding default_result
  default_result-same q = ap (λ v. default_result c (record p { virtual_start = v }) q) begun

  icpc_scan-same :
      (q : List Submission) (wrong : ℕ) → icpc_scan c p q wrong ≡ icpc_scan c p' q wrong
  unfolding icpc_scan
  icpc_scan-same [] wrong = refl
  icpc_scan-same (s ∷ q) wrong = elim (Bool-cases (is_skipped s)) [
    | inl t ↦ rw (icpc_scan, t) (icpc_scan-same q wrong)
    | inr f ↦ elim (Bool-cases (is_accepted s)) [
      | inl t ↦
          rw (icpc_scan, f, t)
            (ap (λ v. (wrong, some ((s.created_at - start_of c v) / minute))) begun)
      | inr g ↦ rw (icpc_scan, f, g) (icpc_scan-same q (suc wrong))
    ]
  ]

  icpc_result-same : (q : List Submission) → icpc_result c p q ≡ icpc_result c p' q
  unfolding icpc_result
  icpc_result-same q =
      ap (icpc_payload (wrong_penalty c.format_config.wrong_penalty_minutes)) (icpc_scan-same q 0)

  atcoder_scan-same :
      (q : List Submission) (wrong : ℕ) → atcoder_scan c p q wrong ≡ atcoder_scan c p' q wrong
  unfolding atcoder_scan
  atcoder_scan-same [] wrong = refl
  atcoder_scan-same (s ∷ q) wrong = elim (Bool-cases (is_accepted s)) [
    | inl t ↦
        rw (atcoder_scan, t)
          (ap (λ v. (wrong, some ((s.created_at - start_of c v) / minute))) begun)
    | inr g ↦ rw (atcoder_scan, g) (atcoder_scan-same q (suc wrong))
  ]

module _ (c : Contest) (p p' : Participation) (begun : p.virtual_start ≡ p'.virtual_start)
    (subs subs' : List Submission) (freeze freeze' : Option ℕ)
    (same : (cp : ContestProblem)
      → submission_queryset subs p cp freeze ≡ submission_queryset subs' p' cp freeze') where
  default_loop-same :
      (cps : List ContestProblem) (st : DefaultState)
      → default_loop c subs p freeze cps st ≡ default_loop c subs' p' freeze' cps st
  unfolding default_loop
  default_loop-same [] st = refl
  default_loop-same (cp ∷ cps) st =
      ap (λ q. default_loop c subs p freeze cps (default_add st cp.label q))
        (default_result-same c p p' begun _ ∙ ap (default_result c p') (same cp))
      ∙ default_loop-same cps _

  icpc_loop-same :
      (cps : List ContestProblem) (st : IcpcState)
      → icpc_loop c subs p freeze cps st ≡ icpc_loop c subs' p' freeze' cps st
  unfolding icpc_loop
  icpc_loop-same [] st = refl
  icpc_loop-same (cp ∷ cps) st =
      ap (λ q. icpc_loop c subs p freeze cps (icpc_add st cp.label q))
        (icpc_result-same c p p' begun _ ∙ ap (icpc_result c p') (same cp))
      ∙ icpc_loop-same cps _

  ioi_loop-same :
      (cps : List ContestProblem) (st : IoiState)
      → ioi_loop subs p freeze cps st ≡ ioi_loop subs' p' freeze' cps st
  unfolding ioi_loop
  ioi_loop-same [] st = refl
  ioi_loop-same (cp ∷ cps) st =
      ap (λ q. ioi_loop subs p freeze cps (ioi_add st cp.label (ioi_result q))) (same cp)
      ∙ ioi_loop-same cps _

  atcoder_loop-same :
      (cps : List ContestProblem) (st : AtcoderState)
      → atcoder_loop c subs p freeze cps st ≡ atcoder_loop c subs' p' freeze' cps st
  unfolding atcoder_loop
  atcoder_loop-same [] st = refl
  atcoder_loop-same (cp ∷ cps) st =
      ap (λ q. atcoder_loop c subs p freeze cps (atcoder_add st cp (atcoder_payload cp.points q)))
        (atcoder_scan-same c p p' begun _ 0 ∙ ap (λ q. atcoder_scan c p' q 0) (same cp))
      ∙ atcoder_loop-same cps _

  ecoo_loop-same :
      (allowed : ℕ) (cps : List ContestProblem) (st : EcooState)
      → ecoo_loop allowed subs p freeze cps st ≡ ecoo_loop allowed subs' p' freeze' cps st
  unfolding ecoo_loop
  ecoo_loop-same allowed [] st = refl
  ecoo_loop-same allowed (cp ∷ cps) st =
      ap (λ q. ecoo_loop allowed subs p freeze cps (ecoo_add st cp.label (ecoo_result allowed q)))
        (same cp)
      ∙ ecoo_loop-same allowed cps _

  -- Equal queries give equal standings, in every format.
  pub calculate_participation-same :
      (format : ContestFormat) (cps : List ContestProblem)
      → calculate_participation format c cps subs p freeze
        ≡ calculate_participation format c cps subs' p' freeze'
  unfolding calculate_participation default_calculate icpc_calculate ioi_calculate atcoder_calculate
      ecoo_calculate
  calculate_participation-same default cps =
      rw
        (default_loop-same cps (record {
          total_score = 0;
          last_ac_seconds = 0;
          cumulative_time = 0;
          problem_results = [];
        }))
        refl
  calculate_participation-same icpc cps =
      rw (icpc_loop-same cps (record { solved = 0; penalty_minutes = 0; per_problem = [] })) refl
  calculate_participation-same ioi cps =
      rw (ioi_loop-same cps (record { total_score = 0; problem_results = [] })) refl
  calculate_participation-same atcoder cps =
      rw
        (atcoder_loop-same cps
          (record { total_points = 0; total_wrong = 0; last_ac_minutes = 0; per_problem = [] }))
        refl
  calculate_participation-same ecoo [] = refl
  calculate_participation-same ecoo (cp ∷ cps) =
      ap (λ run. tries_per_problem c.format_config.tries_per_problem >>= run)
        (λ i allowed. ok (
          ecoo_summary
            (ecoo_loop-same allowed (cp ∷ cps) (record { total_solved = 0; per_problem = [] }) i)))
