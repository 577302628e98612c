-- ===== src/Formats/Common.antt =====
-- apps/contests/formats/base.py: which submissions count for a participation and a problem, in
-- which order, and what the formats read of each.
use judgeloom_core.Base.{
  ℕ, ◌-◌, ◌≡◌, Bool, true, false, ◌&&◌, Option, none, some, List, arith, ltb, leb, ◌==◌,
  if◌then◌else◌, is_id, select, ap, sym, ◌∙◌, select_comm, select_all,
}
use judgeloom_core.Base.Sort.{IsOrder, sort_by}
use judgeloom_core.Models.{Submission, Contest, ContestProblem, Participation, Verdict, is_ac}

-- `order_by("created_at", "id")`
abbrev pub created_order : Submission → Submission → Bool
created_order a b =
    if ltb a.created_at b.created_at
    then true
    else (if ltb b.created_at a.created_at then false else leb a.id b.id)

pub created_order-IsOrder : IsOrder created_order
created_order-IsOrder = record { total = λ a b. ground arith; trans = λ a b c h k. ground arith }

-- `filter(contest_participation_id=…, user_id=…, problem_id=…)`
abbrev pub counts_for : Participation → ContestProblem → Submission → Bool
counts_for p cp s =
    is_id s.contest_participation p.id && s.user_id == p.user_id && s.problem_id == cp.problem_id

-- `filter(created_at__lte=freeze_time)`, if there is a freeze time
abbrev pub before_freeze : Option ℕ → Submission → Bool
before_freeze none s = true
before_freeze (some t) s = leb s.created_at t

-- `_submission_queryset`
unfoldable pub submission_queryset :
    List Submission → Participation → ContestProblem → Option ℕ → List Submission
submission_queryset subs p cp freeze =
    sort_by created_order (select (before_freeze freeze) (select (counts_for p cp) subs))

abbrev pub verdict_accepted : Option Verdict → Bool
verdict_accepted none = false
verdict_accepted (some v) = is_ac v

-- `_is_accepted`: without a verdict the status code decides, and no status code is among the
-- accepted tokens.
abbrev pub is_accepted : Submission → Bool
is_accepted s = verdict_accepted s.result

abbrev pub start_of : Contest → Option ℕ → ℕ
start_of c none = c.start_time
start_of c (some t) = t

-- `_submission_time_seconds`: subtraction stops at 0, as `max(_, 0.0)` does.
abbrev pub submission_time : Contest → Participation → Submission → ℕ
submission_time c p s = s.created_at - start_of c p.virtual_start

-- A frozen query reads only what was submitted by the freeze time.
pub submission_queryset-frozen :
    (subs : List Submission) (p : Participation) (cp : ContestProblem) (t : ℕ)
    → submission_queryset subs p cp (some t)
      ≡ submission_queryset (select (before_freeze (some t)) subs) p cp none
unfolding submission_queryset
submission_queryset-frozen subs p cp t = ap (sort_by created_order) (
    select_comm (before_freeze (some t)) (counts_for p cp) subs
    ∙ sym (select_all (select (counts_for p cp) (select (before_freeze (some t)) subs))))
