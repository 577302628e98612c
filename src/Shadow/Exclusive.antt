-- ===== src/Shadow/Exclusive.antt =====
-- Who may replay a job (apps/judge/services/shadow_job_service.py): a claim is for its target judge,
-- leaves the jobs that others hold, and only the holder moves a job.
use judgeloom_core.Base.{
  ℕ, ◌≡◌, refl, subst, true, false, Option, none, some, List, arith, ◌==◌, is_id, select, first,
  All, All-update_where, All-weaken, select-holds, first-holds, ok, ◌>>◌, >>=-eq-ok, >>-eq-ok,
}
use judgeloom_core.Base.Sort.{sort_by, All-sort_by}
use judgeloom_core.Models.{is_active_status}
use judgeloom_core.Judge.Leases.{lease_before}
use judgeloom_core.Shadow.Jobs.{
  ShadowJob, is_stale_shadow, requeued_shadow, requeue_stale, targets, shadow_order, may_replay,
  next_shadow, claimed_shadow, save_shadow, take_shadow, claim_shadow,
}
use judgeloom_core.Shadow.Callbacks.{
  found_shadow, lock_shadow, assert_shadow_owned, ShadowCallback, moved_shadow, call_shadow,
}

-- The rows with the id of `j` are `j` itself.
abbrev pub IsOnlyRow : ShadowJob → ShadowJob → Type 0
IsOnlyRow j r = (r.id == j.id) ≡ true → r ≡ j

-- A claimed job is for the judge, and is not `j`.
abbrev pub IsFor : ℕ → ShadowJob → Option ShadowJob → Type 0
IsFor judge j none = Unit
IsFor judge j (some t) = (targets t.target_judge judge ≡ true) × ((t.id == j.id) ≡ false)

requeue_stale-IsOnlyRow :
    (locked : List ℕ) (now : ℕ) (j : ShadowJob) (jobs : List ShadowJob)
    → lease_before now j.lease_expires_at ≡ false
    → All (IsOnlyRow j) jobs
    → All (IsOnlyRow j) (requeue_stale locked now jobs)
unfolding requeue_stale
requeue_stale-IsOnlyRow locked now j jobs fresh h =
    All-update_where (IsOnlyRow j) (is_stale_shadow locked now) requeued_shadow
      (λ r stale row e.
        absurd (not_stale (subst (λ r. is_stale_shadow locked now r ≡ true) (row e) stale)))
      jobs h
  where
    not_stale : is_stale_shadow locked now j ≡ true → ⊥
    not_stale stale = ground (arith, fresh, stale)

next_shadow-other :
    (locked : List ℕ) (judge : ℕ) (languages : List ℕ) (j t : ShadowJob) (jobs : List ShadowJob)
    → is_active_status j.status ≡ true
    → All (IsOnlyRow j) jobs
    → next_shadow locked judge languages jobs ≡ some t
    → (targets t.target_judge judge ≡ true) × ((t.id == j.id) ≡ false)
unfolding next_shadow
next_shadow-other locked judge languages j t jobs active h e =
    let ready = select (may_replay locked judge languages) jobs in
    first-holds (λ k. (targets k.target_judge judge ≡ true) × ((k.id == j.id) ≡ false))
      (sort_by shadow_order ready)
      (All-sort_by shadow_order
        (λ k. (targets k.target_judge judge ≡ true) × ((k.id == j.id) ≡ false)) ready
        (All-weaken (λ k held. ground arith) ready
          (select-holds (IsOnlyRow j) (may_replay locked judge languages) jobs h)))
      e

take_shadow-other :
    (judge now : ℕ) (j : ShadowJob) (o : Option ShadowJob) (jobs : List ShadowJob)
    → ((t : ShadowJob)
        → o ≡ some t
        → (targets t.target_judge judge ≡ true) × ((t.id == j.id) ≡ false))
    → All (IsOnlyRow j) jobs
    → All (IsOnlyRow j) (take_shadow judge now o jobs).0
      × IsFor judge j (take_shadow judge now o jobs).1
take_shadow-other judge now j none jobs other h = (h, tt)
take_shadow-other judge now j (some t) jobs other h =
    let (aimed, apart) = other t refl in
    (
      All-update_where (IsOnlyRow j) (λ r. r.id == t.id) (λ _. claimed_shadow judge now t)
          (λ a _ _ e. ground (arith, apart, e)) jobs h,
      (aimed, apart),
    )

-- While the lease of an active replay runs, no claim takes it or changes its row; and a claim hands
-- out only replays for any judge or for the one that asks.
pub claim_shadow-exclusive :
    (locked : List ℕ) (judge : ℕ) (languages : List ℕ) (now : ℕ) (j : ShadowJob)
    (jobs : List ShadowJob)
    → is_active_status j.status ≡ true
    → lease_before now j.lease_expires_at ≡ false
    → All (IsOnlyRow j) jobs
    → All (IsOnlyRow j) (claim_shadow locked judge languages now jobs).0
      × IsFor judge j (claim_shadow locked judge languages now jobs).1
unfolding claim_shadow
claim_shadow-exclusive locked judge languages now j jobs active running h =
    let fresh = requeue_stale locked now jobs in
    let kept : All (IsOnlyRow j) fresh = requeue_stale-IsOnlyRow locked now j jobs running h in
    take_shadow-other judge now j (next_shadow locked judge languages fresh) fresh
      (λ t e. next_shadow-other locked judge languages j t fresh active kept e) kept

found_shadow-eq-ok : (o : Option ShadowJob) (j : ShadowJob) → found_shadow o ≡ ok j → o ≡ some j
found_shadow-eq-ok none j e = cc
found_shadow-eq-ok (some k) j e = cc

assert_shadow_owned-owner :
    (j : ShadowJob) (judge now : ℕ)
    → assert_shadow_owned j judge now ≡ ok tt
    → (is_id j.claimed_by judge ≡ true) × (is_active_status j.status ≡ true)
assert_shadow_owned-owner j judge now h = ground arith

-- A callback on a replay that returns, whichever it is, was made by the judge that has claimed it,
-- and the replay was active.
pub call_shadow-owner :
    (k judge now : ℕ) (c : ShadowCallback) (jobs new : List ShadowJob)
    → call_shadow k judge now c jobs ≡ ok new
    → (j : ShadowJob) × (first (select (λ j. j.id == k) jobs) ≡ some j)
      × (is_id j.claimed_by judge ≡ true)
      × (is_active_status j.status ≡ true)
unfolding call_shadow
call_shadow-owner k judge now c jobs new e =
    let (j, locked, called) =
      >>=-eq-ok (lock_shadow k jobs)
        (λ j. assert_shadow_owned j judge now >> ok (save_shadow (moved_shadow now c j) jobs)) e in
    let (owned, _) =
      >>-eq-ok (assert_shadow_owned j judge now) (ok (save_shadow (moved_shadow now c j) jobs))
        called in
    let (owner, active) = assert_shadow_owned-owner j judge now owned in
    (j, found_shadow-eq-ok (first (select (λ j. j.id == k) jobs)) j locked, owner, active)
