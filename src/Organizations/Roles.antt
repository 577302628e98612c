-- ===== src/Organizations/Roles.antt =====
-- What holds of an organization's members, admins and requests after every action
-- (apps/organizations/services/org_service.py).
use judgeloom_core.Base.{
  ℕ, suc, ◌≡◌, ◌≤◌, refl, subst, inl, inr, String, Bool, true, false, not, List, [], ◌∷◌, arith,
  ◌==◌, any, count_where, update_where, All, All-weaken, All-select, select-holds, Bool-cases, ok,
  >>=-eq-ok, >>-eq-ok, ok-injective, raise_if, raise_if-eq-ok, validation_error,
}
use judgeloom_core.Organizations.Membership.{
  OrganizationRequest, OrganizationRequestStatus, Directory, is_pair, has_pair, add_pair,
  remove_pair, is_member, add_member, is_pending, is_pending_of, new_request, reviewed,
  save_request, approve_request, reject_request, get_request_or_404, OrgAction, adds, removes,
  promotes, demotes, asks, approves, rejects, act,
}

abbrev pub AreMembers : List (ℕ × ℕ) → List (ℕ × ℕ) → Type 0
AreMembers members admins = All (λ a. has_pair a.0 a.1 members ≡ true) admins

-- Every admin is a member, and nobody has two pending requests to one organization.
pub record IsConsistent (d : Directory) : Type 0 where
  pub admins_belong : AreMembers d.members d.admins
  pub one_pending : (org user : ℕ) → count_where (is_pending_of org user) d.requests ≤ 1

has_pair-remove_pair :
    (org user o u : ℕ) (pairs : List (ℕ × ℕ))
    → is_pair org user (o, u) ≡ false
    → has_pair o u pairs ≡ true
    → has_pair o u (remove_pair org user pairs) ≡ true
has_pair-remove_pair org user o u [] other h = h
has_pair-remove_pair org user o u (p ∷ ps) other h =
    ground (arith, has_pair-remove_pair org user o u ps other)

AreMembers-remove_pair :
    (org user : ℕ) (members admins : List (ℕ × ℕ))
    → AreMembers members admins
    → AreMembers (remove_pair org user members) (remove_pair org user admins)
AreMembers-remove_pair org user members admins h =
    All-weaken (λ a held. has_pair-remove_pair org user a.0 a.1 members (ground arith) held.0)
      (remove_pair org user admins)
      (select-holds (λ a. has_pair a.0 a.1 members ≡ true) (λ p. not (is_pair org user p)) admins h)

AreMembers-add_member :
    (org user : ℕ) (d : Directory)
    → AreMembers d.members d.admins
    → AreMembers (add_member org user d).members d.admins
AreMembers-add_member org user d h = All-weaken (λ a held. ground arith) d.admins h

AreMembers-promote :
    (org user : ℕ) (d : Directory)
    → is_member org user d ≡ true
    → AreMembers d.members d.admins
    → AreMembers d.members (add_pair org user d.admins)
AreMembers-promote org user d e h = elim (Bool-cases (has_pair org user d.admins)) [
  | inl there ↦ rw there h
  | inr absent ↦ rw absent (e, h)
]

count_where-update :
    (p : OrganizationRequest → Bool) (m : OrganizationRequest) (rs : List OrganizationRequest)
    → p m ≡ false
    → count_where p (update_where (λ q. q.id == m.id) (λ _. m) rs) ≤ count_where p rs
count_where-update p m [] h = omega arith
count_where-update p m (r ∷ rs) h = ground (arith, count_where-update p m rs h)

count_where-none :
    (p : OrganizationRequest → Bool) (rs : List OrganizationRequest)
    → any p rs ≡ false
    → count_where p rs ≡ 0
count_where-none p [] h = refl
count_where-none p (r ∷ rs) h = ground (arith, count_where-none p rs)

-- A request that has been reviewed is pending for nobody.
saved-IsConsistent :
    (r : OrganizationRequest) (d : Directory)
    → is_pending r.status ≡ false
    → IsConsistent d
    → IsConsistent (save_request r d)
saved-IsConsistent r d closed h = record {
  admins_belong = h.admins_belong;
  one_pending = λ org user. omega (
    arith,
    count_where-update (is_pending_of org user) r d.requests (ground arith),
    h.one_pending org user,
  );
}

added-IsConsistent :
    (org user : ℕ) (d : Directory) → IsConsistent d → IsConsistent (add_member org user d)
added-IsConsistent org user d h = record {
  admins_belong = AreMembers-add_member org user d h.admins_belong;
  one_pending = h.one_pending;
}

asked-IsConsistent :
    (org user : ℕ) (reason : String) (d : Directory)
    → any (is_pending_of org user) d.requests ≡ false
    → IsConsistent d
    → IsConsistent (record d {
      next_id = suc d.next_id;
      requests = new_request d.next_id org user reason ∷ d.requests;
    })
asked-IsConsistent org user reason d free h = record {
  admins_belong = h.admins_belong;
  one_pending = λ o u.
      elim (Bool-cases (is_pending_of o u (new_request d.next_id org user reason))) [
        | inl e ↦
            let same_org : org ≡ o = ground arith in
            let same_user : user ≡ u = ground arith in
            let none_pending : count_where (is_pending_of o u) d.requests ≡ 0 =
              subst (λ k. count_where (is_pending_of k u) d.requests ≡ 0) same_org
                (subst (λ k. count_where (is_pending_of org k) d.requests ≡ 0) same_user
                  (count_where-none (is_pending_of org user) d.requests free)) in
            rw e (omega (arith, none_pending))
        | inr e ↦ rw e (h.one_pending o u)
      ];
}

-- Whatever the action, every admin stays a member and nobody gets a second pending request to one
-- organization.
pub act-IsConsistent :
    (a : OrgAction) (d new : Directory) → IsConsistent d → act a d ≡ ok new → IsConsistent new
unfolding act
act-IsConsistent (adds org user) d new h e =
    subst IsConsistent (ok-injective _ _ e) (added-IsConsistent org user d h)
act-IsConsistent (removes org user) d new h e = subst IsConsistent (ok-injective _ _ e) (record {
  admins_belong = AreMembers-remove_pair org user d.members d.admins h.admins_belong;
  one_pending = h.one_pending;
})
act-IsConsistent (promotes org user) d new h e =
    let (member, done) =
      >>-eq-ok
        (raise_if (not (is_member org user d))
          (validation_error "User must be a member before promotion."))
        _ e in
    subst IsConsistent (ok-injective _ _ done) (record {
      admins_belong = AreMembers-promote org user d (ground (arith, member)) h.admins_belong;
      one_pending = h.one_pending;
    })
act-IsConsistent (demotes org user) d new h e = subst IsConsistent (ok-injective _ _ e) (record {
  admins_belong =
      All-select (λ a. has_pair a.0 a.1 d.members ≡ true) (λ p. not (is_pair org user p)) d.admins
        h.admins_belong;
  one_pending = h.one_pending;
})
act-IsConsistent (asks org user reason) d new h e =
    let (_, rest) =
      >>-eq-ok (raise_if (is_member org user d) (validation_error "User is already a member.")) _
        e in
    let (free, done) =
      >>-eq-ok
        (raise_if (any (is_pending_of org user) d.requests)
          (validation_error "A pending request already exists."))
        _ rest in
    subst IsConsistent (ok-injective _ _ done)
      (asked-IsConsistent org user reason d (raise_if-eq-ok _ _ free) h)
act-IsConsistent (approves org k reviewer now) d new h e =
    let (r, _, approved) =
      >>=-eq-ok (get_request_or_404 org k d) (λ r. approve_request r reviewer now d) e in
    let (_, done) =
      >>-eq-ok
        (raise_if (not (is_pending r.status))
          (validation_error "Only pending requests can be approved."))
        _ approved in
    subst IsConsistent (ok-injective _ _ done) (
      saved-IsConsistent (reviewed OrganizationRequestStatus.approved reviewer now "" r)
        (add_member r.organization_id r.user_id d) refl
        (added-IsConsistent r.organization_id r.user_id d h))
act-IsConsistent (rejects org k reviewer now response) d new h e =
    let (r, _, rejected) =
      >>=-eq-ok (get_request_or_404 org k d) (λ r. reject_request r reviewer now response d) e in
    let (_, done) =
      >>-eq-ok
        (raise_if (not (is_pending r.status))
          (validation_error "Only pending requests can be rejected."))
        _ rejected in
    subst IsConsistent (ok-injective _ _ done) (
      saved-IsConsistent (reviewed OrganizationRequestStatus.rejected reviewer now response r) d
        refl h)
