-- ===== src/Organizations/Membership.antt =====
-- apps/organizations/services/org_service.py. A many-to-many relation is the list of its pairs of an
-- organization and a user.
use judgeloom_core.Base.{
  ℕ, suc, String, Bool, true, false, not, ◌&&◌, Option, none, some, List, ◌∷◌, ◌==◌, if◌then◌else◌,
  any, first, select, update_where, Result, ok, err, ◌>>=◌, ◌>>◌, raise_if, validation_error,
  not_found,
}

pub data OrganizationRequestStatus : Type 0 where
  pending approved rejected : OrganizationRequestStatus

pub record OrganizationRequest : Type 0 where
  pub id : ℕ
  pub organization_id : ℕ
  pub user_id : ℕ
  pub status : OrganizationRequestStatus
  pub reason : String
  pub response : String
  pub reviewed_by : Option ℕ
  pub reviewed_at : Option ℕ

pub record Directory : Type 0 where
  pub next_id : ℕ
  pub members : List (ℕ × ℕ)
  pub admins : List (ℕ × ℕ)
  pub requests : List OrganizationRequest

abbrev pub is_pair : ℕ → ℕ → ℕ × ℕ → Bool
is_pair org user (o, u) = o == org && u == user

abbrev pub has_pair : ℕ → ℕ → List (ℕ × ℕ) → Bool
has_pair org user pairs = any (is_pair org user) pairs

-- `manager.add(row)`: a pair that is there is not added again.
abbrev pub add_pair : ℕ → ℕ → List (ℕ × ℕ) → List (ℕ × ℕ)
add_pair org user pairs = if has_pair org user pairs then pairs else (org, user) ∷ pairs

-- `manager.remove(row)`
abbrev pub remove_pair : ℕ → ℕ → List (ℕ × ℕ) → List (ℕ × ℕ)
remove_pair org user pairs = select (λ p. not (is_pair org user p)) pairs

-- `OrganizationService.is_member`
abbrev pub is_member : ℕ → ℕ → Directory → Bool
is_member org user d = has_pair org user d.members

-- `add_member`
abbrev pub add_member : ℕ → ℕ → Directory → Directory
add_member org user d = record d {
  members = if not (is_member org user d) then add_pair org user d.members else d.members;
}

-- `remove_member`: who leaves is no admin any more.
abbrev pub remove_member : ℕ → ℕ → Directory → Directory
remove_member org user d = record d {
  members = remove_pair org user d.members;
  admins = remove_pair org user d.admins;
}

-- `promote_admin`
abbrev pub promote_admin : ℕ → ℕ → Directory → Result Directory
promote_admin org user d =
    raise_if (not (is_member org user d))
      (validation_error "User must be a member before promotion.")
    >> ok (record d { admins = add_pair org user d.admins })

-- `demote_admin`
abbrev pub demote_admin : ℕ → ℕ → Directory → Directory
demote_admin org user d = record d { admins = remove_pair org user d.admins }

abbrev pub is_pending : OrganizationRequestStatus → Bool
is_pending OrganizationRequestStatus.pending = true
is_pending _ = false

-- `filter(organization=org, user=user, status=PENDING)`
abbrev pub is_pending_of : ℕ → ℕ → OrganizationRequest → Bool
is_pending_of org user r = r.organization_id == org && r.user_id == user && is_pending r.status

abbrev pub new_request : ℕ → ℕ → ℕ → String → OrganizationRequest
new_request k org user reason = record {
  id = k;
  organization_id = org;
  user_id = user;
  status = OrganizationRequestStatus.pending;
  reason = reason;
  response = "";
  reviewed_by = none;
  reviewed_at = none;
}

-- `request_membership`, with the reason as `strip()` leaves it
abbrev pub request_membership : ℕ → ℕ → String → Directory → Result Directory
request_membership org user reason d =
    raise_if (is_member org user d) (validation_error "User is already a member.")
    >> (raise_if (any (is_pending_of org user) d.requests)
          (validation_error "A pending request already exists.")
        >> ok (record d {
          next_id = suc d.next_id;
          requests = new_request d.next_id org user reason ∷ d.requests;
        }))

abbrev pub reviewed :
    OrganizationRequestStatus → ℕ → ℕ → String → OrganizationRequest → OrganizationRequest
reviewed status reviewer now response r = record r {
  status = status;
  response = response;
  reviewed_by = some reviewer;
  reviewed_at = some now;
}

abbrev pub save_request : OrganizationRequest → Directory → Directory
save_request r d = record d { requests = update_where (λ q. q.id == r.id) (λ _. r) d.requests }

-- `approve_request`
abbrev pub approve_request : OrganizationRequest → ℕ → ℕ → Directory → Result Directory
approve_request r reviewer now d =
    raise_if (not (is_pending r.status)) (validation_error "Only pending requests can be approved.")
    >> ok (
        save_request (reviewed OrganizationRequestStatus.approved reviewer now "" r)
          (add_member r.organization_id r.user_id d))

-- `reject_request`, with the response as `strip()` leaves it
abbrev pub reject_request : OrganizationRequest → ℕ → ℕ → String → Directory → Result Directory
reject_request r reviewer now response d =
    raise_if (not (is_pending r.status)) (validation_error "Only pending requests can be rejected.")
    >> ok (save_request (reviewed OrganizationRequestStatus.rejected reviewer now response r) d)

abbrev pub found_request : Option OrganizationRequest → Result OrganizationRequest
found_request none = err (not_found "Organization request not found.")
found_request (some r) = ok r

-- `get_request_or_404`
abbrev pub get_request_or_404 : ℕ → ℕ → Directory → Result OrganizationRequest
get_request_or_404 org k d =
    found_request (first (select (λ r. r.organization_id == org && r.id == k) d.requests))

-- The requests to the service, where the router looks a membership request up first.
pub data OrgAction : Type 0 where
  adds removes promotes demotes : ℕ → ℕ → OrgAction
  asks : ℕ → ℕ → String → OrgAction
  approves : ℕ → ℕ → ℕ → ℕ → OrgAction
  rejects : ℕ → ℕ → ℕ → ℕ → String → OrgAction

unfoldable pub act : OrgAction → Directory → Result Directory
act (adds org user) d = ok (add_member org user d)
act (removes org user) d = ok (remove_member org user d)
act (promotes org user) d = promote_admin org user d
act (demotes org user) d = ok (demote_admin org user d)
act (asks org user reason) d = request_membership org user reason d
act (approves org k reviewer now) d =
    get_request_or_404 org k d >>= λ r. approve_request r reviewer now d
act (rejects org k reviewer now response) d =
    get_request_or_404 org k d >>= λ r. reject_request r reviewer now response d
