-- ===== src/Contests/Joining.antt =====
-- apps/contests/services/contest_service.py: joining a contest live or virtually, and
-- disqualification.
use judgeloom_core.Base.{
  ℕ, suc, ◌≡◌, refl, ap, ◌∙◌, subst, String, Bool, true, false, not, ◌&&◌, Option, none, some, List,
  [], ◌∷◌, arith, ◌==◌, leb, is_some, select, select_keep, first, update_where, Result, ok, err,
  ◌>>◌, >>-eq-ok, ok-injective, raise_if, contest_error, contest_access_denied, multiple_objects,
}
use judgeloom_core.Base.Sort.{sort_by}
use judgeloom_core.Models.{
  User, Contest, Participation, ParticipationStatus, live, virtual, FormatData, Store,
  contest_participation_joined, publish, duration_set,
}
use judgeloom_core.Submissions.Create.{is_live}
use judgeloom_core.Contests.Access.{can_see_contest, can_join_contest}

abbrev pub is_virtual : ParticipationStatus → Bool
is_virtual virtual = true
is_virtual _ = false

abbrev pub is_entry_of : Contest → User → Participation → Bool
is_entry_of c u p = p.contest_id == c.id && p.user_id == u.id

-- The lookup of `get_or_create` in `join_contest`.
abbrev pub is_live_entry : Contest → User → Participation → Bool
is_live_entry c u p = is_entry_of c u p && is_live p.status && not (is_some p.virtual_start)

unfoldable pub new_participation :
    ℕ → Contest → User → ParticipationStatus → Option ℕ → Participation
new_participation k c u status virtual_start = record {
  id = k;
  contest_id = c.id;
  user_id = u.id;
  status = status;
  virtual_start = virtual_start;
  score = 0;
  tiebreaker = 0;
  cumulative_time = 0;
  is_disqualified = false;
  format_data = FormatData.empty;
}

abbrev pub insert_participation : Participation → Store → Store
insert_participation p db = record db {
  next_id = suc db.next_id;
  participations = p ∷ db.participations;
}

-- `get_or_create`: no row makes a new one, and more than one is an error.
unfoldable pub get_or_join :
    Contest → User → List Participation → Store → Result (Store × Participation)
unfolding new_participation
get_or_join c u [] db =
    let p = new_participation db.next_id c u live none in
    ok (publish (contest_participation_joined c.id u.id p.id) (insert_participation p db), p)
get_or_join c u (p ∷ []) db = ok (db, p)
get_or_join c u (p ∷ q ∷ rest) db = err multiple_objects

-- `ContestService.join_contest`
unfoldable pub join_contest :
    Contest → User → Option String → ℕ → Store → Result (Store × Participation)
unfolding get_or_join
join_contest c u access_code now db =
    raise_if (not (can_join_contest u c access_code false now db))
      (contest_access_denied "You are not allowed to join this contest.")
    >> get_or_join c u (select (is_live_entry c u) db.participations) db

-- The first virtual entry of the user, by `order_by("id")`.
unfoldable pub virtual_entry : Contest → User → Store → Option Participation
virtual_entry c u db = first (
    sort_by (λ a b. leb a.id b.id)
      (select (λ p. is_entry_of c u p && is_virtual p.status) db.participations))

unfoldable pub enter_virtual :
    Contest → User → ℕ → Option Participation → Store → Store × Participation
unfolding new_participation
enter_virtual c u now (some p) db = (db, p)
enter_virtual c u now none db =
    let p = new_participation db.next_id c u virtual (some now) in (insert_participation p db, p)

-- `ContestService.start_virtual`
unfoldable pub start_virtual :
    Contest → User → Option String → ℕ → Store → Result (Store × Participation)
unfolding virtual_entry enter_virtual
start_virtual c u access_code now db = do
  raise_if (not (is_some (duration_set c.time_limit)))
      (contest_error "Virtual participation requires contest.time_limit.")
  raise_if (not (can_join_contest u c access_code true now db))
      (contest_access_denied "You are not allowed to enter this contest.")
  ok (enter_virtual c u now (virtual_entry c u db) db)

-- `ContestService.disqualify_user` and `undisqualify_user`
unfoldable pub set_disqualified : Bool → Contest → User → Store → Store
set_disqualified flag c u db = record db {
  participations =
      update_where (is_entry_of c u) (λ p. record p { is_disqualified = flag }) db.participations;
}

select_none :
    (p : Participation → Bool) (xs : List Participation) (x : Participation)
    → p x ≡ true
    → select p xs ≡ []
    → select p (x ∷ xs) ≡ x ∷ []
select_none p xs x e h = select_keep p x xs e ∙ ap (◌∷◌ x) h

get_or_join-again :
    (c : Contest) (u : User) (db new : Store) (p : Participation) (rows : List Participation)
    → select (is_live_entry c u) db.participations ≡ rows
    → get_or_join c u rows db ≡ ok (new, p)
    → get_or_join c u (select (is_live_entry c u) new.participations) new ≡ ok (new, p)
unfolding get_or_join new_participation
get_or_join-again c u db new p [] found e =
    let q = new_participation db.next_id c u live none in
    let joined =
      publish (contest_participation_joined c.id u.id q.id) (insert_participation q db) in
    let entered : is_live_entry c u q ≡ true = ground arith in
    let same : (joined, q) ≡ (new, p) = ok-injective _ _ e in
    subst (λ r. get_or_join c u (select (is_live_entry c u) r.0.participations) r.0 ≡ ok r) same
      (ap (λ rows. get_or_join c u rows joined)
        (select_none (is_live_entry c u) db.participations q entered found))
get_or_join-again c u db new p (q ∷ []) found e =
    let same : (db, q) ≡ (new, p) = ok-injective _ _ e in
    subst (λ r. get_or_join c u (select (is_live_entry c u) r.0.participations) r.0 ≡ ok r) same
      (ap (λ rows. get_or_join c u rows db) found)
get_or_join-again c u db new p (q ∷ r ∷ rest) found e = cc

-- A new entry takes no right to join away.
can_join_contest-insert :
    (u : User) (c : Contest) (code : Option String) (now : ℕ) (q : Participation) (db : Store)
    → can_join_contest u c code false now db ≡ true
    → can_join_contest u c code false now
        (publish (contest_participation_joined c.id u.id q.id) (insert_participation q db))
      ≡ true
unfolding can_join_contest can_see_contest
can_join_contest-insert u c code now q db h = ground arith

get_or_join-can_join_contest :
    (c : Contest) (u : User) (code : Option String) (now : ℕ) (db new : Store) (p : Participation)
    (rows : List Participation)
    → get_or_join c u rows db ≡ ok (new, p)
    → can_join_contest u c code false now db ≡ true
    → can_join_contest u c code false now new ≡ true
unfolding get_or_join new_participation
get_or_join-can_join_contest c u code now db new p [] e h =
    subst (λ d. can_join_contest u c code false now d ≡ true) (ap (λ r. r.0) (ok-injective _ _ e))
      (can_join_contest-insert u c code now (new_participation db.next_id c u live none) db h)
get_or_join-can_join_contest c u code now db new p (q ∷ []) e h =
    subst (λ d. can_join_contest u c code false now d ≡ true) (ap (λ r. r.0) (ok-injective _ _ e)) h
get_or_join-can_join_contest c u code now db new p (q ∷ r ∷ rest) e h = cc

-- Joining again changes nothing and returns the same participation, whether the first call made it
-- or found it.
pub join_contest-idempotent :
    (c : Contest) (u : User) (code : Option String) (now : ℕ) (db new : Store) (p : Participation)
    → join_contest c u code now db ≡ ok (new, p)
    → join_contest c u code now new ≡ ok (new, p)
unfolding join_contest
join_contest-idempotent c u code now db new p e =
    let (guard, joined) =
      >>-eq-ok
        (raise_if (not (can_join_contest u c code false now db))
          (contest_access_denied "You are not allowed to join this contest."))
        (get_or_join c u (select (is_live_entry c u) db.participations) db) e in
    let allowed : can_join_contest u c code false now db ≡ true = ground (arith, guard) in
    let still =
      get_or_join-can_join_contest c u code now db new p
        (select (is_live_entry c u) db.participations) joined allowed in
    rw still
      (get_or_join-again c u db new p (select (is_live_entry c u) db.participations) refl joined)
