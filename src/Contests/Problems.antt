-- ===== src/Contests/Problems.antt =====
-- apps/contests/services/contest_service.py: a contest's schedule and its problems.
use judgeloom_core.Base.{
  ℕ, suc, ◌≡◌, refl, sym, ap, inl, inr, Bool, true, not, ◌&&◌, Option, none, some, List, [], ◌∷◌,
  map, arith, leb, ◌==◌, if◌then◌else◌, select, contains, length, update_where, Option-cases, ◌∙◌,
  Bool-cases, Result, ok, err, ◌>>◌, raise_if, contest_error,
}
use judgeloom_core.Models.{User, Contest, ContestProblem, Store, save_contest}

-- `create_contest`: `draft` has the extra fields of the request; the relations start empty.
abbrev pub new_contest : ℕ → Contest → User → ℕ → ℕ → Contest
new_contest k draft organizer start_time end_time = record draft {
  id = k;
  start_time = start_time;
  end_time = end_time;
  organizers = organizer.id ∷ [];
  curators = [];
  testers = [];
  organizations = [];
  banned_users = [];
}

unfoldable pub create_contest : Contest → User → ℕ → ℕ → Store → Result (Store × Contest)
create_contest draft organizer start_time end_time db = do
  raise_if (leb end_time start_time) (contest_error "Contest end time must be after start time.")
  let c = new_contest db.next_id draft organizer start_time end_time
  ok (record db { next_id = suc db.next_id; contests = c ∷ db.contests }, c)

-- `update_contest`, with the contest as the keyword arguments change it
unfoldable pub update_contest : Contest → Store → Result Store
update_contest changed db = do
  raise_if (leb changed.end_time changed.start_time)
      (contest_error "Contest end time must be after start time.")
  ok (save_contest changed db)

abbrev pub is_problem_of : Contest → ContestProblem → Bool
is_problem_of c cp = cp.contest_id == c.id

abbrev pub given_order : Option ℕ → ℕ → ℕ
given_order none n = n
given_order (some k) n = k

-- `add_problem`: without an order the problem goes to the end.
unfoldable pub add_problem : Contest → ℕ → ℕ → ℕ → Option ℕ → Option ℕ → Store → Store
add_problem c problem label points order max_submissions db =
    let count = length (select (is_problem_of c) db.contest_problems) in
    record db {
      contest_problems =
          record {
            contest_id = c.id;
            problem_id = problem;
            order = given_order order (suc count);
            label = label;
            points = points;
            max_submissions = max_submissions;
          }
          ∷ db.contest_problems;
    }

-- `remove_problem`
unfoldable pub remove_problem : Contest → ℕ → Store → Store
remove_problem c problem db = record db {
  contest_problems =
      select (λ cp. not (is_problem_of c cp && cp.problem_id == problem)) db.contest_problems;
}

abbrev pub subset : List ℕ → List ℕ → Bool
subset [] ys = true
subset (x ∷ xs) ys = contains x ys && subset xs ys

-- `existing != requested`, for sets
abbrev pub same_set : List ℕ → List ℕ → Bool
same_set xs ys = subset xs ys && subset ys xs

abbrev pub labels_of : Contest → List ContestProblem → List ℕ
labels_of c cps = map (λ cp. cp.label) (select (is_problem_of c) cps)

-- The loop over `enumerate(label_order, start=n)`
unfoldable pub reorder_loop : Contest → ℕ → List ℕ → List ContestProblem → List ContestProblem
reorder_loop c n [] cps = cps
reorder_loop c n (label ∷ labels) cps = reorder_loop c (suc n) labels (
    update_where (λ cp. is_problem_of c cp && cp.label == label) (λ cp. record cp { order = n })
      cps)

-- `reorder_problems`
unfoldable pub reorder_problems : Contest → List ℕ → Store → Result Store
unfolding reorder_loop
reorder_problems c label_order db = do
  raise_if (not (same_set (labels_of c db.contest_problems) label_order))
      (contest_error "Label set mismatch for reorder operation.")
  ok (record db { contest_problems = reorder_loop c 1 label_order db.contest_problems })

-- The number, from `n`, of a label's last place in a list.
abbrev pub last_place : ℕ → ℕ → List ℕ → Option ℕ
last_place n label [] = none
last_place n label (x ∷ xs) = elim (last_place (suc n) label xs) [
  | some k ↦ some k
  | none ↦ if label == x then some n else none
]

-- The order that a row gets: the last place of its label, if it is one of the contest's rows and its
-- label is listed.
abbrev pub placed : Contest → ℕ → List ℕ → ContestProblem → ContestProblem
placed c n labels cp =
    if is_problem_of c cp
    then elim (last_place n cp.label labels) [ none ↦ cp | some k ↦ record cp { order = k } ]
    else cp

placed-step :
    (c : Contest) (n label : ℕ) (labels : List ℕ) (cp : ContestProblem)
    → placed c
        (suc n)
        labels
        (if is_problem_of c cp && cp.label == label then record cp { order = n } else cp)
      ≡ placed c n (label ∷ labels) cp
placed-step c n label labels cp = elim (Option-cases (last_place (suc n) cp.label labels)) [
  | inl e ↦ ground arith
  | inr (k, e) ↦ ground arith
]

map-placed :
    (c : Contest) (n label : ℕ) (labels : List ℕ) (cps : List ContestProblem)
    → map (placed c (suc n) labels) (
        update_where
          (λ cp. is_problem_of c cp && cp.label == label)
          (λ cp. record cp { order = n })
          cps)
      ≡ map (placed c n (label ∷ labels)) cps
map-placed c n label labels [] = refl
map-placed c n label labels (cp ∷ cps) =
    λ i. placed-step c n label labels cp i ∷ map-placed c n label labels cps i

map-unplaced : (c : Contest) (n : ℕ) (cps : List ContestProblem) → map (placed c n []) cps ≡ cps
map-unplaced c n [] = refl
map-unplaced c n (cp ∷ cps) = ground (arith, map-unplaced c n cps)

reorder_loop-placed :
    (c : Contest) (n : ℕ) (labels : List ℕ) (cps : List ContestProblem)
    → reorder_loop c n labels cps ≡ map (placed c n labels) cps
unfolding reorder_loop
reorder_loop-placed c n [] cps = sym (map-unplaced c n cps)
reorder_loop-placed c n (label ∷ labels) cps =
    reorder_loop-placed c (suc n) labels _ ∙ map-placed c n label labels cps

-- Reordering gives every problem of the contest the last place of its label in the request, changes
-- nothing else, and is refused exactly when the labels are not those of the contest.
pub reorder_problems-placed :
    (c : Contest) (labels : List ℕ) (db : Store)
    → reorder_problems c labels db ≡ (
        if same_set (labels_of c db.contest_problems) labels
        then ok (record db { contest_problems = map (placed c 1 labels) db.contest_problems })
        else err (contest_error "Label set mismatch for reorder operation."))
unfolding reorder_problems
reorder_problems-placed c labels db =
    elim (Bool-cases (same_set (labels_of c db.contest_problems) labels)) [
      | inl e ↦ rw e (
          ap (λ cps. ok (record db { contest_problems = cps }))
            (reorder_loop-placed c 1 labels db.contest_problems))
      | inr e ↦ rw e refl
    ]
