-- ===== src/Contests/Lifecycle.antt =====
-- apps/contests/services/contest_lifecycle_service.py: the schedule of contests. The rating service,
-- whose ratings are floating-point numbers, is the parameter `rate`. The caches that the service
-- invalidates hold no state of their own.
use judgeloom_core.Base.{
  ℕ, suc, ◌≡◌, refl, sym, ◌∙◌, subst, inl, inr, Bool, true, false, not, ◌&&◌, Option, none, some,
  List, [], ◌∷◌, map, arith, leb, ◌==◌, if◌then◌else◌, is_some, select, first-passes,
  first-update_where, length, Option-cases, Bool-cases, ==_iff, Result, ok, err, ◌>>=◌,
}
use judgeloom_core.Models.{
  Contest, Store, contest_started, contest_ended, contest_ranking_updated, publish, find_contest,
  save_contest,
}
use judgeloom_core.Ranking.{recalculate_contest}

abbrev pub or_unchanged : Store → Option Contest → (Contest → Result Store) → Result Store
or_unchanged db none f = ok db
or_unchanged db (some c) f = f c

-- `recalculate_rankings`
unfoldable pub recalculate_rankings : ℕ → Store → Result Store
recalculate_rankings k db =
    or_unchanged db (find_contest k db)
      λ c. recalculate_contest c db >>= λ new. ok (publish (contest_ranking_updated c.id) new)

abbrev pub begun : ℕ → Contest → Contest
begun now c = record c { started_at = some now }

abbrev pub begin_found : ℕ → Option Contest → Store → Store
begin_found now none db = db
begin_found now (some c) db =
    if is_some c.started_at
    then db
    else publish (contest_started c.id) (save_contest (begun now c) db)

-- `start_contest`
unfoldable pub start_contest : ℕ → ℕ → Store → Store
start_contest k now db = begin_found now (find_contest k db) db

abbrev pub closed : ℕ → Contest → Contest
closed now c = record c { ended_at = some now }

abbrev pub is_due_to_start : ℕ → Contest → Bool
is_due_to_start now c = not (is_some c.started_at) && leb c.start_time now

abbrev pub is_due_to_end : ℕ → Contest → Bool
is_due_to_end now c = not (is_some c.ended_at) && leb c.end_time now

abbrev pub ids_where : (Contest → Bool) → Store → List ℕ
ids_where due db = map (λ c. c.id) (select due db.contests)

unfoldable pub start_all : ℕ → List ℕ → Store → Store
unfolding start_contest
start_all now [] db = db
start_all now (k ∷ ks) db = start_all now ks (start_contest k now db)

module _ (rate : Contest → Store → Result Store) where
  abbrev pub rate_if : Bool → Contest → Store → Result Store
  rate_if true c db = rate c db
  rate_if false c db = ok db

  abbrev pub close_found : ℕ → Contest → Store → Result Store
  close_found now c db =
      if is_some c.ended_at
      then ok db
      else (recalculate_contest c db >>= rate_if c.is_rated c >>= λ new.
          ok (publish (contest_ended c.id) (save_contest (closed now c) new)))

  -- `end_contest`
  unfoldable pub end_contest : ℕ → ℕ → Store → Result Store
  end_contest k now db = or_unchanged db (find_contest k db) λ c. close_found now c db

  -- One turn of the loop: a contest that fails is logged and skipped.
  abbrev pub end_or_skip : Result Store → Store × ℕ → Store × ℕ
  end_or_skip (ok new) (db, ended) = (new, suc ended)
  end_or_skip (err e) (db, ended) = (db, ended)

  unfoldable pub end_all : ℕ → List ℕ → Store × ℕ → Store × ℕ
  unfolding end_contest
  end_all now [] st = st
  end_all now (k ∷ ks) st = end_all now ks (end_or_skip (end_contest k now st.0) st)

  -- `tick_contests`, with the numbers of contests started and ended
  unfoldable pub tick_contests : ℕ → Store → Store × ℕ × ℕ
  unfolding start_all end_all
  tick_contests now db =
      let due = ids_where (is_due_to_start now) db in
      let begun_db = start_all now due db in
      let (new, ended) = end_all now (ids_where (is_due_to_end now) begun_db) (begun_db, 0) in
      (new, length due, ended)

-- The row that a contest is saved to is the one that is found again.
find_contest-save_contest :
    (k : ℕ) (c m : Contest) (db : Store)
    → find_contest k db ≡ some c
    → m.id ≡ c.id
    → find_contest k (save_contest m db) ≡ some m
find_contest-save_contest k c m db found same =
    let here : c.id ≡ k = (==_iff c.id k).0 (first-passes (λ r. r.id == k) db.contests found) in
    let same_k : m.id ≡ k = same ∙ here in
    subst (λ k. find_contest k (save_contest m db) ≡ some m) same_k
      (first-update_where (λ r. r.id == m.id) m db.contests (ground arith)
        (subst (λ k. find_contest k db ≡ some c) (sym same_k) found))

start_contest-started :
    (k now : ℕ) (c : Contest) (db : Store)
    → find_contest k db ≡ some c
    → is_some c.started_at ≡ true
    → start_contest k now db ≡ db
unfolding start_contest
start_contest-started k now c db found started = rw (found, started) refl

start_contest-begun :
    (k now : ℕ) (c : Contest) (db : Store)
    → find_contest k db ≡ some c
    → is_some c.started_at ≡ false
    → start_contest k now db ≡ publish (contest_started c.id) (save_contest (begun now c) db)
unfolding start_contest
start_contest-begun k now c db found idle = rw (found, idle) refl

start_contest-absent :
    (k now : ℕ) (db : Store) → find_contest k db ≡ none → start_contest k now db ≡ db
unfolding start_contest
start_contest-absent k now db absent = rw absent refl

again :
    (k later : ℕ) (db new : Store)
    → start_contest k later new ≡ new
    → db ≡ new
    → start_contest k later db ≡ db
again k later db new fixed same = subst (λ d. start_contest k later d ≡ d) (sym same) fixed

-- Starting a contest again, at whatever time, changes nothing: it starts and is announced once.
pub start_contest-idempotent :
    (k now later : ℕ) (db : Store)
    → start_contest k later (start_contest k now db) ≡ start_contest k now db
start_contest-idempotent k now later db = elim (Option-cases (find_contest k db)) [
  | inl absent ↦
      again k later (start_contest k now db) db (start_contest-absent k later db absent)
        (start_contest-absent k now db absent)
  | inr (c, found) ↦ elim (Bool-cases (is_some c.started_at)) [
    | inl started ↦
        again k later (start_contest k now db) db (start_contest-started k later c db found started)
          (start_contest-started k now c db found started)
    | inr idle ↦
        let new = publish (contest_started c.id) (save_contest (begun now c) db) in
        again k later (start_contest k now db) new
          (start_contest-started k later (begun now c) new
            (find_contest-save_contest k c (begun now c) db found refl) refl)
          (start_contest-begun k now c db found idle)
  ]
]
