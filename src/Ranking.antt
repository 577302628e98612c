-- ===== src/Ranking.antt =====
-- apps/contests/services/ranking_service.py, with `update_participation` and `get_ranking` of
-- apps/contests/formats/base.py.
pub mod Order
pub mod Frozen
use judgeloom_core.Base.{
  ℕ, suc, ◌+◌, Bool, true, false, not, Option, none, some, List, [], ◌∷◌, map, ltb, leb, ◌==◌,
  if◌then◌else◌, select, Result, ok, ◌>>=◌,
}
use judgeloom_core.Base.Sort.{sort_by}
use judgeloom_core.Models.{
  Submission, Contest, ContestProblem, Participation, FormatData, Calculation, Store, is_frozen,
  duration_set, save_participation,
}
use judgeloom_core.Formats.Registry.{ContestFormat, get_format, calculate_participation}

-- `contest.contest_problems.all()`, by `ordering = ["order"]`
unfoldable pub problems_of : Contest → Store → List ContestProblem
problems_of c db =
    sort_by (λ a b. leb a.order b.order) (select (λ cp. cp.contest_id == c.id) db.contest_problems)

-- `ordering = ["-score", "cumulative_time", "id"]`
abbrev pub participation_order : Participation → Participation → Bool
participation_order a b =
    if ltb b.score a.score
    then true
    else (if ltb a.score b.score
        then false
        else (if ltb a.cumulative_time b.cumulative_time
            then true
            else (if ltb b.cumulative_time a.cumulative_time then false else leb a.id b.id)))

-- `contest.participations.all()`
unfoldable pub participations_of : Contest → Store → List Participation
participations_of c db =
    sort_by participation_order (select (λ p. p.contest_id == c.id) db.participations)

-- `contest.participations.filter(is_disqualified=False)`
unfoldable pub ranked_participations : Contest → Store → List Participation
ranked_participations c db = select (λ p. not p.is_disqualified) (participations_of c db)

abbrev pub apply_calculation : Calculation → Participation → Participation
apply_calculation r p = record p {
  score = r.score;
  tiebreaker = r.tiebreaker;
  cumulative_time = r.cumulative_time;
  format_data = r.format_data;
}

-- `RankingService.recalculate_participation`
unfoldable pub recalculate_participation : Contest → Participation → Store → Result Store
recalculate_participation c p db = do
  format ← get_format c.format_name
  r ← calculate_participation format c (problems_of c db) db.submissions p none
  ok (save_participation (apply_calculation r p) db)

recalculate_all : Contest → List Participation → Store → Result Store
recalculate_all c [] db = ok db
recalculate_all c (p ∷ ps) db = recalculate_participation c p db >>= recalculate_all c ps

-- `RankingService.recalculate_contest`
unfoldable pub recalculate_contest : Contest → Store → Result Store
unfolding recalculate_all
recalculate_contest c db = recalculate_all c (participations_of c db) db

pub record RankEntry : Type 0 where
  pub participation_id : ℕ
  pub user_id : ℕ
  pub score : ℕ
  pub tiebreaker : ℕ
  pub cumulative_time : ℕ
  pub format_data : FormatData

-- The key `(-score, tiebreaker, user_id)`.
abbrev pub entry_order : RankEntry → RankEntry → Bool
entry_order a b =
    if ltb b.score a.score
    then true
    else (if ltb a.score b.score
        then false
        else (if ltb a.tiebreaker b.tiebreaker
            then true
            else (if ltb b.tiebreaker a.tiebreaker then false else leb a.user_id b.user_id)))

-- `for rank, entry in enumerate(entries, start=1): entry["rank"] = rank`
abbrev pub enumerate {ℓ} : {A : Type ℓ} → ℕ → List A → List (ℕ × A)
enumerate n [] = []
enumerate n (x ∷ xs) = (n, x) ∷ enumerate (suc n) xs

abbrev pub stored_entry : Participation → RankEntry
stored_entry p = record {
  participation_id = p.id;
  user_id = p.user_id;
  score = p.score;
  tiebreaker = p.tiebreaker;
  cumulative_time = p.cumulative_time;
  format_data = p.format_data;
}

-- `AbstractContestFormat.get_ranking`
unfoldable pub get_ranking : Contest → Store → List (ℕ × RankEntry)
get_ranking c db = enumerate 1 (sort_by entry_order (map stored_entry (ranked_participations c db)))

-- `RankingService.get_contest_ranking`
unfoldable pub get_contest_ranking : Contest → Store → Result (List (ℕ × RankEntry))
unfolding get_ranking
get_contest_ranking c db = get_format c.format_name >>= λ format. ok (get_ranking c db)

abbrev pub frozen_entry : Participation → Calculation → RankEntry
frozen_entry p r = record {
  participation_id = p.id;
  user_id = p.user_id;
  score = r.score;
  tiebreaker = r.tiebreaker;
  cumulative_time = r.cumulative_time;
  format_data = FormatData.frozen;
}

module _ (format : ContestFormat) (c : Contest) (cps : List ContestProblem) (freeze : ℕ) where
  -- The loop of `get_frozen_ranking` over the participations.
  unfoldable pub frozen_entries : List Submission → List Participation → Result (List RankEntry)
  frozen_entries subs [] = ok []
  frozen_entries subs (p ∷ ps) = do
    r ← calculate_participation format c cps subs p (some freeze)
    rest ← frozen_entries subs ps
    ok (frozen_entry p r ∷ rest)

frozen_ranking_at : Contest → Store → Option ℕ → Result (List (ℕ × RankEntry))
frozen_ranking_at c db none = get_contest_ranking c db
frozen_ranking_at c db (some after) = do
  format ← get_format c.format_name
  entries ←
      frozen_entries format c (problems_of c db) (c.start_time + after) db.submissions
        (ranked_participations c db)
  ok (enumerate 1 (sort_by entry_order entries))

-- `RankingService.get_frozen_ranking`
unfoldable pub get_frozen_ranking : Contest → Store → ℕ → Result (List (ℕ × RankEntry))
unfolding frozen_ranking_at
get_frozen_ranking c db now =
    if is_frozen c now
    then frozen_ranking_at c db (duration_set c.scoreboard_frozen_after)
    else get_contest_ranking c db
