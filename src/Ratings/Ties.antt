-- ===== src/Ratings/Ties.antt =====
-- `RatingService._tie_ranks` (apps/ratings/services/rating_service.py).
-- A rank is a fixed-point number, so that the average of a tie may lie between two places.
use judgeloom_core.Base.{
  ℕ, zero, suc, ◌+◌, ◌*◌, Bool, ◌&&◌, List, [], ◌∷◌, ◌++◌, ◌==◌, if◌then◌else◌, length,
}
use judgeloom_core.Models.{whole}

-- `(float(entry["score"]), float(entry["tiebreaker"]))`
pub record RankKey : Type 0 where
  pub score : ℕ
  pub tiebreaker : ℕ

-- A row of `selected`, as far as `_tie_ranks` reads it.
pub record Selected : Type 0 where
  pub user_id : ℕ
  pub rank_key : RankKey

abbrev pub same_key : RankKey → RankKey → Bool
same_key k l = k.score == l.score && k.tiebreaker == l.tiebreaker

-- How many of the entries that follow are in the tie, which the inner loop counts.
abbrev pub tied : RankKey → List Selected → ℕ
tied k [] = 0
tied k (x ∷ xs) = let rest = tied k xs in if same_key x.rank_key k then suc rest else 0

-- `[value] * n`
abbrev pub repeated : ℕ → ℕ → List ℕ
repeated zero value = []
repeated (suc n) value = value ∷ repeated n value

abbrev pub drop : ℕ → List Selected → List Selected
drop zero xs = xs
drop (suc n) [] = []
drop (suc n) (x ∷ xs) = drop n xs

abbrev pub half : ℕ
half = 500000

-- `index + (end - index - 1) / 2.0`, for a tie of `suc more` entries
abbrev pub average_rank : ℕ → ℕ → ℕ
average_rank index more = whole index + more * half

-- The outer loop from `index`, with the entries from there on. Each round takes an entry away, so
-- that the number of entries is fuel enough.
unfoldable pub ranks_from : ℕ → ℕ → List Selected → List ℕ
ranks_from zero index selected = []
ranks_from (suc fuel) index [] = []
ranks_from (suc fuel) index (x ∷ xs) =
    let more = tied x.rank_key xs in
    repeated (suc more) (average_rank index more)
    ++ ranks_from fuel (index + suc more) (drop more xs)

-- `_tie_ranks`
unfoldable pub tie_ranks : List Selected → List ℕ
unfolding ranks_from
tie_ranks selected = ranks_from (length selected) 0 selected
