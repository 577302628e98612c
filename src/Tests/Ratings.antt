-- ===== src/Tests/Ratings.antt =====
-- The ranks of a small standing with a tie.
use judgeloom_core.Base.{◌≡◌, refl, true, List, [], ◌∷◌}
use judgeloom_core.Models.{whole}
use judgeloom_core.Ratings.Ties.{Selected, RankKey, tie_ranks}
use judgeloom_core.Ratings.Order.{follows_ties, tie_ranks-follows_ties}

abbrev top : RankKey
top = record { score = whole 300; tiebreaker = 10 }

abbrev shared : RankKey
shared = record { score = whole 200; tiebreaker = 10 }

abbrev entries : List Selected
entries =
    record { user_id = 1; rank_key = top }
    ∷ record { user_id = 2; rank_key = shared }
    ∷ record { user_id = 3; rank_key = shared }
    ∷ []

-- The second and the third share the places 1 and 2.
ranks : tie_ranks entries ≡ 0 ∷ 1500000 ∷ 1500000 ∷ []
unfolding tie_ranks
ranks = refl

tie_ranks-follows_ties_example : follows_ties entries (tie_ranks entries) ≡ true
tie_ranks-follows_ties_example = tie_ranks-follows_ties entries
