-- ===== src/Ranking/Order.antt =====
-- The ranking as a list (apps/contests/formats/base.py, `get_ranking`): its order, its ranks, and who
-- is on it.
use judgeloom_core.Base.{
  ℕ, ◌<◌, ◌≤◌, ◌⊎◌, inl, inr, ltb, Bool-cases, suc, ◌≡◌, refl, sym, ap, subst, true, false, not,
  List, [], ◌∷◌, map, arith, ◌==◌, select, update_where, All, All-weaken, select-holds,
}
use judgeloom_core.Base.Sort.{
  select-sort_by, IsOrder, IsSorted, sort_by, sort_by-perm, sort_by-IsSorted, All-sort_by,
}
use judgeloom_core.Models.{User, Contest, Participation, Store}
use judgeloom_core.Ranking.{
  participation_order, participations_of, ranked_participations, entry_order, enumerate,
  stored_entry, get_ranking,
}
use mathlib.Core.List.{Perm}
use mathlib.Core.List.Perm
use judgeloom_core.Ranking.{RankEntry}
use judgeloom_core.Contests.Joining.{is_entry_of, set_disqualified}

entry_order-IsOrder : IsOrder entry_order
entry_order-IsOrder = record { total = λ a b. ground arith; trans = λ a b c h k. ground arith }

abbrev pub entries_of {ℓ} : {A : Type ℓ} → List (ℕ × A) → List A
entries_of [] = []
entries_of ((n, x) ∷ xs) = x ∷ entries_of xs

abbrev pub ranks_of {ℓ} : {A : Type ℓ} → List (ℕ × A) → List ℕ
ranks_of [] = []
ranks_of ((n, x) ∷ xs) = n ∷ ranks_of xs

entries_of-enumerate {ℓ} : {A : Type ℓ} (n : ℕ) (xs : List A) → entries_of (enumerate n xs) ≡ xs
entries_of-enumerate n [] = refl
entries_of-enumerate n (x ∷ xs) = ap (◌∷◌ x) (entries_of-enumerate (suc n) xs)

-- More points, or as many at an earlier tie breaker, or both equal and the smaller user.
abbrev pub IsAhead : RankEntry → RankEntry → Type 0
IsAhead a b =
    (b.score < a.score)
    ⊎ ((a.score ≡ b.score)
        × ((a.tiebreaker < b.tiebreaker)
            ⊎ ((a.tiebreaker ≡ b.tiebreaker) × (a.user_id ≤ b.user_id))))

-- The ranks count up from `n`, and each entry is ahead of all later ones.
abbrev pub AreRanked : ℕ → List (ℕ × RankEntry) → Type 0
AreRanked n [] = Unit
AreRanked n ((rank, e) ∷ rest) = (rank ≡ n) × All (λ r. IsAhead e r.1) rest × AreRanked (suc n) rest

ordered-IsAhead : (a b : RankEntry) → entry_order a b ≡ true → IsAhead a b
ordered-IsAhead a b h = elim (Bool-cases (ltb b.score a.score)) [
  | inl t ↦ inl (ground arith)
  | inr f ↦ elim (Bool-cases (ltb a.tiebreaker b.tiebreaker)) [
    | inl t ↦ inr (ground arith, inl (ground arith))
    | inr g ↦ inr (ground arith, inr (ground arith, ground arith))
  ]
]

All-enumerate :
    (e : RankEntry) (n : ℕ) (xs : List RankEntry)
    → All (λ x. entry_order e x ≡ true) xs
    → All (λ r. IsAhead e r.1) (enumerate n xs)
All-enumerate e n [] h = tt
All-enumerate e n (x ∷ xs) h = (ordered-IsAhead e x h.0, All-enumerate e (suc n) xs h.1)

enumerate-AreRanked :
    (n : ℕ) (xs : List RankEntry) → IsSorted entry_order xs → AreRanked n (enumerate n xs)
enumerate-AreRanked n [] h = tt
enumerate-AreRanked n (x ∷ xs) h =
    (refl, All-enumerate x (suc n) xs h.0, enumerate-AreRanked (suc n) xs h.1)

-- The participations of a contest that are not disqualified.
abbrev pub qualified : Contest → Store → List Participation
qualified c db =
    select (λ p. not p.is_disqualified) (select (λ p. p.contest_id == c.id) db.participations)

-- The ranking holds one entry for each participation of the contest that is not disqualified. Each
-- entry has more points than all later ones, or as many at an earlier tie breaker, or both equal and
-- no greater user; and the ranks are 1, 2, … in that order.
pub get_ranking-ordered :
    (c : Contest) (db : Store)
    → AreRanked 1 (get_ranking c db)
      × Perm (entries_of (get_ranking c db)) (map stored_entry (qualified c db))
unfolding get_ranking ranked_participations participations_of
get_ranking-ordered c db =
    let own = select (λ p. p.contest_id == c.id) db.participations in
    let listed = map stored_entry (ranked_participations c db) in
    (
      enumerate-AreRanked 1 (sort_by entry_order listed)
          (sort_by-IsSorted entry_order entry_order-IsOrder listed),
      subst (λ xs. Perm xs (map stored_entry (qualified c db)))
          (sym (entries_of-enumerate 1 (sort_by entry_order listed)))
          (Perm.trans (sort_by-perm entry_order listed) (
            Perm.map stored_entry
              (select-sort_by participation_order (λ p. not p.is_disqualified) own))),
    )

All-map-stored :
    (u : ℕ) (ps : List Participation)
    → All (λ p. (p.user_id == u) ≡ false) ps
    → All (λ e. (e.user_id == u) ≡ false) (map stored_entry ps)
All-map-stored u [] h = tt
All-map-stored u (p ∷ ps) h = (h.0, All-map-stored u ps h.1)

-- A row of the contest's user is disqualified.
abbrev pub IsOut : Contest → User → Participation → Type 0
IsOut c u p = is_entry_of c u p ≡ true → p.is_disqualified ≡ true

set-IsOut :
    (c : Contest) (u : User) (ps : List Participation)
    → All (IsOut c u) (update_where (is_entry_of c u) (λ p. record p { is_disqualified = true }) ps)
set-IsOut c u [] = tt
set-IsOut c u (p ∷ ps) = (λ e. ground arith, set-IsOut c u ps)

-- Once a user is disqualified, no entry of the ranking is theirs.
pub get_ranking-disqualified :
    (c : Contest) (u : User) (db : Store)
    → All
        (λ e. (e.user_id == u.id) ≡ false)
        (entries_of (get_ranking c (set_disqualified true c u db)))
unfolding get_ranking ranked_participations participations_of set_disqualified
get_ranking-disqualified c u db =
    let rows =
      update_where (is_entry_of c u) (λ p. record p { is_disqualified = true }) db.participations in
    let own = select (λ p. p.contest_id == c.id) rows in
    let ranked = select (λ p. not p.is_disqualified) (sort_by participation_order own) in
    let out =
      select-holds (IsOut c u) (λ p. p.contest_id == c.id) rows (set-IsOut c u db.participations) in
    let kept =
      select-holds (λ p. IsOut c u p × ((p.contest_id == c.id) ≡ true)) (λ p. not p.is_disqualified)
        (sort_by participation_order own)
        (All-sort_by participation_order (λ p. IsOut c u p × ((p.contest_id == c.id) ≡ true)) own
          out) in
    let others = All-weaken (λ p h. ground arith) ranked kept in
    subst (All (λ e. (e.user_id == u.id) ≡ false))
      (sym (entries_of-enumerate 1 (sort_by entry_order (map stored_entry ranked))))
      (All-sort_by entry_order (λ e. (e.user_id == u.id) ≡ false) (map stored_entry ranked)
        (All-map-stored u.id ranked others))
