-- ===== src/Ratings/Mass.antt =====
-- The ranks of `_tie_ranks` share out the places: each entry gets one, and ties change no sum.
use judgeloom_core.Base.{
  ℕ, zero, suc, ◌+◌, ◌*◌, ◌≤◌, ◌≡◌, refl, sym, ap, ◌∙◌, arith, List, [], ◌∷◌, ◌++◌, length,
  length-append,
}
use judgeloom_core.Models.{whole}
use judgeloom_core.Ratings.Ties.{
  RankKey, Selected, tied, repeated, drop, average_rank, ranks_from, tie_ranks,
}

abbrev pub total : List ℕ → ℕ
total [] = 0
total (r ∷ rs) = r + total rs

total-append : (rs ss : List ℕ) → total (rs ++ ss) ≡ total rs + total ss
total-append [] ss = omega arith
total-append (r ∷ rs) ss = omega (arith, total-append rs ss)

total-repeated : (n value : ℕ) → total (repeated n value) ≡ n * value
total-repeated zero value = omega arith
total-repeated (suc n) value = omega (arith, total-repeated n value)

length-repeated : (n value : ℕ) → length (repeated n value) ≡ n
length-repeated zero value = refl
length-repeated (suc n) value = ap suc (length-repeated n value)

pub tied-le : (k : RankKey) (xs : List Selected) → tied k xs ≤ length xs
tied-le k [] = omega arith
tied-le k (x ∷ xs) = ground (arith, tied-le k xs)

pub length-drop : (n : ℕ) (xs : List Selected) → n ≤ length xs → length (drop n xs) + n ≡ length xs
length-drop zero xs h = omega arith
length-drop (suc n) [] h = omega (arith, h)
length-drop (suc n) (x ∷ xs) h = omega (arith, length-drop n xs (omega (arith, h)))

-- `ranks_from` gives each entry a rank, when there is fuel for all.
length-ranks_from :
    (fuel index : ℕ) (xs : List Selected)
    → length xs ≤ fuel
    → length (ranks_from fuel index xs) ≡ length xs
unfolding ranks_from
length-ranks_from zero index [] h = refl
length-ranks_from zero index (x ∷ xs) h = omega (arith, h)
length-ranks_from (suc fuel) index [] h = refl
length-ranks_from (suc fuel) index (x ∷ xs) h =
    let more = tied x.rank_key xs in
    let left = length-drop more xs (tied-le x.rank_key xs) in
    let rest = length-ranks_from fuel (index + suc more) (drop more xs) (omega (arith, left, h)) in
    let both =
      length-append (repeated more (average_rank index more))
        (ranks_from fuel (index + suc more) (drop more xs)) in
    omega (arith, both, rest, left, length-repeated more (average_rank index more))

-- One tie, of `suc m` entries, before the `l` entries that are left.
mass_step :
    (index m l t : ℕ)
    → 2 * t + whole l ≡ whole (l * (2 * (index + suc m) + l))
    → 2 * (average_rank index m + (m * average_rank index m + t)) + whole (suc (l + m))
      ≡ whole (suc (l + m) * (2 * index + suc (l + m)))
mass_step index m l t h = omega (arith, h)

total-ranks_from :
    (fuel index : ℕ) (xs : List Selected)
    → length xs ≤ fuel
    → 2 * total (ranks_from fuel index xs) + whole (length xs)
      ≡ whole (length xs * (2 * index + length xs))
unfolding ranks_from
total-ranks_from zero index [] h = omega arith
total-ranks_from zero index (x ∷ xs) h = omega (arith, h)
total-ranks_from (suc fuel) index [] h = omega arith
total-ranks_from (suc fuel) index (x ∷ xs) h =
    let m = tied x.rank_key xs in
    let left = length-drop m xs (tied-le x.rank_key xs) in
    let rest = drop m xs in
    let ranks = ranks_from fuel (index + suc m) rest in
    let both =
      total-append (repeated m (average_rank index m)) ranks
      ∙ ap (λ n. n + total ranks) (total-repeated m (average_rank index m)) in
    ap (λ n. 2 * (average_rank index m + n) + whole (suc (length xs))) both
    ∙ (ap
          (λ n.
            2 * (average_rank index m + (m * average_rank index m + total ranks)) + whole (suc n))
          (sym left)
        ∙ (mass_step index m (length rest) (total ranks)
              (total-ranks_from fuel (index + suc m) rest (omega (arith, left, h)))
            ∙ ap (λ n. whole (suc n * (2 * index + suc n))) left))

-- Every selected entry gets one rank, and the ranks add up to what the places 0, 1, … would: ties
-- share their places and change no sum (`n * (n - 1) / 2` whole places for `n` entries).
pub tie_ranks-mass :
    (selected : List Selected)
    → (length (tie_ranks selected) ≡ length selected)
      × (2 * total (tie_ranks selected) + whole (length selected)
          ≡ whole (length selected * length selected))
unfolding tie_ranks
tie_ranks-mass selected =
    let n = length selected in
    (
      length-ranks_from n 0 selected (omega arith),
      total-ranks_from n 0 selected (omega arith) ∙ ap whole (omega arith),
    )
