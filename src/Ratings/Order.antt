-- ===== src/Ratings/Order.antt =====
-- The order of the ranks of `_tie_ranks`.
use judgeloom_core.Base.{
  ℕ, zero, suc, ◌+◌, ◌≤◌, ◌≡◌, refl, subst, sym, arith, Bool, true, false, ◌&&◌, ltb, ◌==◌,
  if◌then◌else◌, List, [], ◌∷◌, ◌++◌, length, inl, inr, Bool-cases, ==_iff,
}
use judgeloom_core.Ratings.Ties.{
  RankKey, Selected, same_key, tied, repeated, drop, average_rank, ranks_from, tie_ranks,
}
use judgeloom_core.Ratings.Mass.{tied-le, length-drop}

-- Whether neighbours with one key have one rank, and others ranks that rise.
abbrev pub follows_ties : List Selected → List ℕ → Bool
follows_ties (x ∷ y ∷ xs) (r ∷ s ∷ rs) =
    (if same_key y.rank_key x.rank_key then r == s else ltb r s) && follows_ties (y ∷ xs) (s ∷ rs)
follows_ties (x ∷ y ∷ xs) (r ∷ []) = false
follows_ties (x ∷ y ∷ xs) [] = false
follows_ties (x ∷ []) rs = true
follows_ties [] rs = true

-- Whether the ranks of the entries that are left begin above a rank.
abbrev pub starts_above : ℕ → List Selected → List ℕ → Bool
starts_above v [] rs = true
starts_above v (x ∷ xs) [] = false
starts_above v (x ∷ xs) (r ∷ rs) = ltb v r

same_key_trans : (k l m : RankKey) → same_key k m ≡ true → same_key l m ≡ true → same_key k l ≡ true
same_key_trans k l m h g = ground arith

other_key : (k l m : RankKey) → same_key k m ≡ false → same_key l m ≡ true → same_key k l ≡ false
other_key k l m h g = ground arith

tied_same :
    (k : RankKey) (z : Selected) (zs : List Selected)
    → same_key z.rank_key k ≡ true
    → tied k (z ∷ zs) ≡ suc (tied k zs)
tied_same k z zs t = rw t refl

tied_other :
    (k : RankKey) (z : Selected) (zs : List Selected)
    → same_key z.rank_key k ≡ false
    → tied k (z ∷ zs) ≡ 0
tied_other k z zs f = rw f refl

-- A neighbour in the tie, and the first one after it.
follows_same :
    (y z : Selected) (zs : List Selected) (v : ℕ) (ranks : List ℕ)
    → same_key z.rank_key y.rank_key ≡ true
    → follows_ties (z ∷ zs) (v ∷ ranks) ≡ true
    → follows_ties (y ∷ z ∷ zs) (v ∷ v ∷ ranks) ≡ true
follows_same y z zs v ranks t h = rw (t, (==_iff v v).1 refl) h

follows_other :
    (y z : Selected) (zs : List Selected) (v : ℕ) (ranks : List ℕ)
    → same_key z.rank_key y.rank_key ≡ false
    → starts_above v (z ∷ zs) ranks ≡ true
    → follows_ties (z ∷ zs) ranks ≡ true
    → follows_ties (y ∷ z ∷ zs) (v ∷ ranks) ≡ true
follows_other y z zs v [] f above h = cc
follows_other y z zs v (r ∷ ranks) f above h = rw (f, above) h

abbrev GoesOn : Selected → Selected → List Selected → ℕ → List ℕ → ℕ → Type 0
GoesOn y z zs v ranks n =
    starts_above v (drop n (z ∷ zs)) ranks ≡ true
    → follows_ties (drop n (z ∷ zs)) ranks ≡ true
    → follows_ties (y ∷ z ∷ zs) (v ∷ (repeated n v ++ ranks)) ≡ true

-- A tie of one rank, before ranks that begin above it.
tie-follows_ties :
    (k : RankKey) (y : Selected) (xs : List Selected) (v : ℕ) (ranks : List ℕ)
    → same_key y.rank_key k ≡ true
    → starts_above v (drop (tied k xs) xs) ranks ≡ true
    → follows_ties (drop (tied k xs) xs) ranks ≡ true
    → follows_ties (y ∷ xs) (v ∷ (repeated (tied k xs) v ++ ranks)) ≡ true
tie-follows_ties k y [] v ranks own above after = refl
tie-follows_ties k y (z ∷ zs) v ranks own above after = elim (Bool-cases (same_key z.rank_key k)) [
  | inl t ↦
      subst (GoesOn y z zs v ranks) (sym (tied_same k z zs t))
        (λ a b.
          follows_same y z zs v (repeated (tied k zs) v ++ ranks)
            (same_key_trans z.rank_key y.rank_key k t own) (tie-follows_ties k z zs v ranks t a b))
        above after
  | inr f ↦
      subst (GoesOn y z zs v ranks) (sym (tied_other k z zs f))
        (follows_other y z zs v ranks (other_key z.rank_key y.rank_key k f own)) above after
]

ranks_from-starts_above :
    (fuel index m : ℕ) (xs : List Selected)
    → length xs ≤ fuel
    → starts_above (average_rank index m) xs (ranks_from fuel (index + suc m) xs) ≡ true
unfolding ranks_from
ranks_from-starts_above fuel index m [] h = refl
ranks_from-starts_above zero index m (x ∷ xs) h = ground (arith, h)
ranks_from-starts_above (suc fuel) index m (x ∷ xs) h = ground arith

ranks_from-follows_ties :
    (fuel index : ℕ) (xs : List Selected)
    → length xs ≤ fuel
    → follows_ties xs (ranks_from fuel index xs) ≡ true
unfolding ranks_from
ranks_from-follows_ties fuel index [] h = refl
ranks_from-follows_ties zero index (x ∷ xs) h = ground (arith, h)
ranks_from-follows_ties (suc fuel) index (x ∷ xs) h =
    let k = x.rank_key in
    let m = tied k xs in
    let fits : length (drop m xs) ≤ fuel = omega (arith, h, length-drop m xs (tied-le k xs)) in
    tie-follows_ties k x xs (average_rank index m) (ranks_from fuel (index + suc m) (drop m xs))
      (ground arith) (ranks_from-starts_above fuel index m (drop m xs) fits)
      (ranks_from-follows_ties fuel (index + suc m) (drop m xs) fits)

-- Neighbours in the standing with one score and tiebreaker have one rank, and otherwise the one
-- below has a greater rank.
pub tie_ranks-follows_ties :
    (selected : List Selected) → follows_ties selected (tie_ranks selected) ≡ true
unfolding tie_ranks
tie_ranks-follows_ties selected = ranks_from-follows_ties (length selected) 0 selected (omega arith)
