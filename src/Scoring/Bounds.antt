-- ===== src/Scoring/Bounds.antt =====
-- A submission never scores more than the package's groups allow.
use judgeloom_core.Base.{
  ℕ, ◌+◌, ◌%◌, ◌≤◌, ◌≡◌, refl, ap, true, false, Option, none, some, List, [], ◌∷◌, arith, All,
  contains, min,
}
use judgeloom_core.Base.Dict.{Dict, lookup, insert, sum_values}
use judgeloom_core.Models.{
  Group, ManifestCase, Manifest, round2, round4, round4_mono, round4_exact, round2_mono,
  round2_exact,
}
use judgeloom_core.Scoring.Cases.{ReportedCase}
use judgeloom_core.Scoring.{
  groups_of, group_defs_from, tally_cases, add_missing, group_total, group_score, subtask_scores_of,
  total_points_of, zero_scores, apply_partial_policy, initial_tally, raw_summary, score,
}
use judgeloom_core.Scoring.Groups.{
  keys, IsDict, group_defs_from-IsDict, is_cons, group_defs_from-cons, keys-empty_scores,
  keys-tally_cases, keys-add_missing,
}

-- The most that a group can give.
abbrev cap_of : Option Group → ℕ
cap_of none = 0
cap_of (some g) = round4 g.points

group_score-le : (o : Option Group) (scores : List ℕ) → group_score o scores ≤ cap_of o
unfolding round4
group_score-le none scores = ground arith
group_score-le (some g) scores =
    round4_mono (min (group_total g.mode scores) g.points) g.points (omega arith)

abbrev caps_of : Dict Group → List ℕ → ℕ
caps_of defs [] = 0
caps_of defs (k ∷ ks) = cap_of (lookup k defs) + caps_of defs ks

abbrev dict_caps : Dict Group → ℕ
dict_caps [] = 0
dict_caps ((_, g) ∷ d) = round4 g.points + dict_caps d

abbrev pub list_caps : List Group → ℕ
list_caps [] = 0
list_caps (g ∷ gs) = round4 g.points + list_caps gs

sum_values-le-caps :
    (defs : Dict Group) (d : Dict (List ℕ))
    → sum_values (subtask_scores_of defs d) ≤ caps_of defs (keys d)
unfolding subtask_scores_of
sum_values-le-caps defs [] = omega arith
sum_values-le-caps defs ((g, scores) ∷ d) =
    omega (arith, group_score-le (lookup g defs) scores, sum_values-le-caps defs d)

caps_of-cons :
    (k : ℕ) (g : Group) (d : Dict Group) (ks : List ℕ)
    → contains k ks ≡ false
    → caps_of ((k, g) ∷ d) ks ≡ caps_of d ks
caps_of-cons k g d [] h = refl
caps_of-cons k g d (j ∷ ks) h = ground (arith, caps_of-cons k g d ks)

caps_of-keys : (d : Dict Group) → IsDict d → caps_of d (keys d) ≡ dict_caps d
caps_of-keys [] h = refl
caps_of-keys ((k, g) ∷ d) h = ground (arith, caps_of-cons k g d (keys d) h.0, caps_of-keys d h.1)

dict_caps-insert :
    (k : ℕ) (g : Group) (d : Dict Group) → dict_caps (insert k g d) ≤ round4 g.points + dict_caps d
dict_caps-insert k g [] = omega arith
dict_caps-insert k g (e ∷ d) = ground (arith, dict_caps-insert k g d)

dict_caps-from :
    (gs : List Group) (d : Dict Group)
    → dict_caps (group_defs_from gs d) ≤ list_caps gs + dict_caps d
dict_caps-from [] d = omega arith
dict_caps-from (g ∷ gs) d =
    omega (arith, dict_caps-from gs (insert g.id g d), dict_caps-insert g.id g d)

groups_of-cons : (cases : List ManifestCase) (gs : List Group) → is_cons (groups_of cases gs) ≡ true
unfolding groups_of is_cons
groups_of-cons cases [] = refl
groups_of-cons cases (g ∷ gs) = refl

defs-cons : (gs : List Group) → is_cons gs ≡ true → is_cons (group_defs_from gs []) ≡ true
unfolding is_cons
defs-cons [] h = cc
defs-cons (g ∷ gs) h = group_defs_from-cons gs ((g.id, g) ∷ []) refl

pub subtasks-le :
    (m : Manifest) (reported : List ReportedCase)
    → sum_values (raw_summary m reported).subtask_scores ≤ list_caps (groups_of m.cases m.groups)
unfolding raw_summary
subtasks-le m reported =
    let gs = groups_of m.cases m.groups in
    let defs = group_defs_from gs [] in
    let known = defs-cons gs (groups_of-cons m.cases m.groups) in
    let t = tally_cases defs m.cases reported (initial_tally defs) in
    let d = add_missing defs t.statuses 1 m.cases t.case_scores in
    let e : keys d ≡ keys defs = keys-add_missing defs known t.statuses 1 m.cases t.case_scores (
      keys-tally_cases defs known m.cases reported (initial_tally defs)
        (unfold initial_tally in keys-empty_scores defs)) in
    omega (
      arith,
      sum_values-le-caps defs d,
      ap (caps_of defs) e,
      caps_of-keys defs (group_defs_from-IsDict gs [] tt),
      dict_caps-from gs [],
    )

-- Every group's points have at most two decimals.
abbrev pub HaveTwoDecimals : List Group → Type 0
HaveTwoDecimals = All (λ g. g.points % 10000 ≡ 0)

list_caps-exact : (gs : List Group) → HaveTwoDecimals gs → list_caps gs ≡ total_points_of gs
list_caps-exact [] h = refl
list_caps-exact (g ∷ gs) h = ground (arith, round4_exact g.points h.0, list_caps-exact gs h.1)

total_points_of-exact : (gs : List Group) → HaveTwoDecimals gs → total_points_of gs % 10000 ≡ 0
total_points_of-exact [] h = omega arith
total_points_of-exact (g ∷ gs) h = omega (arith, total_points_of-exact gs h.1)

pub raw_points-eq :
    (m : Manifest) (reported : List ReportedCase)
    → (raw_summary m reported).points ≡ round2 (sum_values (raw_summary m reported).subtask_scores)
unfolding raw_summary
raw_points-eq m reported = refl

pub raw_points-le :
    (m : Manifest) (reported : List ReportedCase)
    → HaveTwoDecimals (groups_of m.cases m.groups)
    → (raw_summary m reported).points ≤ total_points_of (groups_of m.cases m.groups)
raw_points-le m reported h =
    let gs = groups_of m.cases m.groups in
    omega (
      arith,
      raw_points-eq m reported,
      subtasks-le m reported,
      list_caps-exact gs h,
      round2_mono (sum_values (raw_summary m reported).subtask_scores) (total_points_of gs),
      round2_exact (total_points_of gs) (total_points_of-exact gs h),
    )

pub sum_values-zero : (d : Dict ℕ) → sum_values (zero_scores d) ≡ 0
sum_values-zero [] = refl
sum_values-zero (e ∷ d) = omega (arith, sum_values-zero d)

-- Whatever a worker reports, the points of a submission and the sum of its subtask scores are at
-- most the total of the package's groups, if the points of each group have at most two decimals.
pub score-le-total :
    (m : Manifest) (reported : List ReportedCase)
    → HaveTwoDecimals (groups_of m.cases m.groups)
    → ((score m reported).points ≤ total_points_of (groups_of m.cases m.groups))
      × (sum_values (score m reported).subtask_scores
          ≤ total_points_of (groups_of m.cases m.groups))
unfolding score apply_partial_policy
score-le-total m reported h =
    let gs = groups_of m.cases m.groups in
    let subtasks : sum_values (raw_summary m reported).subtask_scores ≤ total_points_of gs =
      omega (arith, subtasks-le m reported, list_caps-exact gs h) in
    ground (
      arith,
      raw_points-le m reported h,
      subtasks,
      sum_values-zero (raw_summary m reported).subtask_scores,
    )
