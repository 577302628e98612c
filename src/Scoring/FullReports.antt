-- ===== src/Scoring/FullReports.antt =====
-- The loops of the scoring service over a report that every case passed with its full points.
use judgeloom_core.Base.{
  ℕ, zero, suc, ◌+◌, ◌*◌, ◌/◌, ◌%◌, ◌≤◌, ◌<◌, ◌≡◌, refl, sym, ap, ◌∙◌, subst, Bool, true, false,
  some, List, [], ◌∷◌, ◌++◌, arith, is_some, All, length, get_elem?, min,
}
use judgeloom_core.Base.Int.{pos}
use judgeloom_core.Base.Dict.{Dict, lookup, insert, lookup-insert}
use judgeloom_core.Models.{Verdict, ac, known, Group, ManifestCase, round4, round_half_even}
use judgeloom_core.Scoring.Cases.{ReportedCase, scaled, case_score}
use native.Mathlib.Nat.{div-eq_of_eq-mul_left, mul-mod_left, add-zero, add-suc, suc-add}
use judgeloom_core.Scoring.{
  default_group, append_score, Tally, tally_case, tally_cases, add_missing, sum_list, sum_points,
  reports,
}

-- The full report of a case: AC, with the package's points out of as many.
abbrev pub full_report : ℕ → ManifestCase → ReportedCase
full_report number m = record {
  case_number = number;
  status = known ac;
  time_used = 0;
  memory_used = 0;
  points = pos m.points;
  total_points = pos m.points;
  feedback = "";
  output = "";
}

abbrev pub full_reports : ℕ → List ManifestCase → List ReportedCase
full_reports number [] = []
full_reports number (m ∷ ms) = full_report number m ∷ full_reports (suc number) ms

scaled_full : (n k : ℕ) → 0 < n → n ≡ k * 100 → scaled n n n ≡ n
unfolding scaled round_half_even
scaled_full n k h e =
    let least : min n n ≡ n = omega arith in
    let square : n * min n n ≡ k * (n * 100) =
      omega (arith, ap (λ (t : ℕ). n * t) least, ap (λ (t : ℕ). n * t) e) in
    let quotient : n * min n n / (n * 100) ≡ k = div-eq_of_eq-mul_left (omega arith) square in
    let rest : n * min n n % (n * 100) ≡ 0 = rw (square, mul-mod_left) in
    ground (arith, quotient, rest, e)

case_score_full : (n : ℕ) → n % 10000 ≡ 0 → case_score n ac (pos n) (pos n) ≡ n
unfolding case_score round4
case_score_full zero h = refl
case_score_full (suc n) h = ground (arith, scaled_full (suc n) (suc n / 100) (omega arith))

-- What holds after the full reports of the first `count` cases, in a package whose cases are all
-- in one group.
pub record IsFull (t : Tally) (count points : ℕ) (scores : List ℕ) : Type 0 where
  pub one_group : t.case_scores ≡ (default_group, scores) ∷ []
  pub points_sum : sum_list scores ≡ points
  pub all_passed : t.case_passed ≡ count
  pub no_failure : All (λ e. e.1 ≡ ac) t.statuses
  pub all_seen : (n : ℕ) → 0 < n → n ≤ count → is_some (lookup n t.statuses) ≡ true

pub IsFull-cast :
    {t : Tally} {a b p q : ℕ} {scores : List ℕ}
    → a ≡ b
    → p ≡ q
    → IsFull t a p scores
    → IsFull t b q scores
IsFull-cast e f full = record {
  one_group = full.one_group;
  points_sum = full.points_sum ∙ f;
  all_passed = full.all_passed ∙ e;
  no_failure = full.no_failure;
  all_seen = λ n h k. full.all_seen n h (omega arith);
}

sum_list-append : (xs : List ℕ) (x : ℕ) → sum_list (xs ++ x ∷ []) ≡ sum_list xs + x
sum_list-append [] x = omega arith
sum_list-append (y ∷ ys) x = omega (arith, sum_list-append ys x)

no_failure-insert :
    (k : ℕ) (d : Dict Verdict) → All (λ e. e.1 ≡ ac) d → All (λ e. e.1 ≡ ac) (insert k ac d)
no_failure-insert k [] h = (refl, tt)
no_failure-insert k (e ∷ d) h = ground (arith, no_failure-insert k d h.1)

module _ (g : Group) (default : g.id ≡ default_group) where
  abbrev defs : Dict Group
  defs = (default_group, g) ∷ []

  tally_case-IsFull :
      (m : ManifestCase) (t : Tally) (count points : ℕ) (scores : List ℕ)
      → m.group ≡ default_group
      → m.points % 10000 ≡ 0
      → IsFull t count points scores
      → IsFull
          (tally_case defs (some m) (full_report (suc count) m) t)
          (suc count)
          (points + m.points)
          (scores ++ m.points ∷ [])
  unfolding tally_case append_score
  tally_case-IsFull m t count points scores e d full = record {
    one_group = ground (arith, case_score_full m.points d, full.one_group);
    points_sum = omega (arith, sum_list-append scores m.points, full.points_sum);
    all_passed = omega (arith, full.all_passed);
    no_failure = no_failure-insert (suc count) t.statuses full.no_failure;
    all_seen = λ n h k. ground (arith, lookup-insert n (suc count) ac t.statuses, full.all_seen n);
  }

  pub tally_cases-IsFull :
      (cases ms : List ManifestCase) (t : Tally) (count points : ℕ) (scores : List ℕ)
      → ((i : ℕ) → get_elem? cases (count + i) ≡ get_elem? ms i)
      → All (λ m. (m.group ≡ default_group) × (m.points % 10000 ≡ 0)) ms
      → IsFull t count points scores
      → (final : List ℕ) × IsFull
          (tally_cases defs cases (full_reports (suc count) ms) t)
          (count + length ms)
          (points + sum_points ms)
          final
  unfolding tally_cases
  tally_cases-IsFull cases [] t count points scores at h full =
      (scores, rw (add-zero, add-zero) full)
  tally_cases-IsFull cases (m ∷ ms) t count points scores at h full =
      let here : get_elem? cases count ≡ some m = rw add-zero at (at 0) in
      let one = tally_case-IsFull m t count points scores h.0.0 h.0.1 full in
      let later : (i : ℕ) → get_elem? cases (suc count + i) ≡ get_elem? ms i =
        λ i. rw (suc-add, ← add-suc) (at (suc i)) in
      let (final, rest) =
        tally_cases-IsFull cases ms (tally_case defs (some m) (full_report (suc count) m) t)
          (suc count) (points + m.points) (scores ++ m.points ∷ []) later h.1 one in
      (
        final,
        subst
            (λ o.
              IsFull
                (tally_cases defs cases (full_reports (suc (suc count)) ms)
                  (tally_case defs o (full_report (suc count) m) t))
                (count + length (m ∷ ms)) (points + sum_points (m ∷ ms)) final)
            (sym here) (IsFull-cast (omega arith) (omega arith) rest),
      )

-- Once every case has been seen, the second loop adds nothing.
pub add_missing-seen :
    (defs : Dict Group) (statuses : Dict Verdict) (number : ℕ) (ms : List ManifestCase)
    (d : Dict (List ℕ))
    → ((i : ℕ) → i < length ms → is_some (lookup (number + i) statuses) ≡ true)
    → add_missing defs statuses number ms d ≡ d
unfolding add_missing
add_missing-seen defs statuses number [] d seen = refl
add_missing-seen defs statuses number (m ∷ ms) d seen =
    let here : is_some (lookup number statuses) ≡ true = rw add-zero at (seen 0 (omega arith)) in
    rw here (
      add_missing-seen defs statuses (suc number) ms d
        (λ i h. rw (suc-add, ← add-suc) (seen (suc i) (omega arith))))

pub no_failure-reports :
    (f : Verdict → Bool) (d : Dict Verdict)
    → f ac ≡ false
    → All (λ e. e.1 ≡ ac) d
    → reports f d ≡ false
no_failure-reports f [] no_ac h = refl
no_failure-reports f (e ∷ d) no_ac h = ground (arith, h.0, no_ac, no_failure-reports f d no_ac h.1)
