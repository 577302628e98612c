-- ===== src/Catalog/Listing.antt =====
-- What the list of problems and their statistics promise.
use native.Mathlib.Nat.{div-add-mod, div-le_of_le-mul}
use judgeloom_core.Base.{
  ℕ, suc, ◌+◌, ◌*◌, ◌/◌, ◌%◌, ◌≤◌, ◌<◌, ◌≡◌, refl, subst, arith, ◌==◌, ltb, true, Option, none,
  some, List, [], ◌∷◌, if◌then◌else◌, count_where, select, Bool-cases, inl, inr,
}
use judgeloom_core.Models.{
  User, Problem, Submission, Verdict, is_accessible_by, is_ac, is_partial, round_half_even, whole,
}
use judgeloom_core.Catalog.Problems.{
  is_listed, get_visible_problems, can_edit_problem, is_submitted, with_result, is_wrong_result,
  rate_of, get_problem_statistics,
}

listed_accessible : (u : User) (p : Problem) → is_listed u p ≡ is_accessible_by p u
unfolding is_listed is_accessible_by
listed_accessible u p = ground arith

-- The list of problems of a user holds exactly those that the user can open.
pub get_visible_problems-is_accessible_by :
    (u : User) (problems : List Problem)
    → get_visible_problems u problems ≡ select (λ p. is_accessible_by p u) problems
unfolding get_visible_problems
get_visible_problems-is_accessible_by u [] = refl
get_visible_problems-is_accessible_by u (p ∷ ps) =
    rw (listed_accessible u p, get_visible_problems-is_accessible_by u ps) refl

-- Who can edit a problem can open it.
pub can_edit_problem-is_accessible_by :
    (u : User) (p : Problem) → can_edit_problem u p ≡ true → is_accessible_by p u ≡ true
unfolding can_edit_problem is_accessible_by
can_edit_problem-is_accessible_by u p h = ground arith

apart :
    (o : Option Verdict) (accepted partial wrong total : ℕ)
    → accepted + partial + wrong ≤ total
    → (if with_result is_ac o then suc accepted else accepted)
        + (if with_result is_partial o then suc partial else partial)
        + (if with_result is_wrong_result o then suc wrong else wrong)
      ≤ suc total
apart none a p w t h = omega (arith, h)
apart (some v) a p w t h = ground arith

counted_apart :
    (rows : List Submission)
    → count_where (λ s. with_result is_ac s.result) rows
        + count_where (λ s. with_result is_partial s.result) rows
        + count_where (λ s. with_result is_wrong_result s.result) rows
      ≤ count_where (λ s. true) rows
counted_apart [] = omega arith
counted_apart (s ∷ ss) = apart s.result _ _ _ _ (counted_apart ss)

rounded_le :
    (q r d : ℕ)
    → q ≤ 10000
    → (q ≡ 10000 → r ≡ 0)
    → 0 < d
    → (if ltb (2 * r) d then q else if ltb d (2 * r) then suc q else q + q % 2) ≤ 10000
rounded_le q r d few exact pos = elim (Bool-cases (q == 10000)) [
  | inl t ↦ let none_left : r ≡ 0 = exact (ground arith) in ground arith
  | inr f ↦ ground arith
]

exact :
    (q r total correct : ℕ) → q ≡ 10000 → total * q + r ≡ correct * 10000 → correct ≤ total → r ≡ 0
exact q r total correct e parts h =
    omega (arith, subst (λ (q : ℕ). total * q + r ≡ correct * 10000) e parts, h)

scaled : (n : ℕ) → n ≤ 10000 → n * 10000 ≤ whole 100
scaled n h = omega (arith, h)

rate-le : (correct total : ℕ) → correct ≤ total → rate_of correct total ≤ whole 100
unfolding round_half_even
rate-le correct total h = elim (Bool-cases (total == 0)) [
  | inl t ↦ rw t (omega arith)
  | inr f ↦
      let q = correct * 10000 / total in
      let r = correct * 10000 % total in
      let few : q ≤ 10000 = div-le_of_le-mul total (omega (arith, h)) in
      let whole_part : total * q + r ≡ correct * 10000 = div-add-mod (correct * 10000) total in
      rw f (
        scaled _
          (rounded_le q r total few (λ e. exact q r total correct e whole_part h) (ground arith)))
]

-- In a problem's statistics the accepted, partial and wrong submissions are at most all, and the
-- rate is at most 100 %.
pub get_problem_statistics_bounds :
    (k solutions : ℕ) (submissions : List Submission)
    → ((get_problem_statistics k solutions submissions).total_accepted
          + (get_problem_statistics k solutions submissions).total_partial
          + (get_problem_statistics k solutions submissions).total_wrong
        ≤ (get_problem_statistics k solutions submissions).total_submissions)
      × ((get_problem_statistics k solutions submissions).accepted_rate ≤ whole 100)
unfolding get_problem_statistics
get_problem_statistics_bounds k solutions submissions =
    let h = counted_apart (select (is_submitted k) submissions) in
    (h, rate-le _ _ (omega (arith, h)))
