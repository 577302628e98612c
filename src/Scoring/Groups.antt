-- ===== src/Scoring/Groups.antt =====
-- The scores are kept by the package's groups: the loops of the scoring service add no other key.
use judgeloom_core.Base.{
  ℕ, suc, ◌≡◌, refl, ap, ◌∙◌, Bool, true, false, Option, none, some, List, [], ◌∷◌, ◌++◌, arith,
  ◌==◌, if◌then◌else◌, is_some, contains,
}
use judgeloom_core.Base.Dict.{Dict, lookup, insert, get_or}
use judgeloom_core.Models.{Verdict, Group, ManifestCase}
use judgeloom_core.Scoring.Cases.{ReportedCase}
use judgeloom_core.Scoring.{
  default_group, group_defs_from, empty_scores, group_for, append_score, Tally, manifest_case,
  tally_case, tally_cases, add_missing,
}

abbrev pub keys {ℓ} : {V : Type ℓ} → Dict V → List ℕ
keys [] = []
keys ((k, _) ∷ d) = k ∷ keys d

module _ {ℓ} {V : Type ℓ} where
  keys-insert :
      (k : ℕ) (v : V) (d : Dict V) → contains k (keys d) ≡ true → keys (insert k v d) ≡ keys d
  keys-insert k v [] h = cc
  keys-insert k v (e ∷ d) h = ground (arith, keys-insert k v d)

  contains-lookup : (k : ℕ) (d : Dict V) → is_some (lookup k d) ≡ contains k (keys d)
  contains-lookup k [] = refl
  contains-lookup k (e ∷ d) = ground (arith, contains-lookup k d)

  -- No key stands twice.
  abbrev pub IsDict : Dict V → Type 0
  IsDict [] = Unit
  IsDict ((k, _) ∷ d) = (contains k (keys d) ≡ false) × IsDict d

  contains-insert_ne :
      (j k : ℕ) (v : V) (d : Dict V)
      → (j == k) ≡ false
      → contains j (keys (insert k v d)) ≡ contains j (keys d)
  contains-insert_ne j k v [] h = ground arith
  contains-insert_ne j k v (e ∷ d) h = ground (arith, contains-insert_ne j k v d h)

  insert-IsDict : (k : ℕ) (v : V) (d : Dict V) → IsDict d → IsDict (insert k v d)
  insert-IsDict k v [] h = (refl, tt)
  insert-IsDict k v (e ∷ d) h =
      ground (arith, insert-IsDict k v d h.1, contains-insert_ne e.0 k v d)

pub group_defs_from-IsDict :
    (gs : List Group) (d : Dict Group) → IsDict d → IsDict (group_defs_from gs d)
group_defs_from-IsDict [] d h = h
group_defs_from-IsDict (g ∷ gs) d h =
    group_defs_from-IsDict gs (insert g.id g d) (insert-IsDict g.id g d h)

unfoldable pub is_cons {ℓ} : {A : Type ℓ} → List A → Bool
is_cons [] = false
is_cons (x ∷ xs) = true

pub group_defs_from-cons :
    (gs : List Group) (d : Dict Group) → is_cons d ≡ true → is_cons (group_defs_from gs d) ≡ true
unfolding is_cons
group_defs_from-cons [] d h = h
group_defs_from-cons (g ∷ gs) d h = group_defs_from-cons gs (insert g.id g d) (inserted d)
  where
    inserted : (e : Dict Group) → is_cons (insert g.id g e) ≡ true
    inserted [] = refl
    inserted (x ∷ e) = ground arith

-- The group that a case is added to is one of the package's.
group_for-known :
    (defs : Dict Group) (m : ManifestCase)
    → is_cons defs ≡ true
    → contains (group_for defs m) (keys defs) ≡ true
unfolding is_cons
group_for-known [] m h = cc
group_for-known (e ∷ d) m h =
    ground (arith, contains-lookup m.group d, contains-lookup default_group d)

pub keys-empty_scores : (defs : Dict Group) → keys (empty_scores defs) ≡ keys defs
keys-empty_scores [] = refl
keys-empty_scores ((k, g) ∷ defs) = ap (◌∷◌ k) (keys-empty_scores defs)

module _ (defs : Dict Group) (known : is_cons defs ≡ true) where
  keys-append_score :
      (m : ManifestCase) (x : ℕ) (d : Dict (List ℕ))
      → keys d ≡ keys defs
      → keys (append_score (group_for defs m) x d) ≡ keys defs
  unfolding append_score
  keys-append_score m x d e =
      keys-insert (group_for defs m) (get_or (group_for defs m) [] d ++ (x ∷ [])) d
        (rw e (group_for-known defs m known))
      ∙ e

  keys-tally_case :
      (o : Option ManifestCase) (c : ReportedCase) (t : Tally)
      → keys t.case_scores ≡ keys defs
      → keys (tally_case defs o c t).case_scores ≡ keys defs
  unfolding tally_case
  keys-tally_case none c t e = e
  keys-tally_case (some m) c t e = keys-append_score m _ t.case_scores e

  pub keys-tally_cases :
      (cases : List ManifestCase) (cs : List ReportedCase) (t : Tally)
      → keys t.case_scores ≡ keys defs
      → keys (tally_cases defs cases cs t).case_scores ≡ keys defs
  unfolding tally_cases
  keys-tally_cases cases [] t e = e
  keys-tally_cases cases (c ∷ cs) t e =
      keys-tally_cases cases cs (tally_case defs (manifest_case cases c.case_number) c t)
        (keys-tally_case (manifest_case cases c.case_number) c t e)

  pub keys-add_missing :
      (statuses : Dict Verdict) (n : ℕ) (ms : List ManifestCase) (d : Dict (List ℕ))
      → keys d ≡ keys defs
      → keys (add_missing defs statuses n ms d) ≡ keys defs
  unfolding add_missing
  keys-add_missing statuses n [] d e = e
  keys-add_missing statuses n (m ∷ ms) d e =
      keys-add_missing statuses (suc n) ms
        (if is_some (lookup n statuses) then d else append_score (group_for defs m) 0 d)
        (ground (arith, keys-append_score m 0 d e))
