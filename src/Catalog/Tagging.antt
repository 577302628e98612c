-- ===== src/Catalog/Tagging.antt =====
-- A problem that was tagged is listed under the tag.
use judgeloom_core.Base.{
  ℕ, ◌≡◌, refl, sym, ap, ◌∙◌, subst, arith, ◌==◌, ==_iff, Bool, true, false, Option, none, some,
  List, [], ◌∷◌, ◌++◌, if◌then◌else◌, any, select, contains, first-append, first-add,
  first-update_each, select-none, Result, ok, err, ◌>>=◌, >>-eq-ok, ok-injective, raise_if,
  integrity_error, value_error, Bool-cases, inl, inr,
}
use judgeloom_core.Base.Text.{Text, text_eq, text_eq_sound, text_eq_refl, is_empty, strip, is_in}
use judgeloom_core.Models.{User, Problem}
use judgeloom_core.Catalog.Problems.{get_visible_problems}
use judgeloom_core.Catalog.Tags.{
  Tag, Tags, find_tag, add_tag, or_create, get_or_create_tag, written, tag_for, put_before,
  and_then, collect_tags, with_problem, attach_problem, tagged, tag_problem, or_no_tag,
  get_problems_by_tag,
}

-- No tag is lost between two states.
abbrev Keeps : Tags → Tags → Type 0
Keeps db new = (code : Text) (t : Tag) → find_tag code db ≡ some t → find_tag code new ≡ some t

created :
    (o : Option Tag) (name code : Text) (db new : Tags) (tag : Tag)
    → find_tag code db ≡ o
    → or_create o name code db ≡ ok (tag, new)
    → (find_tag code new ≡ some tag) × Keeps db new
created (some t) name code db new tag found e =
    let same = ok-injective (t, db) (tag, new) e in
    (
      subst (λ (r : Tag × Tags). find_tag code r.1 ≡ some r.0) same found,
      subst (λ (r : Tag × Tags). Keeps db r.1) same (λ c t h. h),
    )
created none name code db new tag found e =
    let (_, made) =
      >>-eq-ok
        (raise_if (any (λ t. text_eq t.name name) db.rows)
          (integrity_error "UNIQUE constraint failed: tags_tag.name"))
        (ok (add_tag name code db)) e in
    let same = ok-injective (add_tag name code db) (tag, new) made in
    (
      subst (λ (r : Tag × Tags). find_tag code r.1 ≡ some r.0) same
          (first-add (λ t. text_eq t.code code) db.rows (add_tag name code db).0
            (select-none (λ t. text_eq t.code code) db.rows found) (text_eq_refl code)),
      subst (λ (r : Tag × Tags). Keeps db r.1) same
          (λ c t h. first-append (λ t. text_eq t.code c) db.rows _ h),
    )

contains-left : (k : ℕ) (xs ys : List ℕ) → contains k xs ≡ true → contains k (xs ++ ys) ≡ true
contains-left k [] ys h = cc
contains-left k (x ∷ xs) ys h = ground (arith, contains-left k xs ys)

contains-right : (k : ℕ) (xs ys : List ℕ) → contains k ys ≡ true → contains k (xs ++ ys) ≡ true
contains-right k [] ys h = h
contains-right k (x ∷ xs) ys h = ground (arith, contains-right k xs ys h)

contains-with_problem : (k : ℕ) (t : Tag) → contains k (with_problem k t).problems ≡ true
contains-with_problem k t = elim (Bool-cases (contains k t.problems)) [
  | inl h ↦ rw h h
  | inr f ↦ rw f (contains-right k t.problems (k ∷ []) (ground arith))
]

-- The filter of a tag keeps a problem that is tagged, where it is in the list.
listed_still :
    (k : ℕ) (ids : List ℕ) (ps : List Problem)
    → contains k ids ≡ true
    → any (λ p. p.id == k) (select (λ p. contains p.id ids) ps) ≡ any (λ p. p.id == k) ps
listed_still k ids [] h = refl
listed_still k ids (p ∷ ps) h = elim (Bool-cases (p.id == k)) [
  | inl t ↦
      let here : contains p.id ids ≡ true =
        subst (λ i. contains i ids ≡ true) (sym ((==_iff p.id k).0 t)) h in
      rw (here, t) refl
  | inr f ↦ elim (Bool-cases (contains p.id ids)) [
    | inl t ↦ rw (t, f) (listed_still k ids ps h)
    | inr g ↦ rw (g, f) (listed_still k ids ps h)
  ]
]

written-eq-ok :
    (db mid : Tags) (r : Result (Tag × Tags)) (here : List ℕ)
    → written db r ≡ (mid, ok here)
    → (tag : Tag) × (r ≡ ok (tag, mid)) × (tag.id ∷ [] ≡ here)
written-eq-ok db mid (err e) here h = cc
written-eq-ok db mid (ok (tag, new)) here h =
    (tag, ap (λ (n : Tags). ok (tag, n)) (ap (λ r. r.0) h), ok-injective _ _ (ap (λ r. r.1) h))

put_before-eq-ok :
    (here ids : List ℕ) (r : Tags × Result (List ℕ)) (new : Tags)
    → put_before here r ≡ (new, ok ids)
    → (later : List ℕ) × (r ≡ (new, ok later)) × (here ++ later ≡ ids)
put_before-eq-ok here ids (db, err e) new h = cc
put_before-eq-ok here ids (db, ok later) new h =
    (later, ap (λ (n : Tags). (n, ok later)) (ap (λ r. r.0) h), ok-injective _ _ (ap (λ r. r.1) h))

and_then-eq-ok :
    (r : Tags × Result (List ℕ)) (rest : Tags → Tags × Result (List ℕ)) (new : Tags) (ids : List ℕ)
    → and_then r rest ≡ (new, ok ids)
    → (mid : Tags) × (here : List ℕ) × (later : List ℕ) × (r ≡ (mid, ok here))
      × (rest mid ≡ (new, ok later))
      × (here ++ later ≡ ids)
and_then-eq-ok (db, err e) rest new ids h = cc
and_then-eq-ok (db, ok here) rest new ids h =
    let (later, is, joined) = put_before-eq-ok here ids (rest db) new h in
    (db, here, later, refl, is, joined)

tagged-eq-ok :
    (k : ℕ) (r : Tags × Result (List ℕ)) (new : Tags)
    → tagged k r ≡ (new, ok tt)
    → (mid : Tags) × (ids : List ℕ) × (r ≡ (mid, ok ids)) × (attach_problem k ids mid ≡ new)
tagged-eq-ok k (db, err e) new h = cc
tagged-eq-ok k (db, ok ids) new h = (db, ids, refl, ap (λ r. r.0) h)

blank-Keeps :
    (db mid : Tags) (here : List ℕ)
    → ◌≡◌ {A = Tags × Result (List ℕ)} (db, ok []) (mid, ok here)
    → Keeps db mid
blank-Keeps db mid here e = subst (Keeps db) (ap (λ r. r.0) e) (λ c t h. h)

module _ (slugify : Text → Text) where
  -- The tag that a name stands for is among those of the ids.
  abbrev IsTagged : Text → List ℕ → Tags → Type 0
  unfolding strip
  IsTagged name ids db =
      (t : Tag) × (find_tag (slugify (strip name)) db ≡ some t) × (contains t.id ids ≡ true)

  tag_for-IsTagged :
      (name : Text) (db mid : Tags) (here : List ℕ)
      → tag_for slugify name db ≡ (mid, ok here)
      → Keeps db mid × (is_empty (strip name) ≡ false → IsTagged name here mid)
  unfolding tag_for get_or_create_tag strip
  tag_for-IsTagged name db mid here e = elim (Bool-cases (is_empty (strip name))) [
    | inl t ↦ (blank-Keeps db mid here (rw t at e), λ f. cc)
    | inr f ↦
        let wrote : written db (get_or_create_tag slugify name db) ≡ (mid, ok here) = rw f at e in
        let (tag, is, ids) = written-eq-ok db mid (get_or_create_tag slugify name db) here wrote in
        let code = slugify (strip name) in
        let (_, made) =
          >>-eq-ok (raise_if (is_empty code) (value_error "Tag name cannot produce an empty slug."))
            (or_create (find_tag code db) (strip name) code db) is in
        let (found, keeps) = created (find_tag code db) (strip name) code db mid tag refl made in
        (
          keeps,
          λ _. (
            tag,
            found,
            subst (λ ids. contains tag.id ids ≡ true) ids
                (ground (arith, (==_iff tag.id tag.id).1 refl)),
          ),
        )
  ]

  collect_tags-IsTagged :
      (names : List Text) (db new : Tags) (ids : List ℕ)
      → collect_tags slugify names db ≡ (new, ok ids)
      → Keeps db new
        × ((name : Text)
            → is_in name names ≡ true
            → is_empty (strip name) ≡ false
            → IsTagged name ids new)
  unfolding collect_tags strip
  collect_tags-IsTagged [] db new ids e =
      (subst (Keeps db) (ap (λ r. r.0) e) (λ c t h. h), λ name h f. cc)
  collect_tags-IsTagged (n ∷ names) db new ids e =
      let (mid, here, later, first_one, others, joined) =
        and_then-eq-ok (tag_for slugify n db) (collect_tags slugify names) new ids e in
      let (kept, own) = tag_for-IsTagged n db mid here first_one in
      let (kept_on, rest) = collect_tags-IsTagged names mid new later others in
      (
        λ c t h. kept_on c t (kept c t h),
        λ name h f. elim (Bool-cases (text_eq n name)) [
          | inl same ↦
              let is : n ≡ name = text_eq_sound n name same in
              let (t, found, has) = own (subst (λ m. is_empty (strip m) ≡ false) (sym is) f) in
              (
                t,
                subst (λ m. find_tag (slugify (strip m)) new ≡ some t) is (kept_on _ t found),
                subst (λ ids. contains t.id ids ≡ true) joined (contains-left t.id here later has),
              )
          | inr other ↦
              let there : is_in name names ≡ true = ground arith in
              let (t, found, has) = rest name there f in
              (
                t,
                found,
                subst (λ ids. contains t.id ids ≡ true) joined (contains-right t.id here later has),
              )
        ],
      )

  -- Once a problem was tagged with some names without an error, the problems of the tag of each name
  -- that is not blank are found by its code, and whoever sees the problem finds it among them.
  pub tag_problem-get_problems_by_tag :
      (p : Problem) (names : List Text) (name : Text) (u : User) (problems : List Problem)
      (db new : Tags)
      → tag_problem slugify p names db ≡ (new, ok tt)
      → is_in name names ≡ true
      → is_empty (strip name) ≡ false
      → (found : List Problem) × (get_problems_by_tag (slugify (strip name)) u problems new
          ≡ ok found)
        × (any (λ q. q.id == p.id) found
            ≡ any (λ q. q.id == p.id) (get_visible_problems u problems))
  unfolding tag_problem get_problems_by_tag
  tag_problem-get_problems_by_tag p names name u problems db new e named filled =
      let (mid, ids, collected, added) = tagged-eq-ok p.id (collect_tags slugify names db) new e in
      let (t, found, has) =
        (collect_tags-IsTagged names db mid ids collected).1 name named filled in
      let code = slugify (strip name) in
      let after : find_tag code (attach_problem p.id ids mid) ≡ some (with_problem p.id t) =
        first-update_each (λ t. text_eq t.code code) (λ t. contains t.id ids) (with_problem p.id)
          mid.rows (λ t. ap (λ c. text_eq c code) (same_code (contains p.id t.problems) t)) found
        ∙ ap (λ b. some (if b then with_problem p.id t else t)) has in
      let listed =
        select (λ q. contains q.id (with_problem p.id t).problems)
          (get_visible_problems u problems) in
      (
        listed,
        ap
            (λ (o : Option Tag). or_no_tag o >>= λ tag.
              ok (select (λ q. contains q.id tag.problems) (get_visible_problems u problems)))
            (ap (find_tag code) (sym added) ∙ after),
        listed_still p.id (with_problem p.id t).problems (get_visible_problems u problems)
            (contains-with_problem p.id t),
      )
    where
      same_code :
          (b : Bool) (t : Tag)
          → (if b then t else record t { problems = t.problems ++ p.id ∷ [] }).code ≡ t.code
      same_code true t = refl
      same_code false t = refl
