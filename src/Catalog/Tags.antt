-- ===== src/Catalog/Tags.antt =====
-- apps/tags/services/tag_service.py. Django's `slugify` is a parameter. What raises has written
-- what it wrote before, as nothing encloses it in a transaction. The column `slug` and the limit of
-- 64 characters are left out.
use judgeloom_core.Base.{
  ℕ, zero, suc, ◌==◌, ltb, Bool, true, false, not, Option, none, some, if◌then◌else◌, List, [], ◌∷◌,
  ◌++◌, map, any, first, select, count_where, contains, update_where, Result, ok, err, ◌>>=◌, ◌>>◌,
  raise_if, value_error, integrity_error, not_found,
}
use judgeloom_core.Base.Sort.{sort_by}
use judgeloom_core.Base.Text.{Text, text_eq, text_leb, is_empty, strip, is_in}
use judgeloom_core.Models.{User, Problem}
use judgeloom_core.Catalog.Problems.{get_visible_problems}

-- `problems` holds the ids of the tagged problems.
pub record Tag : Type 0 where
  pub id : ℕ
  pub name : Text
  pub code : Text
  pub problems : List ℕ

pub record Tags : Type 0 where
  pub next_id : ℕ
  pub rows : List Tag

-- `Tag.objects.filter(code=…).first()`
abbrev pub find_tag : Text → Tags → Option Tag
find_tag code db = first (select (λ t. text_eq t.code code) db.rows)

abbrev pub new_tag : ℕ → Text → Text → Tag
new_tag id name code = record { id = id; name = name; code = code; problems = [] }

abbrev pub add_tag : Text → Text → Tags → Tag × Tags
add_tag name code db =
    let tag = new_tag db.next_id name code in
    (tag, record { next_id = suc db.next_id; rows = db.rows ++ tag ∷ [] })

-- `get_or_create` of a code: the names are unique too.
abbrev pub or_create : Option Tag → Text → Text → Tags → Result (Tag × Tags)
or_create (some tag) name code db = ok (tag, db)
or_create none name code db =
    raise_if (any (λ t. text_eq t.name name) db.rows)
      (integrity_error "UNIQUE constraint failed: tags_tag.name")
    >> ok (add_tag name code db)

-- What a step leaves, with the ids of its tags or what it raised.
abbrev pub written : Tags → Result (Tag × Tags) → Tags × Result (List ℕ)
written db (err e) = (db, err e)
written db (ok (tag, new)) = (new, ok (tag.id ∷ []))

abbrev pub put_before : List ℕ → Tags × Result (List ℕ) → Tags × Result (List ℕ)
put_before here (db, err e) = (db, err e)
put_before here (db, ok later) = (db, ok (here ++ later))

-- The loop goes on where nothing was raised.
abbrev pub and_then :
    Tags × Result (List ℕ) → (Tags → Tags × Result (List ℕ)) → Tags × Result (List ℕ)
and_then (db, err e) rest = (db, err e)
and_then (db, ok here) rest = put_before here (rest db)

-- `problem.tags.add(*tags)`
abbrev pub with_problem : ℕ → Tag → Tag
with_problem k t = if contains k t.problems then t else record t { problems = t.problems ++ k ∷ [] }

abbrev pub attach_problem : ℕ → List ℕ → Tags → Tags
attach_problem k ids db = record db {
  rows = update_where (λ t. contains t.id ids) (with_problem k) db.rows;
}

abbrev pub tagged : ℕ → Tags × Result (List ℕ) → Tags × Result (Unit {0})
tagged k (db, err e) = (db, err e)
tagged k (db, ok ids) = (attach_problem k ids db, ok tt)

module _ (slugify : Text → Text) where
  -- `get_or_create_tag`
  unfoldable pub get_or_create_tag : Text → Tags → Result (Tag × Tags)
  unfolding strip
  get_or_create_tag name db =
      let code = slugify (strip name) in
      raise_if (is_empty code) (value_error "Tag name cannot produce an empty slug.")
      >> or_create (find_tag code db) (strip name) code db

  -- One round of the loop of `tag_problem`: a blank name is passed over.
  unfoldable pub tag_for : Text → Tags → Tags × Result (List ℕ)
  unfolding get_or_create_tag strip
  tag_for name db =
      if is_empty (strip name) then (db, ok []) else written db (get_or_create_tag name db)

  unfoldable pub collect_tags : List Text → Tags → Tags × Result (List ℕ)
  unfolding tag_for
  collect_tags [] db = (db, ok [])
  collect_tags (name ∷ names) db = and_then (tag_for name db) (collect_tags names)

  -- `tag_problem`
  unfoldable pub tag_problem : Problem → List Text → Tags → Tags × Result (Unit {0})
  unfolding collect_tags
  tag_problem p names db = tagged p.id (collect_tags names db)

-- `untag_problem`
abbrev pub without_problem : ℕ → Tag → Tag
without_problem k t = record t { problems = select (λ i. not (i == k)) t.problems }

abbrev pub cleaned_names : List Text → List Text
unfolding strip
cleaned_names names = map strip (select (λ name. not (is_empty (strip name))) names)

unfoldable pub untag_problem : Problem → List Text → Tags → Tags
unfolding strip
untag_problem p names db = record db {
  rows = update_where (λ t. is_in t.name (cleaned_names names)) (without_problem p.id) db.rows;
}

-- `problem_total`: the tag's problems among those that the user sees
abbrev pub problem_total : List Problem → Tag → ℕ
problem_total visible t = count_where (λ p. contains p.id t.problems) visible

-- `order_by("-problem_total", "name")`
abbrev pub tag_order : List Problem → Tag → Tag → Bool
tag_order visible s t =
    let m = problem_total visible s in
    let n = problem_total visible t in
    if ltb n m then true else (if m == n then text_leb s.name t.name else false)

abbrev pub first_tags : ℕ → List Tag → List Tag
first_tags zero ts = []
first_tags (suc n) [] = []
first_tags (suc n) (t ∷ ts) = t ∷ first_tags n ts

-- `get_popular_tags`
unfoldable pub get_popular_tags : ℕ → User → List Problem → Tags → List Tag
unfolding sort_by get_visible_problems
get_popular_tags limit u problems db =
    first_tags limit (sort_by (tag_order (get_visible_problems u problems)) db.rows)

abbrev pub or_no_tag : Option Tag → Result Tag
or_no_tag none = err (not_found "Tag does not exist.")
or_no_tag (some t) = ok t

-- `get_problems_by_tag`
unfoldable pub get_problems_by_tag : Text → User → List Problem → Tags → Result (List Problem)
unfolding get_visible_problems
get_problems_by_tag code u problems db = do
  tag ← or_no_tag (find_tag code db)
  ok (select (λ p. contains p.id tag.problems) (get_visible_problems u problems))
