-- ===== src/Content/Comments.antt =====
-- apps/content/services/comment_service.py, apps/content/models/comment.py and comment_vote.py. A
-- materialized path is the list of its segments, which are numbers of at most three digits.
use judgeloom_core.Base.{
  ℕ, suc, String, Bool, true, false, not, ◌&&◌, ◌||◌, Option, none, some, List, [], ◌∷◌, ◌++◌, map,
  leb, ltb, max, ◌==◌, if◌then◌else◌, is_id, is_some, length, select, update_where, Result, ok, err,
  ◌>>=◌, ◌>>◌, raise_if, validation_error,
}
use judgeloom_core.Base.Int.{ℤ, pos, negsuc, ltb_ℤ, ◌+ℤ◌, ◌-ℤ◌}
use judgeloom_core.Base.Sort.{sort_by}

pub data CommentVisibility : Type 0 where
  visible hidden deleted : CommentVisibility

pub record Comment : Type 0 where
  pub id : ℕ
  pub post_id : ℕ
  pub author_id : ℕ
  pub parent_id : Option ℕ
  pub body : String
  pub visibility : CommentVisibility
  pub score : ℤ
  pub path : List ℕ

pub record CommentVote : Type 0 where
  pub comment_id : ℕ
  pub user_id : ℕ
  pub value : ℤ

pub record Discussion : Type 0 where
  pub next_id : ℕ
  pub comments : List Comment
  pub votes : List CommentVote

-- `Comment.depth`
abbrev pub depth : Comment → ℕ
depth c = length c.path

abbrev pub max_depth : ℕ
max_depth = 10

abbrev pub max_segment_value : ℕ
max_segment_value = 999

-- `sibling_path.split(".")[-1]`: an empty path has no number there.
abbrev pub last_segment : List ℕ → Option ℕ
last_segment [] = none
last_segment (x ∷ []) = some x
last_segment (x ∷ y ∷ xs) = last_segment (y ∷ xs)

abbrev pub numeric : Option ℕ → Result ℕ
numeric none = err (validation_error "Invalid comment path segment encountered.")
numeric (some n) = ok n

-- The loop of `_next_segment`
unfoldable pub greatest_segment : ℕ → List (List ℕ) → Result ℕ
greatest_segment current_max [] = ok current_max
greatest_segment current_max (path ∷ paths) =
    numeric (last_segment path) >>= λ n. greatest_segment (max current_max n) paths

-- `_next_segment`
unfoldable pub next_segment : List (List ℕ) → Result ℕ
unfolding greatest_segment
next_segment [] = ok 1
next_segment (path ∷ paths) = do
  current_max ← greatest_segment 0 (path ∷ paths)
  raise_if (ltb max_segment_value (suc current_max))
      (validation_error "Too many sibling comments at this depth.")
  ok (suc current_max)

-- `filter(post=post, parent__isnull=True)` and `filter(post=post, parent=parent)`
abbrev pub is_sibling : ℕ → Option Comment → Comment → Bool
is_sibling post none c = c.post_id == post && not (is_some c.parent_id)
is_sibling post (some parent) c = c.post_id == post && is_id c.parent_id parent.id

unfoldable pub sibling_paths : ℕ → Option Comment → Discussion → List (List ℕ)
sibling_paths post parent d = map (λ c. c.path) (select (is_sibling post parent) d.comments)

abbrev pub check_parent : ℕ → Option Comment → Result (Unit {0})
check_parent post none = raise_if false (validation_error "")
check_parent post (some parent) =
    raise_if (not (parent.post_id == post))
      (validation_error "Parent comment does not belong to this post.")
    >> raise_if (leb max_depth (depth parent)) (validation_error "Maximum comment depth reached.")

abbrev pub parent_path : Option Comment → List ℕ
parent_path none = []
parent_path (some parent) = parent.path

abbrev pub parent_of : Option Comment → Option ℕ
parent_of none = none
parent_of (some parent) = some parent.id

abbrev pub new_comment : ℕ → ℕ → ℕ → String → Option Comment → ℕ → Comment
new_comment k post author body parent segment = record {
  id = k;
  post_id = post;
  author_id = author;
  parent_id = parent_of parent;
  body = body;
  visibility = CommentVisibility.visible;
  score = pos 0;
  path = parent_path parent ++ (segment ∷ []);
}

-- The row that is created once the segment is known.
abbrev pub created_at :
    ℕ → ℕ → String → Option Comment → Discussion → ℕ → Result (Discussion × Comment)
created_at post author body parent d segment =
    let c = new_comment d.next_id post author body parent segment in
    ok (record d { next_id = suc d.next_id; comments = c ∷ d.comments }, c)

-- `CommentService.create_comment`
unfoldable pub create_comment :
    ℕ → ℕ → String → Option Comment → Discussion → Result (Discussion × Comment)
unfolding next_segment sibling_paths
create_comment post author body parent d =
    check_parent post parent
    >> (next_segment (sibling_paths post parent d) >>= created_at post author body parent d)

abbrev pub update_comment : ℕ → (Comment → Comment) → Discussion → Discussion
update_comment k f d = record d { comments = update_where (λ c. c.id == k) f d.comments }

-- `edit_comment`
unfoldable pub edit_comment : ℕ → String → Discussion → Discussion
edit_comment k body d = update_comment k (λ c. record c { body = body }) d

-- `delete_comment`: the row stays, so that its replies keep their parent.
unfoldable pub delete_comment : ℕ → Discussion → Discussion
delete_comment k d =
    update_comment k (λ c. record c { visibility = CommentVisibility.deleted; body = "[deleted]" })
      d

abbrev pub eq_ℤ : ℤ → ℤ → Bool
eq_ℤ a b = not (ltb_ℤ a b) && not (ltb_ℤ b a)

-- `value in (UPVOTE, DOWNVOTE)`
abbrev pub is_vote : ℤ → Bool
is_vote value = eq_ℤ value (pos 1) || eq_ℤ value (negsuc 0)

-- What a vote adds to the score when the user has voted `old` before.
abbrev pub score_delta : ℤ → ℤ → ℤ
score_delta old value = if eq_ℤ old value then pos 0 else value -ℤ old

-- The vote of `get_or_create` gets the new value, with what this adds to the score.
unfoldable pub cast_vote : ℕ → ℕ → ℤ → List CommentVote → List CommentVote × ℤ
cast_vote comment user value [] =
    (record { comment_id = comment; user_id = user; value = value } ∷ [], value)
cast_vote comment user value (v ∷ vs) =
    let (rest, delta) = cast_vote comment user value vs in
    if v.comment_id == comment && v.user_id == user
    then (record v { value = value } ∷ vs, score_delta v.value value)
    else (v ∷ rest, delta)

-- `vote_comment`
unfoldable pub vote_comment : ℕ → ℕ → ℤ → Discussion → Result Discussion
unfolding cast_vote
vote_comment comment user value d = do
  raise_if (not (is_vote value)) (validation_error "Vote value must be +1 or -1.")
  let (votes, delta) = cast_vote comment user value d.votes
  ok (
      update_comment comment (λ c. record c { score = c.score +ℤ delta })
        (record d { votes = votes }))

abbrev pub is_visible : CommentVisibility → Bool
is_visible CommentVisibility.visible = true
is_visible _ = false

-- Paths compare segment by segment, as the texts of fixed width do.
abbrev pub path_order : List ℕ → List ℕ → Bool
path_order [] ys = true
path_order (x ∷ xs) [] = false
path_order (x ∷ xs) (y ∷ ys) =
    let rest = path_order xs ys in if ltb x y then true else (if ltb y x then false else rest)

-- `get_comments_for_post`
unfoldable pub get_comments_for_post : ℕ → Discussion → List Comment
get_comments_for_post post d =
    sort_by (λ a b. path_order a.path b.path)
      (select (λ c. c.post_id == post && is_visible c.visibility) d.comments)
