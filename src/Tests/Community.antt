-- ===== src/Tests/Community.antt =====
-- Comments, votes, and the members of an organization.
use judgeloom_core.Base.{
  ℕ, String, ◌≡◌, ◌≢◌, ◌≤◌, ◌++◌, refl, arith, Option, none, some, List, [], ◌∷◌, All, Result, ok,
  err,
}
use judgeloom_core.Base.Int.{ℤ, pos, negsuc}
use judgeloom_core.Content.Comments.{
  Comment, CommentVisibility, Discussion, depth, max_depth, max_segment_value, parent_path,
  sibling_paths, create_comment, vote_comment,
}
use judgeloom_core.Content.Votes.{CountsVotes, vote_comment-CountsVotes}
use judgeloom_core.Content.Paths.{create_comment-path}
use judgeloom_core.Organizations.Membership.{Directory, asks, act}
use judgeloom_core.Organizations.Roles.{IsConsistent, act-IsConsistent}

abbrev root : Comment
root = record {
  id = 1;
  post_id = 7;
  author_id = 2;
  parent_id = none;
  body = "first";
  visibility = CommentVisibility.visible;
  score = pos 1;
  path = 1 ∷ [];
}

abbrev thread : Discussion
thread = record {
  next_id = 2;
  comments = root ∷ [];
  votes = record { comment_id = 1; user_id = 5; value = pos 1 } ∷ [];
}

abbrev replied_or : Result (Discussion × Comment) → Discussion × Comment
replied_or (ok r) = r
replied_or (err e) = (thread, root)

abbrev replied : Discussion × Comment
replied = replied_or (create_comment 7 3 "reply" (some root) thread)

reply_ok : create_comment 7 3 "reply" (some root) thread ≡ ok (replied.0, replied.1)
unfolding create_comment
reply_ok = refl

reply_path : replied.1.path ≡ 1 ∷ 1 ∷ []
unfolding create_comment
reply_path = refl

create_comment-path_example :
    (n : ℕ) × (replied.1.path ≡ parent_path (some root) ++ (n ∷ []))
    × (n ≤ max_segment_value)
    × (depth replied.1 ≤ max_depth)
    × All (λ path. path ≢ replied.1.path) (sibling_paths 7 (some root) thread)
create_comment-path_example =
    create_comment-path 7 3 "reply" (some root) thread replied.0 replied.1 reply_ok

abbrev discussion_or : Result Discussion → Discussion
discussion_or (ok d) = d
discussion_or (err e) = thread

-- The user who voted for the comment now votes against it.
abbrev revoted : Discussion
revoted = discussion_or (vote_comment 1 5 (negsuc 0) thread)

vote_ok : vote_comment 1 5 (negsuc 0) thread ≡ ok revoted
unfolding vote_comment
vote_ok = refl

thread-CountsVotes : All (CountsVotes thread.votes) thread.comments
unfolding judgeloom_core.Base.Int.◌+ℤ◌
thread-CountsVotes = (refl, tt)

vote_comment-CountsVotes_example : All (CountsVotes revoted.votes) revoted.comments
vote_comment-CountsVotes_example =
    vote_comment-CountsVotes 1 5 (negsuc 0) thread revoted thread-CountsVotes vote_ok

abbrev directory : Directory
directory = record { next_id = 1; members = (4, 2) ∷ []; admins = (4, 2) ∷ []; requests = [] }

abbrev directory_or : Result Directory → Directory
directory_or (ok d) = d
directory_or (err e) = directory

abbrev asked : Directory
asked = directory_or (act (asks 4 3 "please") directory)

ask_ok : act (asks 4 3 "please") directory ≡ ok asked
unfolding act
ask_ok = refl

directory-IsConsistent : IsConsistent directory
directory-IsConsistent = record {
  admins_belong = (refl, tt);
  one_pending = λ org user. omega arith;
}

act-IsConsistent_example : IsConsistent asked
act-IsConsistent_example =
    act-IsConsistent (asks 4 3 "please") directory asked directory-IsConsistent ask_ok
