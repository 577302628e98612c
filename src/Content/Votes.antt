-- ===== src/Content/Votes.antt =====
-- The score of a comment and its votes (apps/content/services/comment_service.py, `vote_comment`).
use judgeloom_core.Base.{
  ℕ, ◌≡◌, subst, inl, inr, not, List, [], ◌∷◌, ◌==◌, if◌then◌else◌, update_where, All, Bool-cases,
  ok, >>-eq-ok, ok-injective, raise_if, validation_error,
}
use judgeloom_core.Base.Int.{ℤ, pos, ◌+ℤ◌, int_laws}
use judgeloom_core.Content.Comments.{
  Comment, CommentVote, Discussion, is_vote, score_delta, cast_vote, vote_comment,
}

-- The sum of the votes of a comment.
abbrev pub vote_sum : ℕ → List CommentVote → ℤ
vote_sum k [] = pos 0
vote_sum k (v ∷ vs) = (if v.comment_id == k then v.value else pos 0) +ℤ vote_sum k vs

abbrev pub CountsVotes : List CommentVote → Comment → Type 0
CountsVotes votes c = c.score ≡ vote_sum c.id votes

score_delta_lem : (old value : ℤ) → old +ℤ score_delta old value ≡ value
score_delta_lem old value = grind int_laws

vote_sum-cast_vote :
    (k comment user : ℕ) (value : ℤ) (vs : List CommentVote)
    → vote_sum k (cast_vote comment user value vs).0
      ≡ vote_sum k vs +ℤ (if comment == k then (cast_vote comment user value vs).1 else pos 0)
unfolding cast_vote
vote_sum-cast_vote k comment user value [] = grind int_laws
vote_sum-cast_vote k comment user value (v ∷ vs) =
    grind (int_laws, vote_sum-cast_vote k comment user value vs, score_delta_lem v.value value)

-- The row of a comment after the score has been updated.
counted-row :
    (comment user : ℕ) (value : ℤ) (votes : List CommentVote) (c : Comment)
    → CountsVotes votes c
    → CountsVotes (cast_vote comment user value votes).0 (
        if c.id == comment
        then record c { score = c.score +ℤ (cast_vote comment user value votes).1 }
        else c)
counted-row comment user value votes c h = elim (Bool-cases (c.id == comment)) [
  | inl e ↦ rw e (grind (int_laws, vote_sum-cast_vote c.id comment user value votes))
  | inr e ↦ rw e (grind (int_laws, vote_sum-cast_vote c.id comment user value votes))
]

counted-rows :
    (comment user : ℕ) (value : ℤ) (votes : List CommentVote) (cs : List Comment)
    → All (CountsVotes votes) cs
    → All (CountsVotes (cast_vote comment user value votes).0) (
        update_where
          (λ c. c.id == comment)
          (λ c. record c { score = c.score +ℤ (cast_vote comment user value votes).1 })
          cs)
counted-rows comment user value votes [] h = tt
counted-rows comment user value votes (c ∷ cs) h =
    (counted-row comment user value votes c h.0, counted-rows comment user value votes cs h.1)

-- If every comment's score is the sum of its votes, it still is after a vote: a first one, a
-- repeated one, and one that changes sides.
pub vote_comment-CountsVotes :
    (comment user : ℕ) (value : ℤ) (d new : Discussion)
    → All (CountsVotes d.votes) d.comments
    → vote_comment comment user value d ≡ ok new
    → All (CountsVotes new.votes) new.comments
unfolding vote_comment
vote_comment-CountsVotes comment user value d new h e =
    let (_, done) =
      >>-eq-ok (raise_if (not (is_vote value)) (validation_error "Vote value must be +1 or -1.")) _
        e in
    subst (λ d. All (CountsVotes d.votes) d.comments) (ok-injective _ _ done)
      (counted-rows comment user value d.votes d.comments h)
