-- ===== src/Snapshot.antt =====
-- Vote of validators/store/types.go and Snapshot of validators/store/snapshot/types.go.
-- Go copies values here; a pure value needs no copy, so Copy only resets what it does not carry over.
use mainnet.Common.{
  ℕ, Bool, true, false, not, ◌&&◌, Option, none, List, [], ◌∷◌, ◌++◌, ◌==◌, if◌then◌else◌, same,
  length, keep, count_if,
}
use mainnet.Validators.Validator.{Validator, equal}
use mainnet.Validators.Set.{Set, equal_set}

pub record Vote : Type 0 where
  pub validator : ℕ
  pub candidate : Validator
  pub authorize : Bool

unfoldable pub equal_vote : Vote → Vote → Bool
unfolding equal
equal_vote v w =
    if v.validator == w.validator
    then (if equal v.candidate w.candidate then same v.authorize w.authorize else false)
    else false

-- `hash` is `none` for the empty string, and the block hash otherwise.
pub record Snapshot : Type 0 where
  pub number : ℕ
  pub hash : Option ℕ
  pub votes : List Vote
  pub validators : Set

unfoldable pub equal_votes : List Vote → List Vote → Bool
unfolding equal_vote
equal_votes [] [] = true
equal_votes (v ∷ vs) (w ∷ ws) = equal_vote v w && equal_votes vs ws
equal_votes _ _ = false

unfoldable pub equal_snapshot : Snapshot → Snapshot → Bool
unfolding equal_votes equal_set
equal_snapshot s t =
    if length s.votes == length t.votes
    then (if equal_votes s.votes t.votes then equal_set s.validators t.validators else false)
    else false

unfoldable pub count : (Vote → Bool) → Snapshot → ℕ
unfolding count_if
count h s = count_if h s.votes

unfoldable pub add_vote : Snapshot → ℕ → Validator → Bool → Snapshot
add_vote s voter candidate authorize = record s {
  votes =
      s.votes ++ record { validator = voter; candidate = candidate; authorize = authorize } ∷ [];
}

unfoldable pub copy : Snapshot → Snapshot
copy s = record s { number = 0; hash = none }

abbrev pub by_voter_and_candidate : ℕ → Validator → Vote → Bool
by_voter_and_candidate voter c v = v.validator == voter && equal v.candidate c

abbrev pub by_candidate : Validator → Vote → Bool
by_candidate c v = equal v.candidate c

abbrev pub by_voter : ℕ → Vote → Bool
by_voter voter v = v.validator == voter

unfoldable pub count_by_voter_and_candidate : Snapshot → ℕ → Validator → ℕ
unfolding count
count_by_voter_and_candidate s voter c = count (by_voter_and_candidate voter c) s

unfoldable pub count_by_candidate : Snapshot → Validator → ℕ
unfolding count
count_by_candidate s c = count (by_candidate c) s

unfoldable pub remove_votes : (Vote → Bool) → Snapshot → Snapshot
unfolding keep
remove_votes h s = record s { votes = keep (λ v. not (h v)) s.votes }

unfoldable pub remove_votes_by_voter : Snapshot → ℕ → Snapshot
unfolding remove_votes
remove_votes_by_voter s voter = remove_votes (by_voter voter) s

unfoldable pub remove_votes_by_candidate : Snapshot → Validator → Snapshot
unfolding remove_votes
remove_votes_by_candidate s c = remove_votes (by_candidate c) s
