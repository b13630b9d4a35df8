-- ===== src/Voting/Votes.antt =====
-- processVote of validators/store/snapshot/snapshot.go and the helpers of helper.go: one vote against
-- the copy of a snapshot, which is dropped on an error.
use mainnet.Common.{
  ℕ, ◌/◌, Bool, not, ltb, ◌==◌, if◌then◌else◌, same, Result, ok, err, ◌>>=◌, ◌>>◌, ensure,
}
use mainnet.Validators.Validator.{ValidatorType, Validator, addr}
use mainnet.Validators.Set.{Set, Error as SetError, len, includes, add, del}
use mainnet.Snapshot.{
  Snapshot, add_vote, count_by_voter_and_candidate, count_by_candidate, remove_votes_by_voter,
  remove_votes_by_candidate,
}
use mainnet.Voting.Types.{Error, multiple_votes_by_same_validator, set_error, Env, Header}
use mainnet.Voting.Miner.{is_authorize, miner_to_validator}

abbrev pub should_process_vote : Set → ℕ → Bool → Bool
should_process_vote s candidate vote_action = not (same vote_action (includes s candidate))

abbrev pub adds_or_dels_candidate : Set → Validator → Bool → Result SetError Set
adds_or_dels_candidate s candidate update_action =
    if update_action then add s candidate else del s candidate

-- An error of the set, as an error of the store.
abbrev pub lift_set_error : Result SetError Set → Result Error Set
lift_set_error (ok s) = ok s
lift_set_error (err e) = err (set_error e)

-- The snapshot once the vote stands in it: if more than half of the validators voted for the
-- candidate, the set changes and the votes that are settled go.
unfoldable pub settle : Snapshot → Validator → Bool → Result Error Snapshot
settle snap candidate authorize =
    if ltb (len snap.validators / 2) (count_by_candidate snap candidate)
    then (do
      set' ← lift_set_error (adds_or_dels_candidate snap.validators candidate authorize)
      let changed : Snapshot = record snap { validators = set' }
      let without : Snapshot =
          if authorize then changed else remove_votes_by_voter changed (addr candidate)
      ok (remove_votes_by_candidate without candidate))
    else ok snap

-- The snapshot with the vote of the proposer in it, which is cast only once.
unfoldable pub with_vote : Snapshot → ℕ → Validator → Bool → Snapshot
with_vote snap proposer candidate authorize =
    if count_by_voter_and_candidate snap proposer candidate == 0
    then add_vote snap proposer candidate authorize
    else snap

unfoldable pub cast_vote : Snapshot → Validator → Bool → ℕ → Result Error Snapshot
cast_vote snap candidate authorize proposer = do
  ensure (not (ltb 1 (count_by_voter_and_candidate snap proposer candidate)))
      multiple_votes_by_same_validator
  settle (with_vote snap proposer candidate authorize) candidate authorize

unfoldable pub process_vote : Env → Snapshot → Header → ValidatorType → ℕ → Result Error Snapshot
process_vote env snap header candidate_type proposer = do
  authorize ← is_authorize header.nonce
  candidate ← miner_to_validator env candidate_type header.miner
  if should_process_vote snap.validators (addr candidate) authorize
      then cast_vote snap candidate authorize proposer
      else ok snap
