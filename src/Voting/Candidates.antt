-- ===== src/Voting/Candidates.antt =====
-- Propose, ModifyHeader and the candidate list of validators/store/snapshot/snapshot.go: the votes that
-- this node wants to cast in the blocks that it proposes.
use mainnet.Common.{
  ℕ, Bool, false, not, ◌&&◌, ◌||◌, Option, none, some, List, [], ◌∷◌, ◌++◌, ◌==◌, if◌then◌else◌,
  same, keep, Result, ok, ◌>>=◌, ◌>>◌, ensure, or_fail,
}
use mainnet.Validators.Validator.{Validator, addr}
use mainnet.Validators.Set.{Set, index, at, includes}
use mainnet.Snapshot.{Vote, Snapshot, count, count_by_voter_and_candidate}
use mainnet.SnapshotStore.{find}
use mainnet.Voting.Types.{
  Error, snapshot_not_found, already_candidate, candidate_is_validator, candidate_not_exist_in_set,
  already_voted, panicked, Env, Header, Candidate, ValidatorStore,
}
use mainnet.Voting.Miner.{nonce_auth_vote, nonce_drop_vote, validator_to_miner}

-- The loop of Propose over the candidates.
unfoldable pub is_candidate : List Candidate → ℕ → Bool
is_candidate [] a = false
is_candidate (c ∷ cs) a = addr c.validator == a || is_candidate cs a

-- addCandidate. For a removal the validator is taken from the set by its address.
unfoldable pub add_candidate : ValidatorStore → Set → Validator → Bool → Result Error ValidatorStore
add_candidate vs validators candidate authorize =
    if authorize
    then ok (record vs {
      candidates = vs.candidates ++ record { validator = candidate; authorize = authorize } ∷ [];
    })
    else (do
      i ← or_fail (index validators (addr candidate)) candidate_not_exist_in_set
      v ← or_fail (at validators i) panicked
      ok (record vs {
        candidates = vs.candidates ++ record { validator = v; authorize = authorize } ∷ [];
      }))

unfoldable pub propose : ValidatorStore → Validator → Bool → ℕ → Result Error ValidatorStore
propose vs candidate auth proposer = do
  ensure (not (is_candidate vs.candidates (addr candidate))) already_candidate
  snap ← or_fail (find vs.store vs.store.last_number) snapshot_not_found
  let included = includes snap.validators (addr candidate)
  ensure (not (auth && included)) candidate_is_validator
  ensure (not (not auth && not included)) candidate_not_exist_in_set
  ensure (not (count_by_voter_and_candidate snap proposer candidate == 1)) already_voted
  add_candidate vs snap.validators candidate auth

-- cleanObsoleteCandidates keeps what the set does not yet show.
unfoldable pub clean_obsolete_candidates : List Candidate → Set → List Candidate
unfolding keep
clean_obsolete_candidates cs s =
    keep (λ c. not (same c.authorize (includes s (addr c.validator)))) cs

abbrev pub has_voted_for : ℕ → ℕ → Vote → Bool
has_voted_for a proposer v = addr v.candidate == a && v.validator == proposer

unfoldable pub pick_one_candidate : List Candidate → Snapshot → ℕ → Option Candidate
unfolding count
pick_one_candidate [] snap proposer = none
pick_one_candidate (c ∷ cs) snap proposer =
    let later = pick_one_candidate cs snap proposer in
    if count (has_voted_for (addr c.validator) proposer) snap == 0 then some c else later

-- getNextCandidate, with the candidates that are left.
unfoldable pub get_next_candidate :
    ValidatorStore → Snapshot → ℕ → ValidatorStore × Option Candidate
get_next_candidate vs snap proposer =
    let left = clean_obsolete_candidates vs.candidates snap.validators in
    (record vs { candidates = left }, pick_one_candidate left snap proposer)

-- The fields of a header that a candidate sets.
unfoldable pub vote_in_header : Env → Header → Option Candidate → Header
vote_in_header env header none = header
vote_in_header env header (some c) = record header {
  miner = validator_to_miner env c.validator;
  nonce = if c.authorize then nonce_auth_vote else nonce_drop_vote;
}

-- ModifyHeader.
unfoldable pub modify_header :
    Env → ValidatorStore → Header → ℕ → Result Error (ValidatorStore × Header)
modify_header env vs header proposer = do
  snap ← or_fail (find vs.store header.number) snapshot_not_found
  let (vs', candidate) = get_next_candidate vs snap proposer
  ok (vs', vote_in_header env header candidate)
