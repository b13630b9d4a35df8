-- ===== src/Voting/Tests.antt =====
-- The theorems on votes and headers at concrete inputs: three validators, 1, 2 and 3, vote on 4.
use mainnet.Common.{
  drop, ℕ, ◌+◌, ◌≤◌, ◌<◌, ◌≡◌, refl, subst, ◌⊎◌, true, none, some, [], ◌∷◌, ◌++◌, arith, length, ok,
}
use mainnet.Validators.Validator.{ecdsa, Validator, ecdsa_validator, equal}
use mainnet.Validators.Set.{Set, includes, index_in, add, del}
use mainnet.Validators.Set.Updates.{IsWellFormed}
use mainnet.Snapshot.{
  Snapshot, add_vote, copy, equal_snapshot, count_by_voter_and_candidate, count_by_candidate,
  remove_votes_by_candidate, remove_votes_by_voter,
}
use mainnet.SnapshotStore
use mainnet.SnapshotStore.{SnapshotStore, find, search_first}
use mainnet.SnapshotStore.Order.{stable}
use mainnet.Voting.Types.{Env, Header, Signer, ValidatorStore}
use mainnet.Voting.Miner.{
  nonce_auth_vote, is_authorize, address_bytes, low_bytes, bytes_to_address, miner_to_validator,
}
use mainnet.Voting.Votes.{settle, with_vote, cast_vote, process_vote}
use mainnet.Voting.Tally.{
  IsConsistent, IsMajorityChange, add_vote-IsConsistent, process_vote-majority,
}
use mainnet.Voting.Headers.{
  save_snapshot_if_changed, process_checked, process_header, process_range,
  process_headers_in_range, initialize,
}
use mainnet.Voting.Invariant.{
  IsValid, IsProcessed, cleared-IsConsistent, process_header-IsProcessed,
}
use mainnet.Voting.Ranges.{
  AnswersHeights, GivesSets, process_headers_in_range-IsValid, initialize-IsReady,
}
use mainnet.Voting.Candidates.{propose, is_candidate, add_candidate}

abbrev three : Set
three = record {
  validator_type = ecdsa;
  members = ecdsa_validator 1 ∷ ecdsa_validator 2 ∷ ecdsa_validator 3 ∷ [];
}

three-IsWellFormed : IsWellFormed three
unfolding index_in
three-IsWellFormed = record {
  distinct = (refl, (refl, (refl, tt)));
  typed = (refl, (refl, (refl, tt)));
}

abbrev genesis : Snapshot
genesis = record { number = 0; hash = some 0; votes = []; validators = three }

genesis-IsConsistent : IsConsistent genesis
genesis-IsConsistent = cleared-IsConsistent genesis three-IsWellFormed

-- The header of each height adds a vote for 4; its hash names the proposer.
abbrev header_at : ℕ → Header
header_at n = record { number = n; hash = n; miner = address_bytes 4; nonce = nonce_auth_vote }

abbrev signer : Signer
signer = record {
  type = ecdsa;
  ecrecover_from_header = λ h. ok h.hash;
  get_validators = λ h. ok three;
}

abbrev chain : Env
chain = record {
  header = header_at 2;
  get_header_by_number = λ n. some (header_at n);
  get_signer = λ n. ok (some signer);
  epoch_size = 10;
  sorting = stable;
  encode_bls = λ a k. 192 ∷ a ∷ k;
  decode_bls = λ bs. elim (drop 1 bs) [ [] ↦ none | a ∷ k ↦ some (a, k) ];
}

abbrev four : Validator
four = ecdsa_validator 4

-- Validator 1 has voted; the vote of 2 makes the majority.
abbrev voted : Snapshot
voted = record genesis { votes = record { validator = 1; candidate = four; authorize = true } ∷ [] }

voted-IsConsistent : IsConsistent voted
unfolding add_vote count_by_voter_and_candidate
voted-IsConsistent =
    add_vote-IsConsistent genesis 1 four true genesis-IsConsistent (unfold index_in in refl) refl

abbrev joined : Snapshot
joined = record genesis { validators = record three { members = three.members ++ four ∷ [] } }

program : Unit {0}
unfolding process_vote is_authorize miner_to_validator bytes_to_address low_bytes cast_vote
    with_vote settle count_by_voter_and_candidate count_by_candidate add_vote add del index_in equal
    remove_votes_by_candidate remove_votes_by_voter process_header process_checked find search_first
    copy save_snapshot_if_changed equal_snapshot
program = tt

majority : process_vote chain voted (header_at 2) ecdsa 2 ≡ ok joined
unfolding program
majority = refl

process_vote-majority_example :
    IsConsistent joined
    × ((joined.validators ≡ three)
        ⊎ IsMajorityChange chain voted (header_at 2) ecdsa 2 joined.validators)
process_vote-majority_example =
    process_vote-majority chain voted joined (header_at 2) ecdsa 2 voted-IsConsistent
      (unfold index_in in refl) majority

abbrev at_genesis : ValidatorStore
at_genesis = record { store = record { last_number = 0; list = genesis ∷ [] }; candidates = [] }

at_genesis-IsValid : IsValid at_genesis.store
at_genesis-IsValid = record { sorted = (tt, tt); consistent = (genesis-IsConsistent, tt) }

abbrev after_one : ValidatorStore
after_one = record {
  store = record {
    last_number = 1;
    list = genesis ∷ record voted { number = 1; hash = some 1 } ∷ [];
  };
  candidates = [];
}

first_header : process_header chain at_genesis (header_at 1) ≡ ok after_one
unfolding program SnapshotStore.add
first_header = refl

process_header-IsProcessed_example :
    IsProcessed at_genesis 1 after_one
    × ((s : Signer) × (proposer : ℕ) × (parent : Snapshot) × (chain.get_signer 1 ≡ ok (some s))
        × (s.ecrecover_from_header (header_at 1) ≡ ok proposer)
        × (find at_genesis.store 0 ≡ some parent)
        × (includes parent.validators proposer ≡ true))
process_header-IsProcessed_example =
    process_header-IsProcessed chain at_genesis after_one (header_at 1) at_genesis-IsValid
      first_header

process_headers_in_range-IsValid_example :
    IsValid (process_headers_in_range chain 1 2 at_genesis).0.store
    × (AnswersHeights chain
        → at_genesis.store.last_number + 1 ≡ 1
        → 1 ≤ 2
        → (process_headers_in_range chain 1 2 at_genesis).1 ≡ none
        → (process_headers_in_range chain 1 2 at_genesis).0.store.last_number ≡ 2)
process_headers_in_range-IsValid_example =
    process_headers_in_range-IsValid chain 1 2 at_genesis at_genesis-IsValid

chain_answers : AnswersHeights chain
chain_answers n h e = ground arith

chain_gives : GivesSets chain
chain_gives n s h t e f =
    let same_signer : signer ≡ s = ground arith in
    subst IsWellFormed (ground arith) three-IsWellFormed

abbrev caught_up : ValidatorStore
caught_up = record {
  store = record {
    last_number = 2;
    list =
        genesis
        ∷ record voted { number = 1; hash = some 1 }
        ∷ record joined { number = 2; hash = some 2 }
        ∷ [];
  };
  candidates = [];
}

started : initialize chain at_genesis ≡ ok caught_up
unfolding program SnapshotStore.add initialize process_headers_in_range process_range
started = refl

initialize-IsReady_example :
    IsValid caught_up.store × (0 < length caught_up.store.list) × (2 ≤ caught_up.store.last_number)
initialize-IsReady_example =
    initialize-IsReady chain at_genesis caught_up chain_gives chain_answers at_genesis-IsValid
      started

abbrev wanting_four : ValidatorStore
wanting_four = record at_genesis { candidates = record { validator = four; authorize = true } ∷ [] }

proposed : propose at_genesis four true 1 ≡ ok wanting_four
unfolding program propose is_candidate add_candidate
proposed = refl

abbrev blank : Header
blank = record { number = 1; hash = 1; miner = []; nonce = 0 }
