-- ===== src/Voting/Types.antt =====
-- The types of validators/store/snapshot/snapshot.go, and the interfaces that it is given.
use mainnet.Common.{ℕ, Bool, Option, List, Result}
use mainnet.Validators.Validator.{ValidatorType, Validator}
use mainnet.Validators.Set.{Set, Error as SetError}
use mainnet.SnapshotStore.{SnapshotStore, Sorting}

-- The fields of types.Header that the store reads. `nonce` is the number that its eight bytes spell.
pub record Header : Type 0 where
  pub number : ℕ
  pub hash : ℕ
  pub miner : List ℕ
  pub nonce : ℕ

pub data Error : Type 0 where
  invalid_nonce snapshot_not_found unauthorized_proposer incorrect_nonce already_candidate : Error
  candidate_is_validator candidate_not_exist_in_set already_voted : Error
  multiple_votes_by_same_validator undecodable_miner panicked signer_failed : Error
  header_not_found signer_not_found : ℕ → Error
  set_error : SetError → Error

-- SignerInterface.
pub record Signer : Type 0 where
  pub type : ValidatorType
  pub ecrecover_from_header : Header → Result Error ℕ
  pub get_validators : Header → Result Error Set

-- What the constructor is given: HeaderGetter, getSigner and epochSize; and the RLP coding of a BLS
-- validator, which the fastrlp package does.
pub record Env : Type 1 where
  pub header : Header
  pub get_header_by_number : ℕ → Option Header
  pub get_signer : ℕ → Result Error (Option Signer)
  pub epoch_size : ℕ
  pub sorting : Sorting
  pub encode_bls : ℕ → List ℕ → List ℕ
  pub decode_bls : List ℕ → Option (ℕ × List ℕ)

pub record Candidate : Type 0 where
  pub validator : Validator
  pub authorize : Bool

pub record ValidatorStore : Type 0 where
  pub store : SnapshotStore
  pub candidates : List Candidate
