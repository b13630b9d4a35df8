-- ===== src/Voting/Headers.antt =====
-- ProcessHeader, ProcessHeadersInRange, initialize and UpdateValidatorSet of
-- validators/store/snapshot/snapshot.go: the snapshots that the headers of a chain make.
use mainnet.Common.{
  ℕ, zero, suc, ◌+◌, ◌-◌, ◌*◌, ◌/◌, ◌%◌, Bool, true, false, not, ◌||◌, Option, none, some, List, [],
  ◌∷◌, ltb, ◌==◌, if◌then◌else◌, bytes_equal, Result, ok, err, ◌>>=◌, ◌>>◌, ensure, or_fail,
}
use mainnet.Validators.Validator.{ValidatorType}
use mainnet.Validators.Set.{Set, includes}
use mainnet.Snapshot.{Snapshot, Vote, copy, equal_snapshot}
use mainnet.SnapshotStore.{
  SnapshotStore, add, find, put_by_number, delete_lower, update_last_block, new_snapshot_store,
  sub64,
}
use mainnet.Voting.Types.{
  Error, snapshot_not_found, unauthorized_proposer, panicked, header_not_found, signer_not_found,
  Env, Header, ValidatorStore,
}
use mainnet.Voting.Votes.{process_vote}

unfoldable pub save_snapshot_if_changed :
    Env → SnapshotStore → Snapshot → Snapshot → Header → SnapshotStore
save_snapshot_if_changed env st parent snap header =
    if equal_snapshot snap parent
    then st
    else add env.sorting st (record snap { number = header.number; hash = some header.hash })

unfoldable pub reset_snapshot : Env → SnapshotStore → Snapshot → Snapshot → Header → SnapshotStore
unfolding save_snapshot_if_changed
reset_snapshot env st parent snap header =
    save_snapshot_if_changed env st parent (record snap { votes = [] }) header

-- The int of Go is signed: `lowerEpoch > 0` holds where the epoch is above 2.
unfoldable pub remove_lower_snapshots : Env → SnapshotStore → ℕ → Result Error SnapshotStore
remove_lower_snapshots env st current_height =
    if ltb 2 (current_height / env.epoch_size)
    then or_fail (delete_lower st ((current_height / env.epoch_size - 2) * env.epoch_size)) panicked
    else ok st

-- No vote is cast where the miner field is the zero address.
abbrev pub is_zero_miner : List ℕ → Bool
is_zero_miner miner = bytes_equal miner (zeroes 20)
  where
    zeroes : ℕ → List ℕ
    zeroes zero = []
    zeroes (suc n) = 0 ∷ zeroes n

-- ProcessHeader behind its checks: a new epoch clears the votes, a header with no miner casts none,
-- and any other casts one.
unfoldable pub process_checked :
    Env → ValidatorStore → Header → ValidatorType → ℕ → Snapshot → Result Error ValidatorStore
unfolding copy
process_checked env vs header type proposer parent =
    if header.number % env.epoch_size == 0
    then (do
      st ←
          remove_lower_snapshots env (reset_snapshot env vs.store parent (copy parent) header)
            header.number
      ok (record vs { store = update_last_block st header.number }))
    else if is_zero_miner header.miner
    then ok (record vs { store = update_last_block vs.store header.number })
    else (do
      snap ← process_vote env (copy parent) header type proposer
      ok (record vs {
        store =
            save_snapshot_if_changed env (update_last_block vs.store header.number) parent snap
              header;
      }))

-- ProcessHeader. Everything that can fail comes before the store is written.
unfoldable pub process_header : Env → ValidatorStore → Header → Result Error ValidatorStore
process_header env vs header = do
  maybe_signer ← env.get_signer header.number
  signer ← or_fail maybe_signer (signer_not_found header.number)
  proposer ← signer.ecrecover_from_header header
  parent ← or_fail (find vs.store (sub64 header.number 1)) snapshot_not_found
  ensure (includes parent.validators proposer) unauthorized_proposer
  ensure (not (env.epoch_size == 0)) panicked
  process_checked env vs header signer.type proposer parent

-- The rounds that are left and the next height. The headers before an error stay processed.
unfoldable pub process_range : Env → ℕ → ℕ → ValidatorStore → ValidatorStore × Option Error
process_range env zero i vs = (vs, none)
process_range env (suc rounds) i vs = elim (i == 0) [
  | true ↦ process_range env rounds (i + 1) vs
  | false ↦ elim (env.get_header_by_number i) [
    | none ↦ (vs, some (header_not_found i))
    | some header ↦ elim (process_header env vs header) [
      | ok vs' ↦ process_range env rounds (i + 1) vs'
      | err e ↦ (vs, some e)
    ]
  ]
]

-- ProcessHeadersInRange. The heights are below 2^64 - 1, where the loop variable does not wrap.
unfoldable pub process_headers_in_range :
    Env → ℕ → ℕ → ValidatorStore → ValidatorStore × Option Error
process_headers_in_range env from to vs = process_range env (to + 1 - from) from vs

unfoldable pub add_header_snap : Env → ValidatorStore → Header → Result Error ValidatorStore
add_header_snap env vs header = do
  maybe_signer ← env.get_signer header.number
  signer ← or_fail maybe_signer (signer_not_found header.number)
  validators ← signer.get_validators header
  ok (record vs {
    store = add env.sorting vs.store (record {
      number = header.number;
      hash = some header.hash;
      votes = [];
      validators = validators;
    });
  })

abbrev pub is_missing : Option Snapshot → Bool
is_missing none = true
is_missing (some s) = false

-- A constructor that fails returns no store.
abbrev pub whole_range : ValidatorStore × Option Error → Result Error ValidatorStore
whole_range (vs, none) = ok vs
whole_range (vs, some e) = err e

unfoldable pub restore_epoch : Env → ValidatorStore → ℕ → Result Error ValidatorStore
restore_epoch env vs begin_height = do
  begin_header ← or_fail (env.get_header_by_number begin_height) (header_not_found begin_height)
  restored ← add_header_snap env vs begin_header
  ok (record restored { store = update_last_block restored.store begin_height })

unfoldable pub initialize : Env → ValidatorStore → Result Error ValidatorStore
initialize env vs = do
  let header = env.header
  begun ← if header.number == 0 then add_header_snap env vs header else ok vs
  ensure (not (env.epoch_size == 0)) panicked
  let current_epoch = header.number / env.epoch_size
  restored ←
      if is_missing (find begun.store header.number)
        || ltb (begun.store.last_number / env.epoch_size) current_epoch
      then restore_epoch env begun (current_epoch * env.epoch_size)
      else ok begun
  if ltb restored.store.last_number header.number
      then whole_range
          (process_headers_in_range env (restored.store.last_number + 1) header.number restored)
      else ok restored

unfoldable pub new_snapshot_validator_store :
    Env → Option ℕ → List Snapshot → Result Error ValidatorStore
unfolding initialize
new_snapshot_validator_store env metadata snapshots =
    initialize env
      (record { store = new_snapshot_store env.sorting metadata snapshots; candidates = [] })

unfoldable pub get_validators_by_height : ValidatorStore → ℕ → Result Error Set
get_validators_by_height vs height = do
  snap ← or_fail (find vs.store height) snapshot_not_found
  ok snap.validators

unfoldable pub votes_at : ValidatorStore → ℕ → Result Error (List Vote)
votes_at vs height = do snap ← or_fail (find vs.store height) snapshot_not_found; ok snap.votes

unfoldable pub update_validator_set : Env → ValidatorStore → Set → ℕ → Result Error ValidatorStore
update_validator_set env vs new_validators from_height = do
  let snapshot_height = sub64 from_height 1
  header ← or_fail (env.get_header_by_number snapshot_height) (header_not_found snapshot_height)
  ok (record vs {
    store = put_by_number env.sorting vs.store (record {
      number = header.number;
      hash = some header.hash;
      votes = [];
      validators = new_validators;
    });
  })
