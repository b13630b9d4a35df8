-- ===== src/Txn/Tests.antt =====
-- The theorems on the state of a block at concrete inputs.
use mainnet.Evm.{Forks}
use mainnet.Txn.{Log, Radix, Key, of_address, Account, Entry, Env, Txn, empty_state_hash}
use mainnet.Txn.Trees.{IsTree}
use mainnet.Txn.Lists.{find_key, list_radix, list-IsTree, list-IsWalk, equal_keys, equal_keys_iff}
use mainnet.Txn.Accounts.{
  add_log, take_logs, get_state_object, snapshot, revert_to_snapshot, add_balance, sub_balance,
  upsert_account, with_balance, get_balance, create_account, get_code, get_code_hash,
  empty_code_hash, get_refund,
}
use mainnet.Txn.Storage.{set_state, set_storage, clean_delete_objects}
use mainnet.Txn.Balances.{add_balance-sub_balance}
use mainnet.Txn.Slices.{append_log}
use mainnet.Txn.Logs.{HasRoom, revert_to_snapshot-mixes_logs}
use mainnet.Txn.Slots.{IsEmptyRoot, After, set_storage-After}
use mainnet.Txn.Removed.{left_of, create_account-stale_code, clean_delete_objects-left}
use mainnet.Common.{
  ◌++◌, arith, ℕ, ◌+◌, ◌-◌, ◌≡◌, refl, true, false, Option, none, some, List, [], ◌∷◌, ◌==◌,
  if◌then◌else◌, ==_iff, length,
}

abbrev slot_list : Radix ℕ (Option ℕ)
slot_list = list_radix (λ j k. j == k)

abbrev entry_list : Radix Key (Entry (List (ℕ × Option ℕ)))
entry_list = list_radix equal_keys

-- Account 7 has a balance of 10 and some code, and under another root than the empty one a word is its key.
abbrev seventh : Account
seventh = record { nonce = 1; balance = 10; root = 55; code_hash = 66 }

abbrev env : Env
env = record {
  slot_tree = slot_list;
  radix = entry_list;
  Cache = List (ℕ × List ℕ);
  cache_get = λ addr cache. (find_key (λ j k. j == k) addr cache, cache);
  cache_add = λ addr code cache. (addr, code) ∷ cache;
  snapshot_account = λ addr. if addr == 7 then some seventh else none;
  snapshot_storage = λ addr root key. if root == empty_state_hash then 0 else key;
  snapshot_code = λ hash. 0x60 ∷ [];
  keccak256 = length;
  spare = λ n. 1;
}

entries-IsTree : IsTree env.radix
entries-IsTree = list-IsTree equal_keys equal_keys_iff

slots-IsTree : IsTree env.slot_tree
slots-IsTree = list-IsTree (λ j k. j == k) ==_iff

env-IsEmptyRoot : IsEmptyRoot env
env-IsEmptyRoot addr key = refl

abbrev start : Txn env
start = record { txn = []; snapshots = []; cache = (7, 0x5b ∷ []) ∷ []; arrays = [] }

abbrev log_of : ℕ → Log
log_of n = record { address = 7; topics = n ∷ []; data_of = [] }

-- One log, in an array with room for two.
abbrev logged : Txn env
logged = add_log env (log_of 1) start

logged-HasRoom :
    HasRoom env entries-IsTree logged
      (record { array = 0; held = 1 })
      (record { cap = 2; cells = log_of 1 ∷ [] })
unfolding add_log append_log find_key equal_keys
logged-HasRoom = record {
  entry = refl;
  array_there = refl;
  room = omega arith;
  written = omega arith;
}

revert_to_snapshot-mixes_logs_example :
    let old = (take_logs env logged).0 in
    let (one, t₁) = snapshot env logged in
    let t₂ = add_log env (log_of 2) t₁ in
    let (two, t₃) = snapshot env t₂ in
    (u v : Txn env) × (revert_to_snapshot env one t₃ ≡ some u)
    × (revert_to_snapshot env two (add_log env (log_of 3) u) ≡ some v)
    × ((take_logs env t₂).0 ≡ old ++ log_of 2 ∷ [])
    × ((take_logs env u).0 ≡ old)
    × ((take_logs env v).0 ≡ old ++ log_of 3 ∷ [])
revert_to_snapshot-mixes_logs_example =
    revert_to_snapshot-mixes_logs env entries-IsTree logged (record { array = 0; held = 1 })
      (record { cap = 2; cells = log_of 1 ∷ [] }) (log_of 2) (log_of 3) logged-HasRoom

-- After a snapshot: a balance, a further snapshot and a word.
abbrev changed : Txn env
changed = set_state env 7 1 2 (snapshot env (add_balance env 8 5 (snapshot env start).1)).1

abbrev paid : Txn env
paid = upsert_account env 7 (with_balance env (λ b. b - 3)) start

covered : sub_balance env 7 3 start ≡ some paid
unfolding sub_balance get_balance get_state_object find_key
covered = refl

-- Account 7 pays 3 to account 8.
add_balance-sub_balance_example :
    get_balance env 8 (add_balance env 8 3 paid) + (if 8 == 7 then 3 else 0)
    ≡ get_balance env 8 start + (if 8 == 8 then 3 else 0)
add_balance-sub_balance_example =
    add_balance-sub_balance env entries-IsTree 7 8 8 3 start paid covered

abbrev forks : Forks
forks = record {
  homestead = true;
  byzantium = true;
  constantinople = true;
  petersburg = false;
  istanbul = true;
  eip150 = true;
  eip158 = true;
}

set_storage-After_example : After env 7 1 2 start (set_storage env 7 1 2 forks start)
set_storage-After_example =
    set_storage-After env entries-IsTree slots-IsTree env-IsEmptyRoot 7 1 2 forks start

create_account-stale_code_example :
    ((get_code env 7 (create_account env 7 start)).0 ≡ 0x5b ∷ [])
    × (get_code_hash env 7 (create_account env 7 start) ≡ empty_code_hash env)
create_account-stale_code_example =
    create_account-stale_code env entries-IsTree 7 (0x5b ∷ []) start (unfold find_key in refl)

clean_delete_objects-left_example :
    (get_state_object env 8 (clean_delete_objects env true changed)
      ≡ left_of env true
          (env.radix.get (of_address 8) changed.txn)
          (get_state_object env 8 changed))
    × (get_refund env (clean_delete_objects env true changed) ≡ 0)
clean_delete_objects-left_example =
    clean_delete_objects-left env entries-IsTree (list-IsWalk equal_keys equal_keys_iff) true 8
      changed
