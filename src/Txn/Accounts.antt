-- ===== src/Txn/Accounts.antt =====
-- state/txn.go: snapshots, accounts, balances, nonces, codes, refunds and logs.
use mainnet.Txn.{
  Key, of_address, log_index, refund_index, Account, StateObject, Log, Entry, object, logs, refund,
  Env, empty_state_hash, Txn,
}
use mainnet.Txn.Slices.{as_logs, logs_in, append_log}
use mainnet.Common.{
  ℕ, ◌+◌, ◌-◌, ◌%◌, ◌^◌, Bool, true, false, not, ◌&&◌, Option, none, some, List, [], ◌∷◌, ◌++◌, ltb,
  ◌==◌, if◌then◌else◌, length, get_elem?,
}

module _ (env : Env) where
  open env use {radix, slot_tree}

  abbrev Slots : Type 0
  Slots = slot_tree.Tree

  abbrev pub empty_code_hash : ℕ
  empty_code_hash = env.keccak256 []

  -- Snapshot returns the id of the tree as it is.
  unfoldable pub snapshot : Txn env → ℕ × Txn env
  snapshot t = (length t.snapshots, record t { snapshots = t.snapshots ++ t.txn ∷ [] })

  -- RevertToSnapshot panics on an id that was not handed out.
  unfoldable pub revert_to_snapshot : ℕ → Txn env → Option (Txn env)
  revert_to_snapshot id t = elim (get_elem? t.snapshots id) [
    | none ↦ none
    | some tree ↦ some (record t { txn = tree })
  ]

  -- An account of the state below as an object.
  abbrev pub fresh : Account → StateObject Slots
  fresh account = record {
    account = account;
    code = [];
    suicide = false;
    deleted = false;
    dirty_code = false;
    slots = none;
  }

  abbrev pub empty_account : Account
  empty_account = record {
    nonce = 0;
    balance = 0;
    root = empty_state_hash;
    code_hash = empty_code_hash;
  }

  abbrev pub new_state_object : StateObject Slots
  new_state_object = fresh empty_account

  abbrev pub not_deleted : StateObject Slots → Option (StateObject Slots)
  not_deleted obj = if obj.deleted then none else some obj

  -- The type assertion on the value of an address, which only ever is an object.
  abbrev pub as_object : Entry Slots → Option (StateObject Slots)
  as_object (object obj) = not_deleted obj
  as_object _ = none

  -- The tree comes before the state below.
  unfoldable pub get_state_object : ℕ → Txn env → Option (StateObject Slots)
  get_state_object addr t = elim (radix.get (of_address addr) t.txn) [
    | some entry ↦ as_object entry
    | none ↦ elim (env.snapshot_account addr) [ none ↦ none | some account ↦ some (fresh account) ]
  ]

  abbrev pub account_of : Option (StateObject Slots) → Option Account
  account_of none = none
  account_of (some obj) = some obj.account

  unfoldable pub get_account : ℕ → Txn env → Option Account
  get_account addr t = account_of (get_state_object addr t)

  abbrev pub insert_entry : Key → Entry Slots → Txn env → Txn env
  insert_entry key entry t = record t { txn = radix.insert key entry t.txn }

  -- upsertAccount with `create`.
  unfoldable pub upsert_account : ℕ → (StateObject Slots → StateObject Slots) → Txn env → Txn env
  upsert_account addr f t = elim (get_state_object addr t) [
    | none ↦ insert_entry (of_address addr) (object (f new_state_object)) t
    | some obj ↦ insert_entry (of_address addr) (object (f obj)) t
  ]

  abbrev pub with_balance : (ℕ → ℕ) → StateObject Slots → StateObject Slots
  with_balance f obj = record obj {
    account = record obj.account { balance = f obj.account.balance };
  }

  abbrev pub rewarded : ℕ → StateObject Slots → StateObject Slots
  rewarded amount obj =
      if obj.suicide
      then with_balance (λ b. amount) new_state_object
      else with_balance (λ b. b + amount) obj

  unfoldable pub add_sealing_reward : ℕ → ℕ → Txn env → Txn env
  add_sealing_reward addr amount t = upsert_account addr (rewarded amount) t

  unfoldable pub add_balance : ℕ → ℕ → Txn env → Txn env
  add_balance addr amount t = upsert_account addr (with_balance (λ b. b + amount)) t

  abbrev pub balance_of : Option (StateObject Slots) → ℕ
  balance_of none = 0
  balance_of (some obj) = obj.account.balance

  unfoldable pub get_balance : ℕ → Txn env → ℕ
  get_balance addr t = balance_of (get_state_object addr t)

  -- `none` is ErrNotEnoughFunds.
  unfoldable pub sub_balance : ℕ → ℕ → Txn env → Option (Txn env)
  sub_balance addr amount t =
      if amount == 0
      then some t
      else if ltb (get_balance addr t) amount
      then none
      else some (upsert_account addr (with_balance (λ b. b - amount)) t)

  unfoldable pub set_balance : ℕ → ℕ → Txn env → Txn env
  set_balance addr balance t = upsert_account addr (with_balance (λ b. balance)) t

  unfoldable pub add_log : Log → Txn env → Txn env
  add_log log t =
      let (s, arrays) =
        append_log env (as_logs env t.arrays (radix.get log_index t.txn)) log t.arrays in
      record (insert_entry log_index (logs s) t) { arrays = arrays }

  unfoldable pub emit_log : ℕ → List ℕ → List ℕ → Txn env → Txn env
  emit_log addr topics bytes t =
      add_log (record { address = addr; topics = topics; data_of = bytes }) t

  -- Logs takes them out.
  unfoldable pub take_logs : Txn env → List Log × Txn env
  take_logs t = elim (radix.get log_index t.txn) [
    | none ↦ ([], t)
    | some entry ↦ (
      logs_in env t.arrays (as_logs env t.arrays (some entry)),
      record t { txn = radix.delete log_index t.txn },
    )
  ]

  abbrev pub with_nonce : (ℕ → ℕ) → StateObject Slots → StateObject Slots
  with_nonce f obj = record obj { account = record obj.account { nonce = f obj.account.nonce } }

  unfoldable pub incr_nonce : ℕ → Txn env → Txn env
  incr_nonce addr t = upsert_account addr (with_nonce (λ n. (n + 1) % 2 ^ 64)) t

  unfoldable pub set_nonce : ℕ → ℕ → Txn env → Txn env
  set_nonce addr nonce t = upsert_account addr (with_nonce (λ n. nonce)) t

  abbrev pub nonce_of : Option (StateObject Slots) → ℕ
  nonce_of none = 0
  nonce_of (some obj) = obj.account.nonce

  unfoldable pub get_nonce : ℕ → Txn env → ℕ
  get_nonce addr t = nonce_of (get_state_object addr t)

  abbrev pub with_code : List ℕ → StateObject Slots → StateObject Slots
  with_code code obj = record obj {
    account = record obj.account { code_hash = env.keccak256 code };
    dirty_code = true;
    code = code;
  }

  unfoldable pub set_code : ℕ → List ℕ → Txn env → Txn env
  set_code addr code t = upsert_account addr (with_code code) t

  -- The code of an account of the state below, by the cache.
  abbrev pub cached_code : ℕ → ℕ → Txn env → List ℕ × Txn env
  cached_code addr hash t =
      let (found, cache) = env.cache_get addr t.cache in
      elim found [
        | some code ↦ (code, record t { cache = cache })
        | none ↦
            let code = env.snapshot_code hash in
            (code, record t { cache = env.cache_add addr code cache })
      ]

  unfoldable pub get_code : ℕ → Txn env → List ℕ × Txn env
  get_code addr t = elim (get_state_object addr t) [
    | none ↦ ([], t)
    | some obj ↦ if obj.dirty_code then (obj.code, t) else cached_code addr obj.account.code_hash t
  ]

  unfoldable pub get_code_size : ℕ → Txn env → ℕ × Txn env
  get_code_size addr t = let (code, u) = get_code addr t in (length code, u)

  abbrev pub code_hash_of : Option (StateObject Slots) → ℕ
  code_hash_of none = 0
  code_hash_of (some obj) = obj.account.code_hash

  unfoldable pub get_code_hash : ℕ → Txn env → ℕ
  get_code_hash addr t = code_hash_of (get_state_object addr t)

  -- An account that is not there stays away.
  unfoldable pub suicide_account : ℕ → Txn env → Bool × Txn env
  suicide_account addr t = elim (get_state_object addr t) [
    | none ↦ (false, t)
    | some obj ↦ (
      not obj.suicide,
      insert_entry (of_address addr)
          (object (with_balance (λ b. 0) (record obj { suicide = true }))) t,
    )
  ]

  abbrev pub suicide_of : Option (StateObject Slots) → Bool
  suicide_of none = false
  suicide_of (some obj) = obj.suicide

  unfoldable pub has_suicided : ℕ → Txn env → Bool
  has_suicided addr t = suicide_of (get_state_object addr t)

  abbrev pub as_refund : Option (Entry Slots) → ℕ
  as_refund (some (refund n)) = n
  as_refund _ = 0

  unfoldable pub get_refund : Txn env → ℕ
  get_refund t = as_refund (radix.get refund_index t.txn)

  unfoldable pub add_refund : ℕ → Txn env → Txn env
  add_refund gas t = insert_entry refund_index (refund ((get_refund t + gas) % 2 ^ 64)) t

  unfoldable pub sub_refund : ℕ → Txn env → Txn env
  sub_refund gas t = insert_entry refund_index (refund ((get_refund t + 2 ^ 64 - gas) % 2 ^ 64)) t

  unfoldable pub touch_account : ℕ → Txn env → Txn env
  touch_account addr t = upsert_account addr (λ obj. obj) t

  unfoldable pub exist : ℕ → Txn env → Bool
  exist addr t = elim (get_state_object addr t) [ none ↦ false | some obj ↦ true ]

  -- StateObject.Empty
  abbrev pub is_empty_object : StateObject Slots → Bool
  is_empty_object obj =
      obj.account.nonce == 0 && obj.account.balance == 0 && obj.account.code_hash == empty_code_hash

  unfoldable pub is_empty : ℕ → Txn env → Bool
  is_empty addr t = elim (get_state_object addr t) [ none ↦ true | some obj ↦ is_empty_object obj ]

  -- CreateAccount keeps the balance of an account that was there.
  unfoldable pub create_account : ℕ → Txn env → Txn env
  create_account addr t =
      insert_entry (of_address addr)
        (object (with_balance (λ b. balance_of (get_state_object addr t)) new_state_object)) t
