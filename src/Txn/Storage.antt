-- ===== src/Txn/Storage.antt =====
-- state/txn.go: the words that contracts store, with what a write costs, and the end of a block.
use mainnet.Evm.{Forks, StorageStatus, unchanged, modified, modified_again, added, deleted}
use mainnet.Txn.{
  Key, of_address, refund_index, StateObject, Entry, object, Env, StorageObject, Object, Txn,
}
use mainnet.Txn.Accounts.{
  get_state_object, upsert_account, insert_entry, add_refund, sub_refund, is_empty_object,
}
use mainnet.Common.{
  ℕ, Bool, true, false, not, ◌&&◌, ◌||◌, Option, none, some, List, [], ◌∷◌, map, ◌==◌,
  if◌then◌else◌,
}

module _ (env : Env) where
  open env use {radix, slot_tree}

  abbrev Slots : Type 0
  Slots = slot_tree.Tree

  -- What is inserted for a word: nothing for zero.
  abbrev pub stored : ℕ → Option ℕ
  stored value = if value == 0 then none else some value

  abbrev pub slots_of : StateObject Slots → Slots
  slots_of obj = elim obj.slots [ none ↦ slot_tree.empty_tree | some slots ↦ slots ]

  abbrev pub with_slot : ℕ → ℕ → StateObject Slots → StateObject Slots
  with_slot key value obj = record obj {
    slots = some (slot_tree.insert key (stored value) (slots_of obj));
  }

  unfoldable pub set_state : ℕ → ℕ → ℕ → Txn env → Txn env
  set_state addr key value t = upsert_account env addr (with_slot key value) t

  abbrev pub found_slot : Option Slots → ℕ → Option (Option ℕ)
  found_slot none key = none
  found_slot (some slots) key = slot_tree.get key slots

  -- The slots of the block come before the state below.
  abbrev pub slot_of : ℕ → ℕ → StateObject Slots → ℕ
  slot_of addr key obj = elim (found_slot obj.slots key) [
    | none ↦ env.snapshot_storage addr obj.account.root key
    | some written ↦ elim written [ none ↦ 0 | some value ↦ value ]
  ]

  unfoldable pub get_state : ℕ → ℕ → Txn env → ℕ
  get_state addr key t = elim (get_state_object env addr t) [
    | none ↦ 0
    | some obj ↦ slot_of addr key obj
  ]

  unfoldable pub get_committed_state : ℕ → ℕ → Txn env → ℕ
  get_committed_state addr key t = elim (get_state_object env addr t) [
    | none ↦ 0
    | some obj ↦ env.snapshot_storage addr obj.account.root key
  ]

  abbrev pub legacy_gas_metering : Forks → Bool
  legacy_gas_metering config =
      not config.istanbul && (config.petersburg || not config.constantinople)

  -- The refund and the status, by the rules before and after net metering.
  unfoldable pub legacy_write : ℕ → ℕ → Txn env → Txn env × StorageStatus
  legacy_write old value t =
      if old == 0
      then (t, added)
      else if value == 0
      then (add_refund env 15000 t, deleted)
      else (t, modified)

  -- The slot still has the word that it had before the block.
  unfoldable pub first_write : ℕ → ℕ → Txn env → Txn env × StorageStatus
  first_write original value t =
      if original == 0
      then (t, added)
      else if value == 0
      then (add_refund env 15000 t, deleted)
      else (t, modified)

  abbrev pub cleared_refund : ℕ → ℕ → ℕ → Txn env → Txn env
  cleared_refund original current value t =
      if original == 0
      then t
      else if current == 0
      then sub_refund env 15000 t
      else if value == 0
      then add_refund env 15000 t
      else t

  abbrev pub reset_amount : Forks → ℕ → ℕ
  reset_amount config original =
      if original == 0
      then (if config.istanbul then 19200 else 19800)
      else if config.istanbul
      then 4200
      else 4800

  unfoldable pub rewrite : Forks → ℕ → ℕ → ℕ → Txn env → Txn env × StorageStatus
  rewrite config original current value t =
      let u = cleared_refund original current value t in
      (
        if original == value then add_refund env (reset_amount config original) u else u,
        modified_again,
      )

  unfoldable pub set_storage : ℕ → ℕ → ℕ → Forks → Txn env → Txn env × StorageStatus
  set_storage addr key value config t =
      let old = get_state addr key t in
      let original = get_committed_state addr key t in
      let u = set_state addr key value t in
      if old == value
      then (t, unchanged)
      else if legacy_gas_metering config
      then legacy_write old value u
      else if original == old
      then first_write original value u
      else rewrite config original old value u

  -- An object that CleanDeleteObjects marks.
  abbrev pub is_removed : Bool → Entry Slots → Bool
  is_removed delete_empty (object obj) = obj.suicide || is_empty_object env obj && delete_empty
  is_removed delete_empty _ = false

  abbrev pub mark_deleted : Entry Slots → Entry Slots
  mark_deleted (object obj) = object (record obj { deleted = true })
  mark_deleted entry = entry

  -- The entries that a walk over the tree listed, one after the other.
  unfoldable pub delete_listed : Bool → List (Key × Entry Slots) → Txn env → Txn env
  delete_listed delete_empty [] t = t
  delete_listed delete_empty ((key, entry) ∷ rest) t =
      delete_listed delete_empty rest
        (if is_removed delete_empty entry then insert_entry env key (mark_deleted entry) t else t)

  unfoldable pub clean_delete_objects : Bool → Txn env → Txn env
  clean_delete_objects delete_empty t =
      let u = delete_listed delete_empty (radix.walk t.txn) t in
      record u { txn = radix.delete refund_index u.txn }

  abbrev pub storage_object : ℕ × Option ℕ → StorageObject
  storage_object (key, none) = record { deleted = true; key = key; val = 0 }
  storage_object (key, some value) = record { deleted = false; key = key; val = value }

  abbrev pub walked : Option Slots → List StorageObject
  walked none = []
  walked (some slots) = map storage_object (slot_tree.walk slots)

  abbrev pub object_of : ℕ → StateObject Slots → Object
  object_of addr obj = record {
    address = addr;
    code_hash = obj.account.code_hash;
    balance = obj.account.balance;
    root = obj.account.root;
    nonce = obj.account.nonce;
    deleted = obj.deleted;
    dirty_code = obj.dirty_code;
    code = obj.code;
    storage = if obj.deleted then [] else walked obj.slots;
  }

  -- The objects of a walk, without the logs.
  unfoldable pub objects_of : List (Key × Entry Slots) → List Object
  objects_of [] = []
  objects_of ((of_address addr, object obj) ∷ rest) = object_of addr obj ∷ objects_of rest
  objects_of (_ ∷ rest) = objects_of rest

  unfoldable pub commit : Bool → Txn env → List Object × Txn env
  commit delete_empty t =
      let u = clean_delete_objects delete_empty t in (objects_of (radix.walk u.txn), u)
