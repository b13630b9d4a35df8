-- ===== src/Txn.antt =====
-- state/txn.go, with Account and StateObject of state/state.go: the accounts that the transactions of a block
-- change, over the state that the block starts from.
-- An address, a hash and the bytes of a stored word are numbers. A radix tree is immutable, so that a
-- snapshot is the tree itself; slices of logs in it share their arrays. The trees, the cache of codes and the state below are what Txn is given.
pub mod Slices
pub mod Accounts
pub mod Storage
pub mod Trees
pub mod Balances
pub mod Logs
pub mod Slots
pub mod Removed
pub mod Lists
mod Tests
use mainnet.Evm.{Forks}
use mainnet.Common.{
  ℕ, zero, suc, ◌+◌, ◌-◌, ◌*◌, ◌/◌, ◌%◌, ◌^◌, ◌≤◌, ◌<◌, ◌≡◌, refl, sym, ap, ◌∙◌, subst, ◌≢◌, ◌↔◌,
  ◌⊎◌, inl, inr, Bool, true, false, not, ◌&&◌, ◌||◌, Option, none, some, List, [], ◌∷◌, ◌++◌, map,
  arith, ltb, leb, ◌==◌, if◌then◌else◌, ==_iff, ==_refl, Bool-cases, Option-cases, same, same_iff,
  bytes_equal, bytes_equal_refl, eq_of_bytes_equal, length, get_elem?, set, drop, erase_at,
  length-append, length-erase_at, keep, count_if, All, length-keep, count_if-append, count_if-nil,
  get_elem?-total, count_if-keep, All-keep, All-map, All-append, All-drop, All-get_elem?, Result,
  ok, err, ◌>>=◌, ◌>>◌, ensure, or_fail, Result-cases, bind-ok, ensure-ok, or_fail-ok, all_below,
  all_below-holds, get_elem?-set, get_elem?-set_other, length-set, All-set,
}

-- A tree of go-immutable-radix: what the code calls of it.
pub record Radix (K V : Type 0) : Type 1 where
  pub Tree : Type 0
  pub empty_tree : Tree
  pub get : K → Tree → Option V
  pub insert : K → V → Tree → Tree
  pub delete : K → Tree → Tree
  pub walk : Tree → List (K × V)

-- The keys have different lengths: 20 bytes of an address, 32 bytes of an index.
pub data Key : Type 0 where
  of_address : ℕ → Key
  log_index refund_index : Key

pub record Account : Type 0 where
  pub nonce : ℕ
  pub balance : ℕ
  pub root : ℕ
  pub code_hash : ℕ

pub record StateObject (Slots : Type 0) : Type 0 where
  pub account : Account
  pub code : List ℕ
  pub suicide : Bool
  pub deleted : Bool
  pub dirty_code : Bool
  pub slots : Option Slots

pub record Log : Type 0 where
  pub address : ℕ
  pub topics : List ℕ
  pub data_of : List ℕ

-- What Commit hands on: an account with the words that the block wrote.
pub record StorageObject : Type 0 where
  pub deleted : Bool
  pub key : ℕ
  pub val : ℕ

pub record Object : Type 0 where
  pub address : ℕ
  pub code_hash : ℕ
  pub balance : ℕ
  pub root : ℕ
  pub nonce : ℕ
  pub deleted : Bool
  pub dirty_code : Bool
  pub code : List ℕ
  pub storage : List StorageObject

-- A slice of logs: its backing array, by its number, and how many of its cells are in the slice.
pub record LogSlice : Type 0 where
  pub array : ℕ
  pub held : ℕ

-- An array with room for `cap` logs, and the cells that were written.
pub record LogArray : Type 0 where
  pub cap : ℕ
  pub cells : List Log

-- What the tree holds.
pub data Entry (Slots : Type 0) : Type 0 where
  object : StateObject Slots → Entry Slots
  logs : LogSlice → Entry Slots
  refund : ℕ → Entry Slots

-- What Txn is given: the trees, the cache of codes, the state below (readSnapshot; `none` is an error or
-- no account), keccak, and how many more cells than needed the runtime gives to an array that grows.
pub record Env : Type 1 where
  pub slot_tree : Radix ℕ (Option ℕ)
  pub radix : Radix Key (Entry slot_tree.Tree)
  pub Cache : Type 0
  pub cache_get : ℕ → Cache → Option (List ℕ) × Cache
  pub cache_add : ℕ → List ℕ → Cache → Cache
  pub snapshot_account : ℕ → Option Account
  pub snapshot_storage : ℕ → ℕ → ℕ → ℕ
  pub snapshot_code : ℕ → List ℕ
  pub keccak256 : List ℕ → ℕ
  pub spare : ℕ → ℕ

abbrev pub empty_state_hash : ℕ
empty_state_hash = 0x56e81f171bcc55a6ff8345e692c0f86e5b48e01b996cadc001622fb5e363b421

module _ (env : Env) where
  abbrev pub Slots : Type 0
  Slots = env.slot_tree.Tree

  abbrev pub Tree : Type 0
  Tree = env.radix.Tree

-- The Txn of the code, less the state below, with the arrays of logs that its trees refer to.
pub record Txn (env : Env) : Type 0 where
  pub txn : env.radix.Tree
  pub snapshots : List env.radix.Tree
  pub cache : env.Cache
  pub arrays : List LogArray
