-- ===== src/TxPool/Removal.antt =====
-- txpool/txpool.go: the operations that take transactions out of the pool, and what the pool tells.
-- Sub of two times saturates where they are far apart, which changes no comparison here.
use mainnet.TxPool.{
  Tx, Pending, TxPool, txs_of, put_or_erase, exists, delete_hash, prune_rejected_txs, instant,
  tx_expiration, parallel_execution_threshold,
}
use mainnet.Common.{
  ℕ, ◌+◌, Bool, Option, none, some, List, [], ◌∷◌, ltb, leb, ◌==◌, if◌then◌else◌, length, keep,
}

unfoldable pub new_tx_pool : ℕ → ℕ → TxPool
new_tx_pool now block_gas_limit = record {
  pending = [];
  all_txs = [];
  rejected_txs = [];
  block_gas_limit = block_gas_limit;
  nonce_cache = λ addr. none;
  last_cleanup = now;
}

-- Deletes from allTxs the transactions of an account that fail a test.
unfoldable pub delete_failing : (Tx → Bool) → List Tx → List Tx → List Tx
delete_failing p [] all = all
delete_failing p (t ∷ ts) all = delete_failing p ts (if p t then all else delete_hash t.hash all)

abbrev pub is_fresh : ℕ → Tx → Bool
is_fresh now t = ltb now (instant t.timestamp + tx_expiration)

abbrev pub unless_empty : ℕ → List Tx → Pending → Pending
unless_empty addr txs rest = if length txs == 0 then rest else (addr, txs) ∷ rest

-- The loop over the accounts.
unfoldable pub remove_stale_from : ℕ → Pending → List Tx → Pending × List Tx
remove_stale_from now [] all = ([], all)
remove_stale_from now ((addr, txs) ∷ rest) all =
    let (others, left) = remove_stale_from now rest (delete_failing (is_fresh now) txs all) in
    (unless_empty addr (keep (is_fresh now) txs) others, left)

unfoldable pub remove_stale : ℕ → TxPool → TxPool
remove_stale now tp =
    let (pending, all_txs) = remove_stale_from now tp.pending tp.all_txs in
    let cleaned = record tp { pending = pending; all_txs = all_txs } in
    if ltb (tp.last_cleanup + tx_expiration) now
    then record (prune_rejected_txs cleaned) { last_cleanup = now }
    else cleaned

-- The loop that takes the first transaction of a hash out of an account.
unfoldable pub remove_hash : ℕ → List Tx → List Tx
remove_hash h [] = []
remove_hash h (t ∷ ts) = let rest = remove_hash h ts in if t.hash == h then ts else t ∷ rest

abbrev pub forget : Option ℕ → ℕ → Pending → Pending
forget none h m = m
forget (some from) h m = put_or_erase from (remove_hash h (txs_of from m)) m

unfoldable pub remove_transaction : Tx → TxPool → TxPool
remove_transaction tx tp =
    if exists tx.hash tp.all_txs
    then record tp {
      pending = forget tx.sender tx.hash tp.pending;
      all_txs = delete_hash tx.hash tp.all_txs;
    }
    else tp

unfoldable pub remove_transactions : List Tx → TxPool → TxPool
remove_transactions [] tp = tp
remove_transactions (tx ∷ txs) tp = remove_transactions txs (remove_transaction tx tp)

abbrev pub is_current : ℕ → Tx → Bool
is_current nonce t = leb nonce t.nonce

unfoldable pub update_nonce : ℕ → ℕ → TxPool → TxPool
update_nonce addr nonce tp =
    let txs = txs_of addr tp.pending in
    record tp {
      nonce_cache = λ a. if a == addr then some nonce else tp.nonce_cache a;
      pending = put_or_erase addr (keep (is_current nonce) txs) tp.pending;
      all_txs = delete_failing (is_current nonce) txs tp.all_txs;
    }

abbrev or_zero : Option ℕ → ℕ
or_zero none = 0
or_zero (some n) = n

unfoldable pub get_nonce : ℕ → TxPool → ℕ
get_nonce addr tp = or_zero (tp.nonce_cache addr)

-- GetPending leaves out the accounts without transactions.
unfoldable pub get_pending : TxPool → Pending
get_pending tp = keep (λ e. ltb 0 (length e.1)) tp.pending

unfoldable pub size : TxPool → ℕ
size tp = length tp.all_txs

unfoldable pub enable_parallel_execution : TxPool → Bool
enable_parallel_execution tp = leb parallel_execution_threshold (length tp.all_txs)

-- The rejected hashes stay.
unfoldable pub clear : TxPool → TxPool
clear tp = record tp { pending = []; all_txs = [] }
