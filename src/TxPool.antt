-- ===== src/TxPool.antt =====
-- txpool/txpool.go: the transactions that wait for a block, by sender and by hash.
-- A transaction is what the pool asks of one: tx.Hash(), tx.Sender() (`none` for an error), tx.Timestamp
-- and the fields it reads. A gas price is a natural number, `none` for nil. The map `pending` is a list of
-- entries, `allTxs` the list of its transactions, `rejectedTxs` the list of its hashes. The clock is an
-- argument: nanoseconds since the earliest instant that a timestamp can name.
pub mod Removal
pub mod Counting
pub mod Accounts
pub mod Nonces
pub mod Slots
pub mod Invariant
pub mod Placing
pub mod Adding
pub mod Removing
pub mod Withdrawing
pub mod Rejecting
mod Tests
use mainnet.Common.{
  ℕ, zero, suc, ◌+◌, ◌-◌, ◌*◌, ◌/◌, ◌%◌, ◌^◌, ◌≤◌, ◌<◌, ◌≡◌, refl, sym, ap, ◌∙◌, subst, ◌≢◌, ◌↔◌,
  ◌⊎◌, inl, inr, Bool, true, false, not, ◌&&◌, ◌||◌, Option, none, some, List, [], ◌∷◌, ◌++◌, map,
  arith, ltb, leb, ◌==◌, if◌then◌else◌, ==_iff, ==_refl, Bool-cases, Option-cases, same, same_iff,
  bytes_equal, bytes_equal_refl, eq_of_bytes_equal, length, get_elem?, set, drop, erase_at,
  length-append, length-erase_at, keep, count_if, All, length-keep, count_if-append, count_if-nil,
  get_elem?-total, count_if-keep, All-keep, All-map, All-append, All-drop, All-get_elem?, Result,
  ok, err, ◌>>=◌, ◌>>◌, ensure, or_fail, Result-cases, bind-ok, ensure-ok, or_fail-ok,
}

-- A *big.Int: a natural number, or the negative number that is `negative n` = -n.
pub data BigInt : Type 0 where
  natural : ℕ → BigInt
  negative : ℕ → BigInt

-- Uint64 gives the low bits of the absolute value, whatever the sign.
abbrev pub uint64_of : BigInt → ℕ
uint64_of (natural n) = n % 2 ^ 64
uint64_of (negative n) = n % 2 ^ 64

-- a.Cmp(b) > 0
abbrev pub greater : BigInt → BigInt → Bool
greater (natural a) (natural b) = ltb b a
greater (natural a) (negative b) = ltb 0 (a + b)
greater (negative a) (natural b) = false
greater (negative a) (negative b) = ltb a b

pub record Tx : Type 0 where
  pub hash : ℕ
  pub nonce : ℕ
  pub gas : ℕ
  pub gas_price : Option BigInt
  pub to : Option ℕ
  pub timestamp : ℕ
  pub sender : Option ℕ

pub data Error : Type 0 where
  previously_rejected invalid_tx gas_limit_exceeded gas_price_too_low invalid_signature : Error
  tx_pool_overflow too_far_in_future underpriced : Error

abbrev pub Pending : Type 0
Pending = List (ℕ × List Tx)

pub record TxPool : Type 0 where
  pub pending : Pending
  pub all_txs : List Tx
  pub rejected_txs : List ℕ
  pub block_gas_limit : ℕ
  pub nonce_cache : ℕ → Option ℕ
  pub last_cleanup : ℕ

abbrev pub max_tx_pool_size : ℕ
max_tx_pool_size = 100000

abbrev pub max_rejected_txs_size : ℕ
max_rejected_txs_size = 10000

abbrev pub min_gas_price : ℕ
min_gas_price = 1

abbrev pub second : ℕ
second = 1000000000

-- 30 minutes
abbrev pub tx_expiration : ℕ
tx_expiration = 1800 * second

-- 15 minutes
abbrev pub max_future_time_drift : ℕ
max_future_time_drift = 900 * second

abbrev pub parallel_execution_threshold : ℕ
parallel_execution_threshold = 5000

-- time.Unix(int64(t), 0): seconds since the year 1 in an int64, which wraps around, counted from the
-- least int64.
unfoldable pub instant : ℕ → ℕ
instant t = (t + 62135596800 + 2 ^ 63) % 2 ^ 64 * second

-- pending[addr], empty where the map has no entry.
unfoldable pub txs_of : ℕ → Pending → List Tx
txs_of addr [] = []
txs_of addr ((a, txs) ∷ rest) = let found = txs_of addr rest in if a == addr then txs else found

-- pending[addr] = txs
unfoldable pub put : ℕ → List Tx → Pending → Pending
put addr txs [] = (addr, txs) ∷ []
put addr txs ((a, old) ∷ rest) =
    let others = put addr txs rest in if a == addr then (a, txs) ∷ rest else (a, old) ∷ others

-- delete(pending, addr)
unfoldable pub erase : ℕ → Pending → Pending
erase addr [] = []
erase addr ((a, txs) ∷ rest) =
    let others = erase addr rest in if a == addr then rest else (a, txs) ∷ others

-- An account that keeps no transaction loses its entry.
unfoldable pub put_or_erase : ℕ → List Tx → Pending → Pending
put_or_erase addr txs m = if length txs == 0 then erase addr m else put addr txs m

abbrev pub has_hash : ℕ → Tx → Bool
has_hash h t = t.hash == h

-- Whether allTxs has an entry for a hash.
abbrev pub exists : ℕ → List Tx → Bool
exists h all = ltb 0 (count_if (has_hash h) all)

-- delete(allTxs, h)
abbrev pub delete_hash : ℕ → List Tx → List Tx
delete_hash h all = keep (λ t. not (has_hash h t)) all

-- allTxs[tx.Hash()] = tx
abbrev pub store : Tx → List Tx → List Tx
store tx all = tx ∷ delete_hash tx.hash all

abbrev pub is_rejected : ℕ → List ℕ → Bool
is_rejected h hashes = ltb 0 (count_if (λ g. g == h) hashes)

-- rejectedTxs[h] = struct{}{}
abbrev pub reject : ℕ → TxPool → TxPool
reject h tp =
    if is_rejected h tp.rejected_txs then tp else record tp { rejected_txs = h ∷ tp.rejected_txs }

unfoldable pub prune_rejected_txs : TxPool → TxPool
prune_rejected_txs tp =
    if leb max_rejected_txs_size (length tp.rejected_txs)
    then record tp { rejected_txs = [] }
    else tp

abbrev pub is_some : Option ℕ → Bool
is_some none = false
is_some (some a) = true

unfoldable pub validate_transaction : Tx → ℕ → Result Error Unit
validate_transaction tx block_gas_limit = do
  price ← or_fail tx.gas_price invalid_tx
  ensure (not (tx.gas == 0) && is_some tx.to) invalid_tx
  ensure (not (ltb block_gas_limit tx.gas)) gas_limit_exceeded
  ensure (not (ltb (uint64_of price) min_gas_price)) gas_price_too_low
  from ← or_fail tx.sender invalid_signature
  ok tt

-- The higher gas price. A nil price is a panic in Go; no pooled transaction has one.
abbrev pub outbids : Option BigInt → Option BigInt → Bool
outbids (some a) (some b) = greater a b
outbids _ _ = false

pub data Replacement : Type 0 where
  no_slot : Replacement
  refused : Replacement
  replaced : Tx → List Tx → Replacement

abbrev pub behind : Tx → Replacement → Replacement
behind t no_slot = no_slot
behind t refused = refused
behind t (replaced old txs) = replaced old (t ∷ txs)

-- The loop over the transactions of the sender: the first of the same nonce is replaced, or it stays.
unfoldable pub replace : Tx → List Tx → Replacement
replace tx [] = no_slot
replace tx (t ∷ txs) =
    let rest = replace tx txs in
    if t.nonce == tx.nonce
    then (if outbids tx.gas_price t.gas_price then replaced t (tx ∷ txs) else refused)
    else behind t rest

-- sort.SliceStable by nonce: an element goes before its equals that came behind it.
unfoldable pub insert_by_nonce : Tx → List Tx → List Tx
insert_by_nonce t [] = t ∷ []
insert_by_nonce t (u ∷ us) =
    let rest = insert_by_nonce t us in if leb t.nonce u.nonce then t ∷ u ∷ us else u ∷ rest

unfoldable pub sort_by_nonce : List Tx → List Tx
sort_by_nonce [] = []
sort_by_nonce (t ∷ ts) = insert_by_nonce t (sort_by_nonce ts)

unfoldable pub sort_account_transactions : ℕ → Pending → Pending
sort_account_transactions addr m =
    if leb (length (txs_of addr m)) 1 then m else put addr (sort_by_nonce (txs_of addr m)) m

-- What AddTransaction does after the loop, by its outcome.
unfoldable pub finish : ℕ → Tx → TxPool → Replacement → TxPool × Option Error
finish from tx tp (replaced old txs) = (
  record tp {
    pending = put from txs tp.pending;
    all_txs = store tx (delete_hash old.hash tp.all_txs);
  },
  none,
)
finish from tx tp refused = (tp, some underpriced)
finish from tx tp no_slot = (
  record tp {
    pending =
        sort_account_transactions from (put from (txs_of from tp.pending ++ tx ∷ []) tp.pending);
    all_txs = store tx tp.all_txs;
  },
  none,
)

-- The end of AddTransaction, for a transaction that passed the checks.
unfoldable pub place : ℕ → Tx → TxPool → TxPool × Option Error
place from tx tp = finish from tx tp (replace tx (txs_of from tp.pending))

unfoldable pub add_from : ℕ → ℕ → Tx → TxPool → TxPool × Option Error
add_from now from tx tp =
    if leb max_tx_pool_size (length tp.all_txs)
    then (tp, some tx_pool_overflow)
    else if ltb (now + max_future_time_drift) (instant tx.timestamp)
    then (reject tx.hash tp, some too_far_in_future)
    else place from tx tp

-- By the result of tx.Sender().
unfoldable pub add_sent : ℕ → Tx → TxPool → Option ℕ → TxPool × Option Error
add_sent now tx tp none = (reject tx.hash tp, some invalid_signature)
add_sent now tx tp (some from) = add_from now from tx tp

unfoldable pub add_transaction : ℕ → Tx → TxPool → TxPool × Option Error
add_transaction now tx tp =
    if exists tx.hash tp.all_txs
    then (tp, none)
    else if is_rejected tx.hash tp.rejected_txs
    then (tp, some previously_rejected)
    else elim (validate_transaction tx tp.block_gas_limit) [
      | err e ↦ (
        reject tx.hash (
            if leb max_rejected_txs_size (length tp.rejected_txs)
            then prune_rejected_txs tp
            else tp),
        some e,
      )
      | ok _ ↦ add_sent now tx tp tx.sender
    ]
