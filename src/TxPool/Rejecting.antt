-- ===== src/TxPool/Rejecting.antt =====
-- txpool/txpool.go: the hashes that AddTransaction has rejected.
use mainnet.TxPool.{
  Tx, TxPool, Error, previously_rejected, too_far_in_future, max_tx_pool_size,
  max_rejected_txs_size, max_future_time_drift, instant, validate_transaction, exists, is_rejected,
  reject, prune_rejected_txs, add_from, add_sent, add_transaction,
}
use mainnet.Common.{
  ◌∙◌, ap, List, [], All, ℕ, ◌+◌, ◌≤◌, ◌<◌, ◌≡◌, refl, inl, inr, true, false, Option, none, some,
  ◌∷◌, arith, ltb, leb, if◌then◌else◌, ==_refl, Bool-cases, length, count_if, ok, err,
}

reject-IsRejected : (h : ℕ) (tp : TxPool) → is_rejected h (reject h tp).rejected_txs ≡ true
unfolding count_if
reject-IsRejected h tp = elim (Bool-cases (is_rejected h tp.rejected_txs)) [
  | inl e ↦ rw (e, e) refl
  | inr e ↦ rw (e, ==_refl h) (ground arith)
]

reject-all_txs : (h : ℕ) (tp : TxPool) → (reject h tp).all_txs ≡ tp.all_txs
reject-all_txs h tp = elim (Bool-cases (is_rejected h tp.rejected_txs)) [
  | inl e ↦ rw e refl
  | inr e ↦ rw e refl
]

pruned : TxPool → TxPool
pruned tp = if leb max_rejected_txs_size (length tp.rejected_txs) then prune_rejected_txs tp else tp

pruned-all_txs : (tp : TxPool) → (pruned tp).all_txs ≡ tp.all_txs
unfolding pruned prune_rejected_txs
pruned-all_txs tp = elim (Bool-cases (leb max_rejected_txs_size (length tp.rejected_txs))) [
  | inl e ↦ rw e refl
  | inr e ↦ rw e refl
]

pruned-bounded : (tp : TxPool) → length (pruned tp).rejected_txs < max_rejected_txs_size
unfolding pruned prune_rejected_txs
pruned-bounded tp = elim (Bool-cases (leb max_rejected_txs_size (length tp.rejected_txs))) [
  | inl e ↦ rw e (ground arith)
  | inr e ↦ rw e (ground arith)
]

reject-length :
    (h : ℕ) (tp : TxPool) → length (reject h tp).rejected_txs ≤ length tp.rejected_txs + 1
reject-length h tp = elim (Bool-cases (is_rejected h tp.rejected_txs)) [
  | inl e ↦ rw e (omega arith)
  | inr e ↦ rw e (omega arith)
]

rejected_again :
    (later : ℕ) (tx : Tx) (tp : TxPool)
    → exists tx.hash tp.all_txs ≡ false
    → is_rejected tx.hash tp.rejected_txs ≡ true
    → add_transaction later tx tp ≡ (tp, some previously_rejected)
unfolding add_transaction
rejected_again later tx tp e f = rw (e, f) refl

rejected_step :
    (now : ℕ) (tx : Tx) (tp : TxPool) (x : Error)
    → exists tx.hash tp.all_txs ≡ false
    → is_rejected tx.hash tp.rejected_txs ≡ false
    → validate_transaction tx tp.block_gas_limit ≡ err x
    → add_transaction now tx tp ≡ (reject tx.hash (pruned tp), some x)
unfolding add_transaction pruned
rejected_step now tx tp x e f g = rw (e, f, g) refl

-- A new transaction that fails its validation is refused with that error and remembered: it is refused at
-- every later time, and no more hashes are remembered than the limit allows, however many there were.
add_transaction-rejected :
    (now later : ℕ) (tx : Tx) (tp : TxPool) (x : Error)
    → exists tx.hash tp.all_txs ≡ false
    → is_rejected tx.hash tp.rejected_txs ≡ false
    → validate_transaction tx tp.block_gas_limit ≡ err x
    → let after = (add_transaction now tx tp).0 in
      ((add_transaction now tx tp).1 ≡ some x)
      × (add_transaction later tx after ≡ (after, some previously_rejected))
      × (length after.rejected_txs ≤ max_rejected_txs_size)
add_transaction-rejected now later tx tp x e f g = rw (rejected_step now tx tp x e f g) (
  refl,
  rejected_again later tx (reject tx.hash (pruned tp))
      (rw (reject-all_txs tx.hash (pruned tp), pruned-all_txs tp) e)
      (reject-IsRejected tx.hash (pruned tp)),
  omega (arith, reject-length tx.hash (pruned tp), pruned-bounded tp),
)

overgrows_sent :
    (now from : ℕ) (tx : Tx) (tp : TxPool) (o : Option ℕ)
    → o ≡ some from
    → is_rejected tx.hash tp.rejected_txs ≡ false
    → length tp.all_txs < max_tx_pool_size
    → now + max_future_time_drift < instant tx.timestamp
    → add_sent now tx tp o
      ≡ (record tp { rejected_txs = tx.hash ∷ tp.rejected_txs }, some too_far_in_future)
unfolding add_sent add_from
overgrows_sent now from tx tp none s f room late = cc
overgrows_sent now from tx tp (some a) s f room late =
    let full : leb max_tx_pool_size (length tp.all_txs) ≡ false = ground arith in
    let future : ltb (now + max_future_time_drift) (instant tx.timestamp) ≡ true = ground arith in
    rw (full, future, f) refl

-- A transaction that passes its validation, but comes from too far in the future.
abbrev pub IsFuture : ℕ → TxPool → Tx → Type 0
IsFuture now tp tx =
    (exists tx.hash tp.all_txs ≡ false)
    × (validate_transaction tx tp.block_gas_limit ≡ ok tt)
    × ((from : ℕ) × (tx.sender ≡ some from))
    × (now + max_future_time_drift < instant tx.timestamp)

-- No hash is rejected yet, and none stands twice.
abbrev pub AreNew : List Tx → List ℕ → Type 0
AreNew [] rejected = Unit
AreNew (tx ∷ txs) rejected =
    (is_rejected tx.hash rejected ≡ false) × AreNew txs (tx.hash ∷ rejected)

-- One transaction after the other.
unfoldable pub add_each : ℕ → List Tx → TxPool → TxPool
add_each now [] tp = tp
add_each now (tx ∷ txs) tp = add_each now txs (add_transaction now tx tp).0

overgrows_step :
    (now : ℕ) (tx : Tx) (tp : TxPool)
    → IsFuture now tp tx
    → is_rejected tx.hash tp.rejected_txs ≡ false
    → length tp.all_txs < max_tx_pool_size
    → add_transaction now tx tp
      ≡ (record tp { rejected_txs = tx.hash ∷ tp.rejected_txs }, some too_far_in_future)
unfolding add_transaction
overgrows_step now tx tp (e, g, (from, s), late) f room =
    rw (e, f, g) (overgrows_sent now from tx tp tx.sender s f room late)

add_each-grows :
    (now : ℕ) (txs : List Tx) (tp : TxPool)
    → All (IsFuture now tp) txs
    → AreNew txs tp.rejected_txs
    → length tp.all_txs < max_tx_pool_size
    → length (add_each now txs tp).rejected_txs ≡ length tp.rejected_txs + length txs
unfolding add_each
add_each-grows now [] tp f n room = omega arith
add_each-grows now (tx ∷ txs) tp (f, fs) (n, ns) room =
    let tp' : TxPool = record tp { rejected_txs = tx.hash ∷ tp.rejected_txs } in
    ap (λ (r : TxPool × Option Error). length (add_each now txs r.0).rejected_txs)
      (overgrows_step now tx tp f n room)
    ∙ omega (arith, add_each-grows now txs tp' fs ns room)

-- A pool with room that has already rejected as many hashes as the limit is given transactions that pass
-- their validation but come from too far in the future, all different and none rejected before. It remembers
-- every one of them: afterwards it holds at least their number of hashes beyond the limit.
pub add_transaction-overgrows :
    (now : ℕ) (txs : List Tx) (tp : TxPool)
    → All (IsFuture now tp) txs
    → AreNew txs tp.rejected_txs
    → length tp.all_txs < max_tx_pool_size
    → max_rejected_txs_size ≤ length tp.rejected_txs
    → max_rejected_txs_size + length txs ≤ length (add_each now txs tp).rejected_txs
add_transaction-overgrows now txs tp f n room full =
    omega (arith, full, add_each-grows now txs tp f n room)
