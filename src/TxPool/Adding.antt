-- ===== src/TxPool/Adding.antt =====
-- txpool/txpool.go: AddTransaction.
use mainnet.TxPool.{
  Tx, TxPool, max_tx_pool_size, max_rejected_txs_size, max_future_time_drift, instant, txs_of,
  validate_transaction, exists, is_rejected, has_hash, reject, prune_rejected_txs, replace, place,
  add_from, add_sent, add_transaction,
}
use mainnet.TxPool.Counting.{exists-absent}
use mainnet.TxPool.Slots.{replace-Outcome}
use mainnet.TxPool.Invariant.{IsValid, reject-IsValid, prune_rejected_txs-IsValid}
use mainnet.TxPool.Placing.{IsUnchanged, Effect, reject-IsUnchanged, finish-IsValid, finish-Effect}
use mainnet.Common.{
  ℕ, ◌+◌, ◌≡◌, refl, inl, inr, false, Option, none, some, [], arith, ltb, leb, if◌then◌else◌,
  Bool-cases, length, count_if, ok, Result-cases,
}

module _ (now : ℕ) (from : ℕ) (tx : Tx) (tp : TxPool) (v : IsValid tp)
    (sent : tx.sender ≡ some from) (valid : validate_transaction tx tp.block_gas_limit ≡ ok tt)
    (fresh : count_if (has_hash tx.hash) tp.all_txs ≡ 0) where
  add_from-IsValid : IsValid (add_from now from tx tp).0
  unfolding add_from place
  add_from-IsValid = elim (Bool-cases (leb max_tx_pool_size (length tp.all_txs))) [
    | inl e ↦ rw e v
    | inr e ↦ elim (Bool-cases (ltb (now + max_future_time_drift) (instant tx.timestamp))) [
      | inl f ↦ rw (e, f) (reject-IsValid tx.hash tp v)
      | inr f ↦
          rw (e, f)
            (finish-IsValid from tx tp (replace tx (txs_of from tp.pending))
              (replace-Outcome tx (txs_of from tp.pending)) v (sent, valid, fresh, ground arith))
    ]
  ]

  add_from-Effect : Effect tx tp (add_from now from tx tp)
  unfolding add_from place
  add_from-Effect = elim (Bool-cases (leb max_tx_pool_size (length tp.all_txs))) [
    | inl e ↦ rw e (refl, refl)
    | inr e ↦ elim (Bool-cases (ltb (now + max_future_time_drift) (instant tx.timestamp))) [
      | inl f ↦ rw (e, f) (reject-IsUnchanged tx.hash tp)
      | inr f ↦
          rw (e, f)
            (finish-Effect from tx tp (replace tx (txs_of from tp.pending))
              (replace-Outcome tx (txs_of from tp.pending)) v (sent, valid, fresh, ground arith))
    ]
  ]

module _ (now : ℕ) (tx : Tx) (tp : TxPool) (v : IsValid tp)
    (valid : validate_transaction tx tp.block_gas_limit ≡ ok tt)
    (fresh : count_if (has_hash tx.hash) tp.all_txs ≡ 0) where
  add_sent-IsValid : (o : Option ℕ) → tx.sender ≡ o → IsValid (add_sent now tx tp o).0
  unfolding add_sent
  add_sent-IsValid none s = reject-IsValid tx.hash tp v
  add_sent-IsValid (some from) s = add_from-IsValid now from tx tp v s valid fresh

  add_sent-Effect : (o : Option ℕ) → tx.sender ≡ o → Effect tx tp (add_sent now tx tp o)
  unfolding add_sent
  add_sent-Effect none s = reject-IsUnchanged tx.hash tp
  add_sent-Effect (some from) s = add_from-Effect now from tx tp v s valid fresh

pruned-IsValid :
    (tp : TxPool)
    → IsValid tp
    → IsValid
        (if leb max_rejected_txs_size (length tp.rejected_txs) then prune_rejected_txs tp else tp)
pruned-IsValid tp v = elim (Bool-cases (leb max_rejected_txs_size (length tp.rejected_txs))) [
  | inl e ↦ rw e (prune_rejected_txs-IsValid tp v)
  | inr e ↦ rw e v
]

pruned-IsUnchanged :
    (h : ℕ) (tp : TxPool)
    → IsUnchanged tp (
        reject h (
          if leb max_rejected_txs_size (length tp.rejected_txs) then prune_rejected_txs tp else tp))
unfolding prune_rejected_txs
pruned-IsUnchanged h tp = elim (Bool-cases (leb max_rejected_txs_size (length tp.rejected_txs))) [
  | inl e ↦ rw e (reject-IsUnchanged h (record tp { rejected_txs = [] }))
  | inr e ↦ rw e (reject-IsUnchanged h tp)
]

-- AddTransaction keeps the pool valid, whatever it is given, with an error or without.
pub add_transaction-IsValid :
    (now : ℕ) (tx : Tx) (tp : TxPool) → IsValid tp → IsValid (add_transaction now tx tp).0
unfolding add_transaction
add_transaction-IsValid now tx tp v = elim (Bool-cases (exists tx.hash tp.all_txs)) [
  | inl e ↦ rw e v
  | inr e ↦ elim (Bool-cases (is_rejected tx.hash tp.rejected_txs)) [
    | inl f ↦ rw (e, f) v
    | inr f ↦ elim (Result-cases (validate_transaction tx tp.block_gas_limit)) [
      | inr (x, g) ↦ rw (e, f, g) (reject-IsValid tx.hash _ (pruned-IsValid tp v))
      | inl (done, g) ↦
          rw (e, f, g)
            (add_sent-IsValid now tx tp v g (exists-absent tx.hash tp.all_txs e) tx.sender refl)
    ]
  ]
]

-- In a valid pool a transaction that AddTransaction takes, and that was not there, is added to the
-- account of its sender in place of the transactions of its nonce, all of which it outbids, and no other
-- account changes. With an error the pool holds what it held.
pub add_transaction-Effect :
    (now : ℕ) (tx : Tx) (tp : TxPool)
    → IsValid tp
    → exists tx.hash tp.all_txs ≡ false
    → Effect tx tp (add_transaction now tx tp)
unfolding add_transaction
add_transaction-Effect now tx tp v e = elim (Bool-cases (is_rejected tx.hash tp.rejected_txs)) [
  | inl f ↦ rw (e, f) (refl, refl)
  | inr f ↦ elim (Result-cases (validate_transaction tx tp.block_gas_limit)) [
    | inr (x, g) ↦ rw (e, f, g) (pruned-IsUnchanged tx.hash tp)
    | inl (done, g) ↦
        rw (e, f, g)
          (add_sent-Effect now tx tp v g (exists-absent tx.hash tp.all_txs e) tx.sender refl)
  ]
]
