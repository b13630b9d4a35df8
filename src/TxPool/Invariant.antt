-- ===== src/TxPool/Invariant.antt =====
-- txpool/txpool.go: what every operation of the pool keeps.
use mainnet.TxPool.{
  Tx, TxPool, max_tx_pool_size, txs_of, put, erase, put_or_erase, validate_transaction, reject,
  prune_rejected_txs, is_rejected, delete_hash,
}
use mainnet.TxPool.Removal.{delete_failing, new_tx_pool, clear}
use mainnet.TxPool.Counting.{Agree, HasOwnHashes}
use mainnet.TxPool.Accounts.{
  flat, flat-Agree, flat-put-Agree, flat-put_or_erase-Agree, IsMap, Accounts, put-Accounts,
  put_or_erase-Accounts, put-IsMap, put_or_erase-IsMap, txs_of-Accounts,
}
use mainnet.TxPool.Nonces.{IsAscending}
use mainnet.Common.{
  ℕ, ◌≤◌, ◌≡◌, refl, sym, ◌∙◌, inl, inr, Bool, not, some, List, [], ◌∷◌, arith, leb, ◌==◌,
  Bool-cases, length, keep, count_if, All, count_if-nil, ok,
}

-- The transactions of an account: validated, of this sender, in order of their nonces.
abbrev pub IsAccount : ℕ → ℕ → List Tx → Type 0
IsAccount limit a txs =
    IsAscending txs × All (λ t. (t.sender ≡ some a) × (validate_transaction t limit ≡ ok tt)) txs

-- Both maps hold the same transactions, each under its own hash, and no more than the limit.
abbrev pub IsValid : TxPool → Type 0
IsValid tp =
    IsMap tp.pending
    × Accounts (IsAccount tp.block_gas_limit) tp.pending
    × ((q : Tx → Bool) → count_if q tp.all_txs ≡ count_if q (flat tp.pending))
    × HasOwnHashes tp.all_txs
    × (length tp.all_txs ≤ max_tx_pool_size)

IsAccount-nil : (limit a : ℕ) → IsAccount limit a []
unfolding IsAscending
IsAccount-nil limit a = (tt, tt)

pub txs_of-IsAccount :
    (tp : TxPool) (a : ℕ) → IsValid tp → IsAccount tp.block_gas_limit a (txs_of a tp.pending)
txs_of-IsAccount tp a v =
    txs_of-Accounts (IsAccount tp.block_gas_limit) (IsAccount-nil tp.block_gas_limit) a tp.pending
      v.1

-- The transactions by hash are those of one account and those of the others.
pub account-Agree :
    (tp : TxPool) (a : ℕ)
    → IsValid tp
    → Agree tp.all_txs (txs_of a tp.pending) (flat (erase a tp.pending))
account-Agree tp a v q = v.2 q ∙ flat-Agree a tp.pending q

module _ (tp : TxPool) (a : ℕ) (txs all : List Tx) where
  abbrev Fits : Type 0
  Fits =
      IsAccount tp.block_gas_limit a txs
      × Agree all txs (flat (erase a tp.pending))
      × HasOwnHashes all
      × (length all ≤ max_tx_pool_size)

  pub put-IsValid :
      IsValid tp → Fits → IsValid (record tp { pending = put a txs tp.pending; all_txs = all })
  put-IsValid v (account, agree, own, bound) = (
    put-IsMap a txs tp.pending v.0,
    put-Accounts (IsAccount tp.block_gas_limit) a txs tp.pending account v.1,
    λ q. agree q ∙ sym (flat-put-Agree a txs tp.pending q),
    own,
    bound,
  )

  pub put_or_erase-IsValid :
      IsValid tp
      → Fits
      → IsValid (record tp { pending = put_or_erase a txs tp.pending; all_txs = all })
  put_or_erase-IsValid v (account, agree, own, bound) = (
    put_or_erase-IsMap a txs tp.pending v.0,
    put_or_erase-Accounts (IsAccount tp.block_gas_limit) a txs tp.pending account v.1,
    λ q. agree q ∙ sym (flat-put_or_erase-Agree a txs tp.pending q),
    own,
    bound,
  )

pub reject-IsValid : (h : ℕ) (tp : TxPool) → IsValid tp → IsValid (reject h tp)
reject-IsValid h tp v = elim (Bool-cases (is_rejected h tp.rejected_txs)) [
  | inl e ↦ rw e v
  | inr e ↦ rw e v
]

pub prune_rejected_txs-IsValid : (tp : TxPool) → IsValid tp → IsValid (prune_rejected_txs tp)
unfolding prune_rejected_txs
prune_rejected_txs-IsValid tp v = elim (Bool-cases (leb 10000 (length tp.rejected_txs))) [
  | inl e ↦ rw e v
  | inr e ↦ rw e v
]

pub length-keep_le : (p : Tx → Bool) (ts : List Tx) → length (keep p ts) ≤ length ts
unfolding keep
length-keep_le p [] = omega arith
length-keep_le p (t ∷ ts) = ground (arith, length-keep_le p ts)

pub length-delete_failing_le :
    (p : Tx → Bool) (ts all : List Tx) → length (delete_failing p ts all) ≤ length all
unfolding delete_failing
length-delete_failing_le p [] all = omega arith
length-delete_failing_le p (t ∷ ts) all = elim (Bool-cases (p t)) [
  | inl e ↦ rw e (length-delete_failing_le p ts all)
  | inr e ↦ rw e (
      omega (
        arith,
        length-delete_failing_le p ts (delete_hash t.hash all),
        length-keep_le (λ u. not (u.hash == t.hash)) all,
      ))
]

empty-IsValid : (tp : TxPool) → tp.pending ≡ [] → tp.all_txs ≡ [] → IsValid tp
unfolding flat IsMap
empty-IsValid tp p a =
    rw (p, a)
      (tt, tt, λ q. refl, λ h. omega (arith, count_if-nil (λ (t : Tx). t.hash == h)), omega arith)

pub new_tx_pool-IsValid : (now limit : ℕ) → IsValid (new_tx_pool now limit)
unfolding new_tx_pool
new_tx_pool-IsValid now limit = empty-IsValid (new_tx_pool now limit) refl refl

pub clear-IsValid : (tp : TxPool) → IsValid (clear tp)
unfolding clear
clear-IsValid tp = empty-IsValid (clear tp) refl refl
