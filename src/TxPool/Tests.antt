-- ===== src/TxPool/Tests.antt =====
-- The theorems on the pool at concrete inputs.
use mainnet.TxPool.{
  Tx, natural, TxPool, txs_of, exists, add_transaction, finish, place, add_from, add_sent,
  is_rejected, max_rejected_txs_size, validate_transaction, replace, put, erase, put_or_erase,
  insert_by_nonce, sort_by_nonce, sort_account_transactions, prune_rejected_txs, instant,
}
use mainnet.TxPool.Removal.{
  new_tx_pool, is_fresh, remove_stale, remove_transactions, is_current, update_nonce, get_nonce,
}
use mainnet.TxPool.Invariant.{IsValid, new_tx_pool-IsValid}
use mainnet.TxPool.Placing.{Effect}
use mainnet.TxPool.Adding.{add_transaction-IsValid, add_transaction-Effect}
use mainnet.TxPool.Removing.{update_nonce-IsValid, remove_stale-IsValid}
use mainnet.TxPool.Withdrawing.{listed, remove_transactions-IsValid}
use mainnet.TxPool.Rejecting.{add_each, add_transaction-overgrows}
use mainnet.Common.{
  length, zero, suc, ◌≤◌, ℕ, ◌+◌, ◌*◌, ◌^◌, ◌≡◌, refl, false, not, none, some, List, [], ◌∷◌, arith,
  ◌==◌, if◌then◌else◌, keep, count_if, All,
}

abbrev repeat : ℕ → ℕ → List ℕ
repeat zero x = []
repeat (suc n) x = x ∷ repeat n x

-- From sender 7, at gas price 5 unless it says otherwise.
abbrev transfer : ℕ → ℕ → ℕ → Tx
transfer hash nonce timestamp = record {
  hash = hash;
  nonce = nonce;
  gas = 21000;
  gas_price = some (natural 5);
  to = some 9;
  timestamp = timestamp;
  sender = some 7;
}

-- In nanoseconds since the least timestamp: 1000 seconds after 1970.
abbrev now : ℕ
now = (1000 + 62135596800 + 2 ^ 63) * 1000000000

abbrev empty : TxPool
empty = new_tx_pool now 30000000

abbrev one : TxPool
one = (add_transaction now (transfer 101 4 1000) empty).0

-- The later nonce came first.
abbrev two : TxPool
two = (add_transaction now (transfer 102 3 900) one).0

empty-IsValid : IsValid empty
empty-IsValid = new_tx_pool-IsValid now 30000000

one-IsValid : IsValid one
one-IsValid = add_transaction-IsValid now (transfer 101 4 1000) empty empty-IsValid

two-IsValid : IsValid two
two-IsValid = add_transaction-IsValid now (transfer 102 3 900) one one-IsValid

two-account : txs_of 7 two.pending ≡ transfer 102 3 900 ∷ transfer 101 4 1000 ∷ []
unfolding txs_of add_transaction finish place add_from add_sent validate_transaction replace put
    erase put_or_erase insert_by_nonce sort_by_nonce sort_account_transactions prune_rejected_txs
    instant new_tx_pool keep count_if
two-account = refl

two-all_txs : two.all_txs ≡ transfer 102 3 900 ∷ transfer 101 4 1000 ∷ []
unfolding txs_of add_transaction finish place add_from add_sent validate_transaction replace put
    erase put_or_erase insert_by_nonce sort_by_nonce sort_account_transactions prune_rejected_txs
    instant new_tx_pool keep count_if
two-all_txs = refl

-- Of nonce 4, at a higher price.
abbrev dearer : Tx
dearer = record (transfer 103 4 1000) { gas_price = some (natural 6) }

dearer-new : exists 103 two.all_txs ≡ false
unfolding count_if
dearer-new = rw two-all_txs refl

add_transaction-IsValid_example : IsValid (add_transaction now dearer two).0
add_transaction-IsValid_example = add_transaction-IsValid now dearer two two-IsValid

add_transaction-Effect_example : Effect dearer two (add_transaction now dearer two)
add_transaction-Effect_example = add_transaction-Effect now dearer two two-IsValid dearer-new

update_nonce-IsValid_example :
    IsValid (update_nonce 7 4 two)
    × (get_nonce 7 (update_nonce 7 4 two) ≡ 4)
    × ((b : ℕ)
        → txs_of b (update_nonce 7 4 two).pending
          ≡ (if 7 == b then keep (is_current 4) (txs_of 7 two.pending) else txs_of b two.pending))
update_nonce-IsValid_example = update_nonce-IsValid 7 4 two two-IsValid

-- 31 minutes after the older of the two.
remove_stale-IsValid_example :
    IsValid (remove_stale (now + 1760 * 1000000000) two)
    × ((b : ℕ)
        → txs_of b (remove_stale (now + 1760 * 1000000000) two).pending
          ≡ keep (is_fresh (now + 1760 * 1000000000)) (txs_of b two.pending))
remove_stale-IsValid_example = remove_stale-IsValid (now + 1760 * 1000000000) two two-IsValid

block : List Tx
block = transfer 101 4 1000 ∷ transfer 110 8 1000 ∷ []

block-IsKnown : All (λ tx. All (λ t. t.hash ≡ tx.hash → t.sender ≡ tx.sender) two.all_txs) block
unfolding block
block-IsKnown =
    rw two-all_txs ((((λ e. refl), ((λ e. refl), tt)), (((λ e. refl), ((λ e. refl), tt)), tt)))

remove_transactions-IsValid_example :
    IsValid (remove_transactions block two)
    × ((remove_transactions block two).all_txs ≡ keep (λ t. not (listed block t.hash)) two.all_txs)
remove_transactions-IsValid_example =
    remove_transactions-IsValid block two two-IsValid block-IsKnown

-- A contract creation, which the pool refuses.
abbrev creation : Tx
creation = record (transfer 104 5 1000) { to = none }

-- 15 minutes and a second ahead.
-- A pool that has rejected as many hashes as the limit.
abbrev rejecting : TxPool
rejecting = record empty { rejected_txs = repeat max_rejected_txs_size 1 }

repeat-length : (n : ℕ) → length (repeat n 1) ≡ n
repeat-length zero = refl
repeat-length (suc n) = omega (arith, repeat-length n)

not_repeated : (n h : ℕ) → (1 == h) ≡ false → is_rejected h (repeat n 1) ≡ false
unfolding count_if
not_repeated zero h e = refl
not_repeated (suc n) h e = ground (arith, e, not_repeated n h e)

not_first :
    (g h : ℕ) (hs : List ℕ)
    → (g == h) ≡ false
    → is_rejected h hs ≡ false
    → is_rejected h (g ∷ hs) ≡ false
unfolding count_if
not_first g h hs e f = ground (arith, e, f)

add_transaction-overgrows_example :
    max_rejected_txs_size + 2
    ≤ length (add_each now (transfer 105 5 1901 ∷ transfer 106 6 1902 ∷ []) rejecting).rejected_txs
unfolding validate_transaction new_tx_pool count_if instant
add_transaction-overgrows_example =
    add_transaction-overgrows now (transfer 105 5 1901 ∷ transfer 106 6 1902 ∷ []) rejecting
      ((refl, refl, (7, refl), omega arith), ((refl, refl, (7, refl), omega arith), tt))
      (
        not_repeated max_rejected_txs_size 105 refl,
        (
          not_first 105 106 rejecting.rejected_txs refl
              (not_repeated max_rejected_txs_size 106 refl),
          tt,
        ),
      )
      (omega arith) (omega (arith, repeat-length max_rejected_txs_size))
