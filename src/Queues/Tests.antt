-- ===== src/Queues/Tests.antt =====
-- The theorems on the queues at concrete inputs, over the sorted list.
use mainnet.Queues.{
  Transaction, Every, Account, init_once, enqueue, prune, prune_loop, promote, promote_loop, reset,
}
use mainnet.Queues.Every.{is_from}
use mainnet.Queues.Aligning.{IsValid, Enqueued, IsAligned, enqueue-IsValid, reset-IsAligned}
use mainnet.Queues.Promoting.{IsRun, promote-HasMoved}
use mainnet.Queues.Sorted.{sorted, insert, rest}
use mainnet.Queues.Gauge.{SlotGauge}
use mainnet.Queues.Every.{is_below}
use mainnet.Common.{ℕ, ◌+◌, ◌-◌, ◌^◌, ◌≡◌, refl, Bool, [], ◌∷◌, arith, count_if}
open sorted use {Queue, push, contents}

abbrev transaction : ℕ → ℕ → ℕ → Transaction
transaction hash nonce gas_price = record {
  hash = hash;
  nonce = nonce;
  gas_price = gas_price;
  from = 7;
}

-- Nonces 5, 5 at a lower price, 6 and 8.
abbrev waiting : Queue
waiting =
    push (transaction 3 8 1)
      (push (transaction 2 5 4) (push (transaction 1 5 9) (push (transaction 0 6 1) sorted.empty)))

abbrev account : Account Queue
account = record (init_once sorted 5 10) { enqueued = waiting }

account-IsValid : IsValid sorted account
unfolding count_if insert init_once
account-IsValid = (refl, refl, refl, omega arith)

-- 5 and 6 are promoted, the cheaper 5 is pruned, 8 waits.
promoted_two :
    ((promote sorted account).1 ≡ transaction 1 5 9 ∷ transaction 0 6 1 ∷ [])
    × ((promote sorted account).2 ≡ transaction 2 5 4 ∷ [])
    × ((promote sorted account).0.next_nonce ≡ 7)
unfolding promote promote_loop prune prune_loop insert rest init_once
promoted_two = (refl, refl, refl)

enqueue-IsValid_example :
    Enqueued sorted (transaction 4 7 2) account (enqueue sorted (transaction 4 7 2) account)
enqueue-IsValid_example = enqueue-IsValid sorted (transaction 4 7 2) account account-IsValid refl

reset-IsAligned_example : IsAligned sorted 6 account (reset sorted 6 account)
reset-IsAligned_example = reset-IsAligned sorted 6 account account-IsValid

promote-HasMoved_example :
    let (b, promoted_txs, pruned_txs) = promote sorted account in
    IsValid sorted b
    × IsRun account.next_nonce promoted_txs b.next_nonce
    × Every (is_from (b.next_nonce + 1)) (contents b.enqueued)
    × Every (is_below b.next_nonce) pruned_txs
    × ((p : Transaction → Bool)
        → count_if p (contents account.enqueued)
          ≡ count_if p promoted_txs + count_if p pruned_txs + count_if p (contents b.enqueued))
    × ((p : Transaction → Bool)
        → count_if p (contents b.promoted)
          ≡ count_if p promoted_txs + count_if p (contents account.promoted))
promote-HasMoved_example = promote-HasMoved sorted account account-IsValid

abbrev gauge : SlotGauge
gauge = record { height = 2 ^ 64 - 2; max = 4096 }
