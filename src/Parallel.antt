-- ===== src/Parallel.antt =====
-- parallel/parallel_executor.go: transactions in groups that may run at the same time.
-- A state key is a string, here the number that stands for it, and `pointer` is what == compares of two
-- *ParallelTx. Of a transaction the code reads the hash. The goroutines of a batch write each to an index of
-- their own, so that the batch is a map over its transactions.
pub mod Sets
pub mod Grouping
pub mod Executing
mod Tests
use mainnet.Common.{
  ℕ, zero, suc, ◌+◌, ◌-◌, ◌*◌, ◌/◌, ◌%◌, ◌^◌, ◌≤◌, ◌<◌, ◌≡◌, refl, sym, ap, ◌∙◌, subst, ◌≢◌, ◌↔◌,
  ◌⊎◌, inl, inr, Bool, true, false, not, ◌&&◌, ◌||◌, Option, none, some, List, [], ◌∷◌, ◌++◌, map,
  arith, ltb, leb, ◌==◌, if◌then◌else◌, ==_iff, ==_refl, Bool-cases, Option-cases, same, same_iff,
  bytes_equal, bytes_equal_refl, eq_of_bytes_equal, length, get_elem?, set, drop, erase_at,
  length-append, length-erase_at, keep, count_if, All, length-keep, count_if-append, count_if-nil,
  get_elem?-total, count_if-keep, All-keep, All-map, All-append, All-drop, All-get_elem?, Result,
  ok, err, ◌>>=◌, ◌>>◌, ensure, or_fail, Result-cases, bind-ok, ensure-ok, or_fail-ok,
}

pub record ParallelTx : Type 0 where
  pub pointer : ℕ
  pub tx : Option ℕ
  pub read_set : List ℕ
  pub write_set : List ℕ

pub data Error : Type 0 where
  nil_transaction zero_hash nil_list nil_batch : Error

-- The result of a transaction that ran is a text that shows its hash.
pub record ExecutionResult : Type 0 where
  pub tx : ParallelTx
  pub result : Result Error ℕ

abbrev pub member : ℕ → List ℕ → Bool
member s [] = false
member s (k ∷ keys) = let rest = member s keys in k == s || rest

-- Whether a set has one of the keys of a slice.
unfoldable pub has_one_of : List ℕ → List ℕ → Bool
has_one_of keys [] = false
has_one_of keys (s ∷ b) = let rest = has_one_of keys b in if member s keys then true else rest

-- intersects, which makes the smaller slice the set.
unfoldable pub intersects : List ℕ → List ℕ → Bool
intersects a b =
    if length a == 0 || length b == 0
    then false
    else if ltb (length b) (length a)
    then has_one_of b a
    else has_one_of a b

unfoldable pub conflicts : ParallelTx → ParallelTx → Bool
conflicts tx1 tx2 =
    if tx1.pointer == tx2.pointer
    then false
    else if intersects tx1.write_set tx2.write_set
    then true
    else intersects tx1.read_set tx2.write_set || intersects tx1.write_set tx2.read_set

unfoldable pub conflicts_with_group : ParallelTx → List ParallelTx → Bool
conflicts_with_group tx [] = false
conflicts_with_group tx (other ∷ group) =
    let rest = conflicts_with_group tx group in if conflicts tx other then true else rest

-- The first group without a conflict takes the transaction, or a new one at the end.
unfoldable pub place : ParallelTx → List (List ParallelTx) → List (List ParallelTx)
place tx [] = (tx ∷ []) ∷ []
place tx (group ∷ groups) =
    let rest = place tx groups in
    if conflicts_with_group tx group then group ∷ rest else (group ++ tx ∷ []) ∷ groups

unfoldable pub group_onto : List (List ParallelTx) → List ParallelTx → List (List ParallelTx)
group_onto groups [] = groups
group_onto groups (tx ∷ txs) = group_onto (place tx groups) txs

unfoldable pub group_transactions : List ParallelTx → List (List ParallelTx)
group_transactions txs = group_onto [] txs

unfoldable pub execute_tx : ParallelTx → Result Error ℕ
execute_tx tx = do hash ← or_fail tx.tx nil_transaction; ensure (not (hash == 0)) zero_hash; ok hash

abbrev pub executed : ParallelTx → ExecutionResult
executed tx = record { tx = tx; result = execute_tx tx }

unfoldable pub execute_batch : Option (List ParallelTx) → Result Error (List ExecutionResult)
execute_batch none = err nil_batch
execute_batch (some txs) = ok (map executed txs)

-- The loop over the groups, with the results so far. An error leaves them.
unfoldable pub execute_groups :
    List ExecutionResult → List (List ParallelTx) → List ExecutionResult × Option Error
execute_groups results [] = (results, none)
execute_groups results (group ∷ groups) = elim (execute_batch (some group)) [
  | err e ↦ (results, some e)
  | ok more ↦ execute_groups (results ++ more) groups
]

abbrev pub with_transaction : ParallelTx → Option ℕ → List ParallelTx → List ParallelTx
with_transaction tx none rest = rest
with_transaction tx (some hash) rest = tx ∷ rest

-- Leaves out nil and what holds no transaction.
unfoldable pub valid_txs : List (Option ParallelTx) → List ParallelTx
valid_txs [] = []
valid_txs (none ∷ txs) = valid_txs txs
valid_txs (some tx ∷ txs) = with_transaction tx tx.tx (valid_txs txs)

unfoldable pub execute_transactions :
    Option (List (Option ParallelTx)) → List ExecutionResult × Option Error
execute_transactions none = ([], some nil_list)
execute_transactions (some txs) =
    if length (valid_txs txs) == 0
    then ([], none)
    else execute_groups [] (group_transactions (valid_txs txs))
