-- ===== src/Parallel/Tests.antt =====
-- The theorems on parallel execution at concrete inputs.
use mainnet.Parallel.{
  ParallelTx, ExecutionResult, intersects, has_one_of, conflicts, group_transactions,
  execute_transactions,
}
use mainnet.Parallel.Grouping.{
  AreIndependent, in_order, group_transactions-AreIndependent, group_transactions-overtakes,
}
use mainnet.Parallel.Executing.{passes, execute_transactions-runs}
use mainnet.Common.{◌≡◌, refl, Bool, true, Option, none, some, List, [], ◌∷◌, count_if, All}

-- Sender 1 writes key 9. Sender 2 writes key 9 too, and then again, without it.
abbrev first : ParallelTx
first = record { pointer = 100; tx = some 51; read_set = 1 ∷ []; write_set = 1 ∷ 9 ∷ [] }

abbrev second : ParallelTx
second = record { pointer = 101; tx = some 52; read_set = 2 ∷ []; write_set = 2 ∷ 9 ∷ [] }

abbrev third : ParallelTx
third = record { pointer = 102; tx = some 53; read_set = 2 ∷ []; write_set = 2 ∷ [] }

abbrev block : List ParallelTx
block = first ∷ second ∷ third ∷ []

group_transactions-AreIndependent_example :
    All AreIndependent (group_transactions block)
    × ((p : ParallelTx → Bool)
        → count_if p (in_order (group_transactions block)) ≡ count_if p block)
group_transactions-AreIndependent_example = group_transactions-AreIndependent block

-- The later transaction of sender 2 runs before the earlier one.
group_transactions-overtakes_example :
    (in_order (group_transactions block) ≡ first ∷ third ∷ second ∷ [])
    × (conflicts second third ≡ true)
unfolding conflicts intersects has_one_of
group_transactions-overtakes_example =
    group_transactions-overtakes first second third refl refl refl

abbrev given : List (Option ParallelTx)
given = some first ∷ none ∷ some second ∷ []

execute_transactions-runs_example :
    let (results, e) = execute_transactions (some given) in
    (e ≡ none) × ((p : ExecutionResult → Bool) → count_if p results ≡ count_if (passes p) given)
execute_transactions-runs_example = execute_transactions-runs given
