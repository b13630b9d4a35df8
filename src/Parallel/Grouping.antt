-- ===== src/Parallel/Grouping.antt =====
-- parallel/parallel_executor.go: what the grouping promises, and the order that it does not keep.
use mainnet.Parallel.{
  ParallelTx, conflicts, conflicts_with_group, place, group_onto, group_transactions,
}
use mainnet.Parallel.Sets.{conflicts_comm}
use mainnet.Common.{
  ◌+◌, ◌≡◌, refl, ◌∙◌, inl, inr, Bool, true, false, List, [], ◌∷◌, ◌++◌, arith, Bool-cases,
  count_if, All, count_if-append, count_if-nil, All-append,
}

-- No two transactions of a group conflict, in either order.
abbrev pub AreIndependent : List ParallelTx → Type 0
AreIndependent [] = Unit
AreIndependent (t ∷ ts) =
    All (λ u. (conflicts u t ≡ false) × (conflicts t u ≡ false)) ts × AreIndependent ts

-- Every transaction of the groups, group by group.
unfoldable pub in_order : List (List ParallelTx) → List ParallelTx
in_order [] = []
in_order (group ∷ groups) = group ++ in_order groups

no_conflict :
    (tx : ParallelTx) (group : List ParallelTx)
    → conflicts_with_group tx group ≡ false
    → All (λ t. conflicts tx t ≡ false) group
unfolding conflicts_with_group
no_conflict tx [] h = tt
no_conflict tx (t ∷ group) h = elim (Bool-cases (conflicts tx t)) [
  | inl e ↦ absurd (ground (arith, h, e))
  | inr e ↦ (e, no_conflict tx group (ground (arith, h, e)))
]

append-AreIndependent :
    (tx : ParallelTx) (group : List ParallelTx)
    → All (λ t. conflicts tx t ≡ false) group
    → AreIndependent group
    → AreIndependent (group ++ tx ∷ [])
append-AreIndependent tx [] n h = (tt, tt)
append-AreIndependent tx (t ∷ group) n h = (
  All-append (λ u. (conflicts u t ≡ false) × (conflicts t u ≡ false)) group tx h.0
      (n.0, conflicts_comm t tx ∙ n.0),
  append-AreIndependent tx group n.1 h.1,
)

place-AreIndependent :
    (tx : ParallelTx) (groups : List (List ParallelTx))
    → All AreIndependent groups
    → All AreIndependent (place tx groups)
unfolding place
place-AreIndependent tx [] h = ((tt, tt), tt)
place-AreIndependent tx (group ∷ groups) h = elim (Bool-cases (conflicts_with_group tx group)) [
  | inl e ↦ rw e (h.0, place-AreIndependent tx groups h.1)
  | inr e ↦ rw e (append-AreIndependent tx group (no_conflict tx group e) h.0, h.1)
]

count_if-one :
    (p : ParallelTx → Bool) (t : ParallelTx) (ts : List ParallelTx)
    → count_if p (t ∷ ts) ≡ count_if p (t ∷ []) + count_if p ts
unfolding count_if
count_if-one p t ts = ground arith

count_if-place :
    (p : ParallelTx → Bool) (tx : ParallelTx) (groups : List (List ParallelTx))
    → count_if p (in_order (place tx groups)) ≡ count_if p (tx ∷ in_order groups)
unfolding place in_order
count_if-place p tx [] = refl
count_if-place p tx (group ∷ groups) = elim (Bool-cases (conflicts_with_group tx group)) [
  | inl e ↦ rw e (
      omega (
        arith,
        count_if-append p group (in_order (place tx groups)),
        count_if-append p group (in_order groups),
        count_if-place p tx groups,
        count_if-one p tx (in_order groups),
        count_if-one p tx (group ++ in_order groups),
      ))
  | inr e ↦ rw e (
      omega (
        arith,
        count_if-append p (group ++ tx ∷ []) (in_order groups),
        count_if-append p group (tx ∷ []),
        count_if-append p group (in_order groups),
        count_if-one p tx (group ++ in_order groups),
      ))
]

group_onto-AreIndependent :
    (txs : List ParallelTx) (groups : List (List ParallelTx))
    → All AreIndependent groups
    → All AreIndependent (group_onto groups txs)
      × ((p : ParallelTx → Bool)
          → count_if p (in_order (group_onto groups txs))
            ≡ count_if p (in_order groups) + count_if p txs)
unfolding group_onto
group_onto-AreIndependent [] groups h = (h, λ p. omega (arith, count_if-nil p))
group_onto-AreIndependent (tx ∷ txs) groups h =
    let rest = group_onto-AreIndependent txs (place tx groups) (place-AreIndependent tx groups h) in
    (
      rest.0,
      λ p. omega (
        arith,
        rest.1 p,
        count_if-place p tx groups,
        count_if-one p tx (in_order groups),
        count_if-one p tx txs,
      ),
    )

-- groupTransactions puts every transaction into one group, as often as it is given, and no two
-- transactions of a group conflict.
pub group_transactions-AreIndependent :
    (txs : List ParallelTx)
    → All AreIndependent (group_transactions txs)
      × ((p : ParallelTx → Bool) → count_if p (in_order (group_transactions txs)) ≡ count_if p txs)
unfolding group_transactions in_order
group_transactions-AreIndependent txs =
    let done = group_onto-AreIndependent txs [] tt in
    (done.0, λ p. omega (arith, done.1 p, count_if-nil p))

-- Of three transactions, where the second conflicts with the first and the third with the second alone,
-- groupTransactions puts the third beside the first: it overtakes the second, with which it conflicts.
pub group_transactions-overtakes :
    (first second third : ParallelTx)
    → conflicts second first ≡ true
    → conflicts third first ≡ false
    → conflicts third second ≡ true
    → (in_order (group_transactions (first ∷ second ∷ third ∷ [])) ≡ first ∷ third ∷ second ∷ [])
      × (conflicts second third ≡ true)
unfolding group_transactions group_onto place conflicts_with_group in_order
group_transactions-overtakes first second third a b c =
    (rw (a, b) refl, conflicts_comm second third ∙ c)
