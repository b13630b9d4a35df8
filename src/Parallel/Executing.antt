-- ===== src/Parallel/Executing.antt =====
-- parallel/parallel_executor.go: ExecuteTransactions runs every valid transaction once.
use mainnet.Parallel.{
  ParallelTx, ExecutionResult, executed, execute_batch, execute_groups, execute_transactions,
  valid_txs, execute_tx, with_transaction, group_transactions, zero_hash,
}
use mainnet.Parallel.Grouping.{in_order, group_transactions-AreIndependent}
use mainnet.Common.{
  ℕ, suc, Option-cases, false, if◌then◌else◌, ok, err, ◌≡◌, refl, sym, ap, ◌∙◌, inl, inr, Bool,
  true, Option, none, some, List, [], ◌∷◌, ◌++◌, map, arith, ◌==◌, Bool-cases, length, count_if,
  count_if-nil,
}

map-append : {A B : Type 0} (f : A → B) (xs ys : List A) → map f (xs ++ ys) ≡ map f xs ++ map f ys
map-append f [] ys = refl
map-append {A} {B} f (x ∷ xs) ys = ap (λ (l : List B). f x ∷ l) (map-append f xs ys)

append_nil : {A : Type 0} (xs : List A) → xs ++ [] ≡ xs
append_nil [] = refl
append_nil {A} (x ∷ xs) = ap (λ (l : List A). x ∷ l) (append_nil xs)

append_assoc : {A : Type 0} (xs ys zs : List A) → xs ++ ys ++ zs ≡ xs ++ (ys ++ zs)
append_assoc [] ys zs = refl
append_assoc {A} (x ∷ xs) ys zs = ap (λ (l : List A). x ∷ l) (append_assoc xs ys zs)

-- The groups run one after the other, and none fails.
execute_groups-in_order :
    (results : List ExecutionResult) (groups : List (List ParallelTx))
    → execute_groups results groups ≡ (results ++ map executed (in_order groups), none)
unfolding execute_groups execute_batch in_order
execute_groups-in_order results [] =
    ap (λ (l : List ExecutionResult). (l, none)) (sym (append_nil results))
execute_groups-in_order results (group ∷ groups) =
    execute_groups-in_order (results ++ map executed group) groups
    ∙ ap (λ (l : List ExecutionResult). (l, none))
        (append_assoc results (map executed group) (map executed (in_order groups))
          ∙ ap (λ (l : List ExecutionResult). results ++ l)
              (sym (map-append executed group (in_order groups))))

count_if-map :
    (p : ExecutionResult → Bool) (txs : List ParallelTx)
    → count_if p (map executed txs) ≡ count_if (λ t. p (executed t)) txs
unfolding count_if
count_if-map p [] = refl
count_if-map p (t ∷ txs) = ground (arith, count_if-map p txs)

-- Whether the result that a transaction should have passes a test: one without a transaction in it has none,
-- one with a zero hash fails, and any other succeeds with its hash.
abbrev pub passes : (ExecutionResult → Bool) → Option ParallelTx → Bool
passes p none = false
passes p (some t) = elim t.tx [
  | none ↦ false
  | some hash ↦
      if hash == 0
      then p (record { tx = t; result = err zero_hash })
      else p (record { tx = t; result = ok hash })
]

executed-result :
    (t : ParallelTx) (hash : ℕ)
    → t.tx ≡ some hash
    → executed t ≡ (
        if hash == 0
        then record { tx = t; result = err zero_hash }
        else record { tx = t; result = ok hash })
unfolding execute_tx
executed-result t hash e = elim (Bool-cases (hash == 0)) [
  | inl f ↦ rw (e, f) refl
  | inr f ↦ rw (e, f) refl
]

valid_passes :
    (p : ExecutionResult → Bool) (t : ParallelTx) (hash : ℕ)
    → t.tx ≡ some hash
    → p (executed t) ≡ passes p (some t)
valid_passes p t hash e =
    let failed : ExecutionResult = record { tx = t; result = err zero_hash } in
    ap p (executed-result t hash e)
    ∙ each (hash == 0) failed (record { tx = t; result = ok hash })
    ∙ sym (
        ap
          (λ (o : Option ℕ). elim o as (λ _. Bool) [
            | none ↦ false
            | some h ↦
                if h == 0
                then p (record { tx = t; result = err zero_hash })
                else p (record { tx = t; result = ok h })
          ])
          e)
  where
    each : (b : Bool) (x y : ExecutionResult) → p (if b then x else y) ≡ (if b then p x else p y)
    each true x y = refl
    each false x y = refl

count_if-valid_txs :
    (p : ExecutionResult → Bool) (txs : List (Option ParallelTx))
    → count_if (λ t. p (executed t)) (valid_txs txs) ≡ count_if (passes p) txs
unfolding valid_txs count_if
count_if-valid_txs p [] = refl
count_if-valid_txs p (none ∷ txs) = count_if-valid_txs p txs
count_if-valid_txs p (some t ∷ txs) = elim (Option-cases t.tx) [
  | inl e ↦
      ap (λ o. count_if (λ t. p (executed t)) (with_transaction t o (valid_txs txs))) e
      ∙ count_if-valid_txs p txs
      ∙ sym (counted (passes p (some t)) (rw e refl))
  | inr (hash, e) ↦
      ap (λ o. count_if (λ t. p (executed t)) (with_transaction t o (valid_txs txs))) e
      ∙ ap (λ b. let n = count_if (λ t. p (executed t)) (valid_txs txs) in if b then suc n else n)
          (valid_passes p t hash e)
      ∙ ap (λ n. if passes p (some t) then suc n else n) (count_if-valid_txs p txs)
]
  where
    counted :
        (b : Bool)
        → b ≡ false
        → (if b then suc (count_if (passes p) txs) else count_if (passes p) txs)
          ≡ count_if (passes p) txs
    counted b h = rw h refl

none_valid : (txs : List ParallelTx) → (length txs == 0) ≡ true → txs ≡ []
none_valid [] e = refl
none_valid (t ∷ txs) e = absurd (ground arith)

-- ExecuteTransactions fails on no list of transactions. Every entry of the list with a transaction in it
-- gives one result, as often as it stands there: the hash of the transaction, or an error where it is zero.
-- No other entry gives one, and there are no other results.
pub execute_transactions-runs :
    (txs : List (Option ParallelTx))
    → let (results, e) = execute_transactions (some txs) in
      (e ≡ none) × ((p : ExecutionResult → Bool) → count_if p results ≡ count_if (passes p) txs)
unfolding execute_transactions
execute_transactions-runs txs =
    let valid = valid_txs txs in
    elim (Bool-cases (length valid == 0)) [
      | inl e ↦ rw e (
        refl,
        λ p.
            count_if-nil p
            ∙ sym (count_if-nil (λ t. p (executed t)))
            ∙ ap (count_if (λ t. p (executed t))) (sym (none_valid valid e))
            ∙ count_if-valid_txs p txs,
      )
      | inr e ↦
          rw (e, execute_groups-in_order [] (group_transactions valid))
            (
              refl,
              λ p.
                  count_if-map p (in_order (group_transactions valid))
                  ∙ (group_transactions-AreIndependent valid).1 (λ t. p (executed t))
                  ∙ count_if-valid_txs p txs,
            )
    ]
