-- ===== src/TxPool/Placing.antt =====
-- txpool/txpool.go: how AddTransaction places a transaction in the account of its sender.
use mainnet.TxPool.{
  Tx, Pending, TxPool, Error, max_tx_pool_size, txs_of, put, erase, validate_transaction,
  is_rejected, delete_hash, store, has_hash, reject, Replacement, no_slot, refused, replaced,
  finish, outbids, sort_by_nonce,
}
use mainnet.TxPool.Counting.{
  Agree, count_if-cons, delete_hash-Agree, delete_hash-HasOwnHashes, store-new, cons-HasOwnHashes,
  cons-Agree,
}
use mainnet.TxPool.Accounts.{flat, txs_of-put}
use mainnet.TxPool.Nonces.{
  IsAscending, sort_by_nonce-append, sort_by_nonce-All, count_if-sort_by_nonce,
}
use mainnet.TxPool.Slots.{
  Outcome, count_if-middle, All-middle, All-at_middle, IsAscending-middle, other_nonce,
  keep-other_nonce, keep-middle, sort_account_transactions-put,
}
use mainnet.TxPool.Invariant.{
  IsAccount, IsValid, txs_of-IsAccount, account-Agree, put-IsValid, length-keep_le,
}
use mainnet.Common.{
  ℕ, ◌<◌, ◌≡◌, refl, sym, ap, ◌∙◌, subst, ◌≢◌, inl, inr, Bool, true, false, not, Option, none, some,
  List, [], ◌∷◌, ◌++◌, arith, ◌==◌, ==_refl, Bool-cases, length, keep, count_if, All,
  count_if-append, count_if-nil, count_if-keep, All-map, All-append, ok,
}

-- What a transaction does to the account of its sender, and to no other.
abbrev pub IsPlaced : ℕ → Tx → TxPool → TxPool → Type 0
IsPlaced from tx before after =
    let mine = txs_of from before.pending in
    ((b : ℕ) → (from == b) ≡ false → txs_of b after.pending ≡ txs_of b before.pending)
    × ((q : Tx → Bool)
        → count_if q (txs_of from after.pending)
          ≡ count_if q (tx ∷ keep (other_nonce tx.nonce) mine))
    × All (λ t. t.nonce ≡ tx.nonce → outbids tx.gas_price t.gas_price ≡ true) mine

abbrev pub IsUnchanged : TxPool → TxPool → Type 0
IsUnchanged before after = (after.pending ≡ before.pending) × (after.all_txs ≡ before.all_txs)

abbrev pub Effect : Tx → TxPool → TxPool × Option Error → Type 0
Effect tx before (after, none) =
    (from : ℕ) × (tx.sender ≡ some from) × IsPlaced from tx before after
Effect tx before (after, some e) = IsUnchanged before after

pub reject-IsUnchanged : (h : ℕ) (tp : TxPool) → IsUnchanged tp (reject h tp)
reject-IsUnchanged h tp = elim (Bool-cases (is_rejected h tp.rejected_txs)) [
  | inl e ↦ rw e (refl, refl)
  | inr e ↦ rw e (refl, refl)
]

-- Only one transaction has the nonce, and it is outbid.
bids :
    (tx : Tx) (xs : List Tx) (old : Tx) (ys : List Tx)
    → old.nonce ≡ tx.nonce
    → outbids tx.gas_price old.gas_price ≡ true
    → IsAscending (xs ++ old ∷ ys)
    → All (λ t. t.nonce ≡ tx.nonce → outbids tx.gas_price t.gas_price ≡ true) (xs ++ old ∷ ys)
unfolding IsAscending
bids tx [] old ys n b h = (λ e. b, All-map _ _ ys (λ t l e. absurd (omega (arith, n))) h.0)
bids tx (x ∷ xs) old ys n b h =
    let less : x.nonce < old.nonce = All-at_middle (λ u. x.nonce < u.nonce) xs old ys h.0 in
    (λ e. absurd (omega (arith, n, less)), bids tx xs old ys n b h.1)

module _ (from : ℕ) (tx : Tx) (tp : TxPool) where
  abbrev pub Acceptable : Type 0
  Acceptable =
      (tx.sender ≡ some from)
      × (validate_transaction tx tp.block_gas_limit ≡ ok tt)
      × (count_if (has_hash tx.hash) tp.all_txs ≡ 0)
      × (length tp.all_txs < max_tx_pool_size)

  abbrev pub mine : List Tx
  mine = txs_of from tp.pending

  abbrev others : List Tx
  others = flat (erase from tp.pending)

  with_store :
      (all : List Tx) (m : Pending)
      → count_if (has_hash tx.hash) all ≡ 0
      → IsValid (record tp { pending = m; all_txs = tx ∷ all })
      → IsValid (record tp { pending = m; all_txs = store tx all })
  with_store all m absent v =
      subst (λ (l : List Tx). IsValid (record tp { pending = m; all_txs = l }))
        (sym (store-new tx all absent)) v

  -- The new transaction stands for an old one.
  replaced-IsValid :
      (xs : List Tx) (old : Tx) (ys : List Tx)
      → mine ≡ xs ++ old ∷ ys
      → old.nonce ≡ tx.nonce
      → IsValid tp
      → Acceptable
      → IsValid (record tp {
        pending = put from (xs ++ tx ∷ ys) tp.pending;
        all_txs = store tx (delete_hash old.hash tp.all_txs);
      })
  replaced-IsValid xs old ys e n v (sent, valid, fresh, room) =
      let left = delete_hash old.hash tp.all_txs in
      let account : IsAccount tp.block_gas_limit from (xs ++ old ∷ ys) =
        subst (IsAccount tp.block_gas_limit from) e (txs_of-IsAccount tp from v) in
      let agree : Agree tp.all_txs (old ∷ xs ++ ys) others = λ q.
        ground (arith, account-Agree tp from v q, ap (count_if q) e, count_if-middle q xs old ys) in
      let absent : count_if (has_hash tx.hash) left ≡ 0 = omega (
        arith,
        fresh,
        count_if-keep (has_hash tx.hash) (λ t. not (t.hash == old.hash)) tp.all_txs,
      ) in
      let added =
        cons-Agree tx left (xs ++ ys) others
          (delete_hash-Agree old tp.all_txs (xs ++ ys) others agree v.3) in
      with_store left (put from (xs ++ tx ∷ ys) tp.pending) absent (
        put-IsValid tp from (xs ++ tx ∷ ys) (tx ∷ left) v (
          (
            IsAscending-middle xs old tx ys n account.0,
            All-middle
                (λ t. (t.sender ≡ some from) × (validate_transaction t tp.block_gas_limit ≡ ok tt))
                xs old tx ys (sent, valid) account.1,
          ),
          λ q. omega (arith, added q, count_if-middle q xs tx ys),
          cons-HasOwnHashes tx left absent (delete_hash-HasOwnHashes old.hash tp.all_txs v.3),
          omega (arith, room, length-keep_le (λ t. not (t.hash == old.hash)) tp.all_txs),
        ))

  appended : List Tx
  appended = sort_by_nonce (mine ++ tx ∷ [])

  count_if-appended : (q : Tx → Bool) → count_if q appended ≡ count_if q (tx ∷ mine)
  unfolding appended
  count_if-appended q = ground (
    arith,
    count_if-sort_by_nonce q (mine ++ tx ∷ []),
    count_if-append q mine (tx ∷ []),
    count_if-cons q tx [],
    count_if-cons q tx mine,
    count_if-nil q,
  )

  -- The new transaction has a nonce of its own.
  appended-IsValid :
      All (λ u. u.nonce ≢ tx.nonce) mine
      → IsValid tp
      → Acceptable
      → IsValid
          (record tp { pending = put from appended tp.pending; all_txs = store tx tp.all_txs })
  unfolding appended
  appended-IsValid n v (sent, valid, fresh, room) =
      let account = txs_of-IsAccount tp from v in
      let added = cons-Agree tx tp.all_txs mine others (account-Agree tp from v) in
      with_store tp.all_txs (put from appended tp.pending) fresh (
        put-IsValid tp from appended (tx ∷ tp.all_txs) v (
          (
            sort_by_nonce-append mine tx account.0 n,
            sort_by_nonce-All
                (λ t. (t.sender ≡ some from) × (validate_transaction t tp.block_gas_limit ≡ ok tt))
                (mine ++ tx ∷ []) (All-append _ mine tx account.1 (sent, valid)),
          ),
          λ q. omega (arith, added q, count_if-appended q),
          cons-HasOwnHashes tx tp.all_txs fresh v.3,
          omega (arith, room),
        ))

  pub finish-IsValid :
      (r : Replacement)
      → Outcome tx mine r
      → IsValid tp
      → Acceptable
      → IsValid (finish from tx tp r).0
  unfolding finish appended
  finish-IsValid no_slot o v a =
      subst (λ (m : Pending). IsValid (record tp { pending = m; all_txs = store tx tp.all_txs }))
        (sym (sort_account_transactions-put from (mine ++ tx ∷ []) tp.pending))
        (appended-IsValid o v a)
  finish-IsValid refused o v a = v
  finish-IsValid (replaced old txs) (xs, ys, m, f, n, b) v a =
      subst (λ (l : List Tx). IsValid (finish from tx tp (replaced old l)).0) (sym f)
        (replaced-IsValid xs old ys m n v a)

  -- The account of the sender after the outcome.
  pub finish-Effect :
      (r : Replacement)
      → Outcome tx mine r
      → IsValid tp
      → Acceptable
      → Effect tx tp (finish from tx tp r)
  unfolding finish appended
  finish-Effect refused o v a = (refl, refl)
  finish-Effect no_slot o v a = (
    from,
    a.0,
    (
      λ b n.
          rw
            (
              sort_account_transactions-put from (mine ++ tx ∷ []) tp.pending,
              txs_of-put b from appended tp.pending,
              n,
            )
            refl,
      λ q.
          rw
            (
              sort_account_transactions-put from (mine ++ tx ∷ []) tp.pending,
              txs_of-put from from appended tp.pending,
              ==_refl from,
              keep-other_nonce tx.nonce mine o,
            )
            (count_if-appended q),
      All-map (λ u. u.nonce ≢ tx.nonce) _ mine (λ u n e. absurd (n e)) o,
    ),
  )
  finish-Effect (replaced old txs) (xs, ys, m, f, n, b) v a =
      let account : IsAscending (xs ++ old ∷ ys) =
        subst IsAscending m (txs_of-IsAccount tp from v).0 in
      let kept : keep (other_nonce tx.nonce) mine ≡ xs ++ ys =
        ap (keep (other_nonce tx.nonce)) m
        ∙ subst (λ k. keep (other_nonce k) (xs ++ old ∷ ys) ≡ xs ++ ys) n
            (keep-middle xs old ys account) in
      (
        from,
        a.0,
        (
          λ c n. rw (txs_of-put c from txs tp.pending, n) refl,
          λ q.
              rw (txs_of-put from from txs tp.pending, ==_refl from, f, kept)
                (count_if-middle q xs tx ys),
          subst (All (λ t. t.nonce ≡ tx.nonce → outbids tx.gas_price t.gas_price ≡ true)) (sym m)
              (bids tx xs old ys n b account),
        ),
      )
