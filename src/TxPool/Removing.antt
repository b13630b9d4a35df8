-- ===== src/TxPool/Removing.antt =====
-- txpool/txpool.go: what UpdateNonce, RemoveStale and RemoveTransactions leave in the pool.
use mainnet.TxPool.{Tx, Pending, TxPool, txs_of, erase, prune_rejected_txs, tx_expiration}
use mainnet.TxPool.Removal.{
  delete_failing, is_fresh, unless_empty, remove_stale_from, remove_stale, is_current, update_nonce,
  get_nonce,
}
use mainnet.TxPool.Counting.{Agree, HasOwnHashes, delete_failing-Agree}
use mainnet.TxPool.Accounts.{flat, IsMap, Accounts, txs_of-put_or_erase, txs_of-absent}
use mainnet.TxPool.Nonces.{keep-IsAscending}
use mainnet.TxPool.Invariant.{
  IsAccount, IsValid, txs_of-IsAccount, account-Agree, put_or_erase-IsValid,
  length-delete_failing_le,
}
use mainnet.Common.{
  ℕ, ◌+◌, ◌≤◌, ◌≡◌, refl, sym, ap, ◌∙◌, subst, ◌≢◌, inl, inr, Bool, true, List, [], ◌∷◌, ◌++◌,
  arith, ltb, leb, ◌==◌, if◌then◌else◌, ==_iff, ==_refl, Bool-cases, length, keep, count_if, All,
  count_if-append, count_if-nil, All-keep,
}

keep-IsAccount :
    (p : Tx → Bool) (limit a : ℕ) (txs : List Tx)
    → IsAccount limit a txs
    → IsAccount limit a (keep p txs)
keep-IsAccount p limit a txs h = (keep-IsAscending p txs h.0, All-keep _ _ p txs (λ t e x. x) h.1)

-- UpdateNonce keeps the pool valid, makes the nonce the one that GetNonce tells, takes the lower nonces
-- out of the account and changes no other account.
pub update_nonce-IsValid :
    (addr nonce : ℕ) (tp : TxPool)
    → IsValid tp
    → IsValid (update_nonce addr nonce tp)
      × (get_nonce addr (update_nonce addr nonce tp) ≡ nonce)
      × ((b : ℕ)
          → txs_of b (update_nonce addr nonce tp).pending ≡ (
              if addr == b
              then keep (is_current nonce) (txs_of addr tp.pending)
              else txs_of b tp.pending))
unfolding update_nonce get_nonce
update_nonce-IsValid addr nonce tp v =
    let txs = txs_of addr tp.pending in
    let p = is_current nonce in
    let left =
      delete_failing-Agree p txs tp.all_txs (flat (erase addr tp.pending)) (account-Agree tp addr v)
        v.3 in
    (
      put_or_erase-IsValid tp addr (keep p txs) (delete_failing p txs tp.all_txs) v (
        keep-IsAccount p tp.block_gas_limit addr txs (txs_of-IsAccount tp addr v),
        left.0,
        left.1,
        omega (arith, v.4, length-delete_failing_le p txs tp.all_txs),
      ),
      rw (==_refl addr) refl,
      λ b. txs_of-put_or_erase b addr (keep p txs) tp.pending v.0,
    )

count_if-unless_empty :
    (q : Tx → Bool) (a : ℕ) (txs : List Tx) (m : Pending)
    → count_if q (flat (unless_empty a txs m)) ≡ count_if q txs + count_if q (flat m)
unfolding flat
count_if-unless_empty q a [] m = omega (arith, count_if-nil q)
count_if-unless_empty q a (t ∷ txs) m = ground (arith, count_if-append q (t ∷ txs) (flat m))

module _ (now : ℕ) where
  -- The accounts and allTxs agree after the loop, beside what the loop does not read.
  remove_stale_from-Agree :
      (m : Pending) (all other : List Tx)
      → Agree all (flat m) other
      → HasOwnHashes all
      → Agree (remove_stale_from now m all).1 (flat (remove_stale_from now m all).0) other
        × HasOwnHashes (remove_stale_from now m all).1
        × (length (remove_stale_from now m all).1 ≤ length all)
  unfolding remove_stale_from flat
  remove_stale_from-Agree [] all other agree own = (agree, own, omega arith)
  remove_stale_from-Agree ((a, txs) ∷ m) all other agree own =
      let p = is_fresh now in
      let here =
        delete_failing-Agree p txs all (flat m ++ other)
          (λ q.
            omega
              (arith, agree q, count_if-append q txs (flat m), count_if-append q (flat m) other))
          own in
      let left = delete_failing p txs all in
      let rest =
        remove_stale_from-Agree m left (keep p txs ++ other)
          (λ q. omega (
            arith,
            here.0 q,
            count_if-append q (flat m) other,
            count_if-append q (keep p txs) other,
          ))
          here.1 in
      (
        λ q. omega (
          arith,
          rest.0 q,
          count_if-append q (keep p txs) other,
          count_if-unless_empty q a (keep p txs) (remove_stale_from now m left).0,
        ),
        rest.1,
        omega (arith, rest.2, length-delete_failing_le p txs all),
      )

  remove_stale_from-Accounts :
      (P : ℕ → List Tx → Type 0)
      → ((a : ℕ) (txs : List Tx) → P a txs → P a (keep (is_fresh now) txs))
      → (m : Pending) (all : List Tx) → Accounts P m
      → Accounts P (remove_stale_from now m all).0
  unfolding remove_stale_from
  remove_stale_from-Accounts P f [] all h = tt
  remove_stale_from-Accounts P f ((a, txs) ∷ m) all h =
      let kept = keep (is_fresh now) txs in
      let rest = remove_stale_from-Accounts P f m (delete_failing (is_fresh now) txs all) h.1 in
      elim (Bool-cases (length kept == 0)) [ inl e ↦ rw e rest | inr e ↦ rw e (f a txs h.0, rest) ]

  remove_stale_from-IsMap :
      (m : Pending) (all : List Tx) → IsMap m → IsMap (remove_stale_from now m all).0
  unfolding remove_stale_from IsMap
  remove_stale_from-IsMap [] all h = tt
  remove_stale_from-IsMap ((a, txs) ∷ m) all h =
      let left = delete_failing (is_fresh now) txs all in
      elim (Bool-cases (length (keep (is_fresh now) txs) == 0)) [
        | inl e ↦ rw e (remove_stale_from-IsMap m left h.1)
        | inr e ↦ rw e (
          remove_stale_from-Accounts (λ b l. b ≢ a) (λ b l n. n) m left h.0,
          remove_stale_from-IsMap m left h.1,
        )
      ]

  keep-none : (txs : List Tx) → (length txs == 0) ≡ true → txs ≡ []
  keep-none [] e = refl
  keep-none (t ∷ txs) e = absurd (ground arith)

  -- Every account keeps what is fresh.
  txs_of-remove_stale_from :
      (b : ℕ) (m : Pending) (all : List Tx)
      → IsMap m
      → txs_of b (remove_stale_from now m all).0 ≡ keep (is_fresh now) (txs_of b m)
  unfolding remove_stale_from txs_of IsMap keep
  txs_of-remove_stale_from b [] all h = refl
  txs_of-remove_stale_from b ((a, txs) ∷ m) all h =
      let left = delete_failing (is_fresh now) txs all in
      let rest = txs_of-remove_stale_from b m left h.1 in
      elim (Bool-cases (length (keep (is_fresh now) txs) == 0)) [
        | inr e ↦ elim (Bool-cases (a == b)) [ inl f ↦ rw (e, f) refl | inr f ↦ rw (e, f) rest ]
        | inl e ↦ elim (Bool-cases (a == b)) [
          | inl f ↦
              rw (e, f)
                (rest
                  ∙ ap (keep (is_fresh now))
                      (txs_of-absent b m (subst (λ c. All (λ g. g.0 ≢ c) m) ((==_iff a b).0 f) h.0))
                  ∙ sym (keep-none (keep (is_fresh now) txs) e))
          | inr f ↦ rw (e, f) rest
        ]
      ]

  -- RemoveStale keeps the pool valid and leaves in every account the transactions that have not expired,
  -- in their order.
  pub remove_stale-IsValid :
      (tp : TxPool)
      → IsValid tp
      → IsValid (remove_stale now tp)
        × ((b : ℕ)
            → txs_of b (remove_stale now tp).pending ≡ keep (is_fresh now) (txs_of b tp.pending))
  unfolding remove_stale prune_rejected_txs
  remove_stale-IsValid tp v =
      let done =
        remove_stale_from-Agree tp.pending tp.all_txs [] (λ q. omega (arith, v.2 q, count_if-nil q))
          v.3 in
      let valid : IsValid (record tp {
        pending = (remove_stale_from now tp.pending tp.all_txs).0;
        all_txs = (remove_stale_from now tp.pending tp.all_txs).1;
      }) =
        (
          remove_stale_from-IsMap tp.pending tp.all_txs v.0,
          remove_stale_from-Accounts (IsAccount tp.block_gas_limit)
              (keep-IsAccount (is_fresh now) tp.block_gas_limit) tp.pending tp.all_txs v.1,
          (λ q. omega (arith, done.0 q, count_if-nil q)),
          done.1,
          omega (arith, done.2, v.4),
        ) in
      let fresh = λ (b : ℕ). txs_of-remove_stale_from b tp.pending tp.all_txs v.0 in
      elim (Bool-cases (ltb (tp.last_cleanup + tx_expiration) now)) [
        | inr e ↦ rw e (valid, fresh)
        | inl e ↦ elim (Bool-cases (leb 10000 (length tp.rejected_txs))) [
          | inl f ↦ rw (e, f) (valid, fresh)
          | inr f ↦ rw (e, f) (valid, fresh)
        ]
      ]
