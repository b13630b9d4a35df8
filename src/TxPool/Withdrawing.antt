-- ===== src/TxPool/Withdrawing.antt =====
-- txpool/txpool.go: RemoveTransactions, which takes the transactions of a block out of the pool.
use mainnet.TxPool.{
  Tx, Pending, TxPool, txs_of, erase, has_hash, exists, delete_hash, validate_transaction,
}
use mainnet.TxPool.Removal.{remove_hash, forget, remove_transaction, remove_transactions}
use mainnet.TxPool.Counting.{
  Agree, delete_hash-Agree, delete_hash-HasOwnHashes, delete_hash-absent, exists-absent,
}
use mainnet.TxPool.Accounts.{flat, Accounts, erase-Accounts, erase-absent}
use mainnet.TxPool.Nonces.{remove_hash-IsAscending, remove_hash-All}
use mainnet.TxPool.Invariant.{
  IsAccount, IsValid, txs_of-IsAccount, account-Agree, put_or_erase-IsValid, length-keep_le,
}
use mainnet.Common.{
  ℕ, suc, ◌<◌, ◌≡◌, refl, sym, ap, ◌∙◌, subst, ◌≢◌, inl, inr, Bool, true, false, not, ◌&&◌, ◌||◌,
  Option, none, some, List, [], ◌∷◌, arith, ◌==◌, ==_iff, ==_refl, Bool-cases, keep, count_if, All,
  count_if-append, count_if-nil, All-keep, All-map, ok,
}

-- A hash that the pool has names the transaction with its sender.
abbrev pub IsKnown : List Tx → Tx → Type 0
IsKnown all tx = All (λ t. t.hash ≡ tx.hash → t.sender ≡ tx.sender) all

same_sender : Option ℕ → Option ℕ → Bool
same_sender none none = true
same_sender (some a) (some b) = a == b
same_sender _ _ = false

same_sender_refl : (o : Option ℕ) → same_sender o o ≡ true
unfolding same_sender
same_sender_refl none = refl
same_sender_refl (some a) = ==_refl a

same_sender_other : (o : Option ℕ) (a : ℕ) → o ≢ some a → same_sender o (some a) ≡ false
unfolding same_sender
same_sender_other none a n = refl
same_sender_other (some b) a n = elim (Bool-cases (b == a)) [
  | inl e ↦ absurd (n (ap some ((==_iff b a).0 e)))
  | inr e ↦ e
]

-- Has the hash, and comes from someone else.
strays : Tx → Tx → Bool
strays tx t = has_hash tx.hash t && not (same_sender tx.sender t.sender)

module _ (tx : Tx) where
  none_stray : (all : List Tx) → IsKnown all tx → count_if (strays tx) all ≡ 0
  unfolding strays count_if
  none_stray [] k = refl
  none_stray (t ∷ all) k = elim (Bool-cases (t.hash == tx.hash)) [
    | inr e ↦ rw e (none_stray all k.1)
    | inl e ↦
        rw (e, k.0 ((==_iff t.hash tx.hash).0 e), same_sender_refl tx.sender) (none_stray all k.1)
  ]

  -- In the account of another sender everything of the hash strays.
  strays-account :
      (P : Tx → Type 0) (a : ℕ) (txs : List Tx)
      → tx.sender ≢ some a
      → All (λ t. (t.sender ≡ some a) × P t) txs
      → count_if (strays tx) txs ≡ count_if (has_hash tx.hash) txs
  unfolding strays count_if
  strays-account P a [] n h = refl
  strays-account P a (t ∷ txs) n h = elim (Bool-cases (t.hash == tx.hash)) [
    | inr e ↦ rw e (strays-account P a txs n h.1)
    | inl e ↦ rw (e, h.0.0, same_sender_other tx.sender a n) (ap suc (strays-account P a txs n h.1))
  ]

  strays-flat :
      (limit : ℕ) (m : Pending)
      → All (λ e. tx.sender ≢ some e.0) m
      → Accounts (IsAccount limit) m
      → count_if (strays tx) (flat m) ≡ count_if (has_hash tx.hash) (flat m)
  unfolding flat
  strays-flat limit [] n h =
      omega (arith, count_if-nil (strays tx), count_if-nil (has_hash tx.hash))
  strays-flat limit ((a, txs) ∷ m) n h = omega (
    arith,
    count_if-append (strays tx) txs (flat m),
    count_if-append (has_hash tx.hash) txs (flat m),
    strays-account (λ t. validate_transaction t limit ≡ ok tt) a txs n.0 h.0.1,
    strays-flat limit m n.1 h.1,
  )

-- The loop takes out one transaction of the hash where there is one.
remove_hash-takes :
    (h : ℕ) (ts : List Tx)
    → 0 < count_if (has_hash h) ts
    → (t : Tx) × (t.hash ≡ h)
      × ((q : Tx → Bool) → count_if q ts ≡ count_if q (t ∷ remove_hash h ts))
unfolding count_if remove_hash
remove_hash-takes h [] p = elim p [ ]
remove_hash-takes h (t ∷ ts) p = elim (Bool-cases (t.hash == h)) [
  | inl e ↦ rw e (t, (==_iff t.hash h).0 e, λ q. refl)
  | inr e ↦
      let (u, m, c) = remove_hash-takes h ts (ground arith) in rw e (u, m, λ q. ground (arith, c q))
]

module _ (tx : Tx) (tp : TxPool) (v : IsValid tp) (k : IsKnown tp.all_txs tx) where
  -- The hash is in the account of the sender and nowhere else.
  known-account :
      (from : ℕ)
      → tx.sender ≡ some from
      → count_if (has_hash tx.hash) (flat (erase from tp.pending)) ≡ 0
  known-account from s =
      let others = erase from tp.pending in
      omega (
        arith,
        none_stray tx tp.all_txs k,
        account-Agree tp from v (strays tx),
        strays-flat tx tp.block_gas_limit others
            (All-map _ _ others (λ e n p. n (some-injective (sym p ∙ s)))
              (erase-absent from tp.pending v.0))
            (erase-Accounts (IsAccount tp.block_gas_limit) from tp.pending v.1),
      )
    where
      some-injective : {a b : ℕ} → ◌≡◌ {A = Option ℕ} (some a) (some b) → a ≡ b
      some-injective e = cc

  -- Without a sender there is no such transaction in the pool.
  unsent-absent : tx.sender ≡ none → count_if (has_hash tx.hash) tp.all_txs ≡ 0
  unsent-absent s = omega (
    arith,
    none_stray tx tp.all_txs k,
    v.2 (strays tx),
    v.2 (has_hash tx.hash),
    strays-flat tx tp.block_gas_limit tp.pending
        (All-map _ _ tp.pending (λ e n p. absurd (no_sender (sym s ∙ p))) v.1) v.1,
  )
    where
      no_sender : {a : ℕ} → ◌≢◌ {A = Option ℕ} none (some a)
      no_sender e = cc

  abbrev forgotten : Option ℕ → TxPool
  forgotten o = record tp {
    pending = forget o tx.hash tp.pending;
    all_txs = delete_hash tx.hash tp.all_txs;
  }

  forget-IsValid :
      (o : Option ℕ)
      → tx.sender ≡ o
      → 0 < count_if (has_hash tx.hash) tp.all_txs
      → IsValid (forgotten o)
  forget-IsValid none s p = absurd (omega (arith, unsent-absent s))
  forget-IsValid (some from) s p =
      let mine = txs_of from tp.pending in
      let others = flat (erase from tp.pending) in
      let account = txs_of-IsAccount tp from v in
      let here : 0 < count_if (has_hash tx.hash) mine =
        omega (arith, p, account-Agree tp from v (has_hash tx.hash), known-account from s) in
      let (t, e, c) = remove_hash-takes tx.hash mine here in
      let agree =
        delete_hash-Agree t tp.all_txs (remove_hash tx.hash mine) others
          (λ q. omega (arith, c q, account-Agree tp from v q)) v.3 in
      put_or_erase-IsValid tp from (remove_hash tx.hash mine) (delete_hash tx.hash tp.all_txs) v (
        (remove_hash-IsAscending tx.hash mine account.0, remove_hash-All _ tx.hash mine account.1),
        subst (λ h. Agree (delete_hash h tp.all_txs) (remove_hash tx.hash mine) others) e agree,
        delete_hash-HasOwnHashes tx.hash tp.all_txs v.3,
        omega (arith, v.4, length-keep_le (λ u. not (u.hash == tx.hash)) tp.all_txs),
      )

  remove_transaction-IsValid : IsValid (remove_transaction tx tp)
  unfolding remove_transaction
  remove_transaction-IsValid = elim (Bool-cases (exists tx.hash tp.all_txs)) [
    | inl e ↦ rw e (forget-IsValid tx.sender refl (ground arith))
    | inr e ↦ rw e v
  ]

all_txs-remove_transaction :
    (tx : Tx) (tp : TxPool) → (remove_transaction tx tp).all_txs ≡ delete_hash tx.hash tp.all_txs
unfolding remove_transaction
all_txs-remove_transaction tx tp = elim (Bool-cases (exists tx.hash tp.all_txs)) [
  | inl e ↦ rw e refl
  | inr e ↦ rw e (sym (delete_hash-absent tx.hash tp.all_txs (exists-absent tx.hash tp.all_txs e)))
]

-- Whether a list has a transaction of the hash.
abbrev pub listed : List Tx → ℕ → Bool
listed [] h = false
listed (tx ∷ txs) h = let rest = listed txs h in h == tx.hash || rest

keep-keep :
    (p q r : Tx → Bool) (ts : List Tx)
    → ((t : Tx) → r t ≡ (q t && p t))
    → keep p (keep q ts) ≡ keep r ts
unfolding keep
keep-keep p q r [] f = refl
keep-keep p q r (t ∷ ts) f = elim (Bool-cases (q t)) [
  | inl e ↦ elim (Bool-cases (p t)) [
    | inl g ↦ rw (f t, e, g) (ap (λ (l : List Tx). t ∷ l) (keep-keep p q r ts f))
    | inr g ↦ rw (f t, e, g) (keep-keep p q r ts f)
  ]
  | inr e ↦ rw (f t, e) (keep-keep p q r ts f)
]

keep-all : (ts : List Tx) → ts ≡ keep (λ t. true) ts
unfolding keep
keep-all [] = refl
keep-all (t ∷ ts) = ap (λ (l : List Tx). t ∷ l) (keep-all ts)

IsKnown-delete_hash :
    (h : ℕ) (all txs : List Tx) → All (IsKnown all) txs → All (IsKnown (delete_hash h all)) txs
IsKnown-delete_hash h all [] k = tt
IsKnown-delete_hash h all (tx ∷ txs) k =
    (All-keep _ _ (λ t. not (t.hash == h)) all (λ t e x. x) k.0, IsKnown-delete_hash h all txs k.1)

-- Where a hash that the pool has names one sender, RemoveTransactions keeps the pool valid and leaves the
-- transactions of the other hashes, each as often as before.
pub remove_transactions-IsValid :
    (txs : List Tx) (tp : TxPool)
    → IsValid tp
    → All (IsKnown tp.all_txs) txs
    → IsValid (remove_transactions txs tp)
      × ((remove_transactions txs tp).all_txs ≡ keep (λ t. not (listed txs t.hash)) tp.all_txs)
unfolding remove_transactions
remove_transactions-IsValid [] tp v k = (v, keep-all tp.all_txs)
remove_transactions-IsValid (tx ∷ txs) tp v k =
    let left = remove_transaction tx tp in
    let same_left = all_txs-remove_transaction tx tp in
    let known : All (IsKnown left.all_txs) txs =
      subst (λ (l : List Tx). All (IsKnown l) txs) (sym same_left)
        (IsKnown-delete_hash tx.hash tp.all_txs txs k.1) in
    let rest =
      remove_transactions-IsValid txs left (remove_transaction-IsValid tx tp v k.0) known in
    (
      rest.0,
      rest.1
          ∙ ap (keep (λ t. not (listed txs t.hash))) same_left
          ∙ keep-keep (λ t. not (listed txs t.hash)) (λ t. not (t.hash == tx.hash))
              (λ t. not (listed (tx ∷ txs) t.hash)) tp.all_txs
              (λ t. not-or (t.hash == tx.hash) (listed txs t.hash)),
    )
  where
    not-or : (a b : Bool) → not (a || b) ≡ (not a && not b)
    not-or true b = refl
    not-or false b = refl
