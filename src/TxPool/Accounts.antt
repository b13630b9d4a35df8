-- ===== src/TxPool/Accounts.antt =====
-- txpool/txpool.go: the map of the pool from senders to their transactions.
use mainnet.TxPool.{Tx, Pending, txs_of, put, erase, put_or_erase}
use mainnet.TxPool.Counting.{Agree}
use mainnet.Common.{
  ℕ, ◌≡◌, refl, sym, subst, ◌≢◌, inl, inr, false, List, [], ◌∷◌, ◌++◌, arith, ◌==◌, if◌then◌else◌,
  ==_iff, ==_refl, Bool-cases, All, count_if-append, count_if-nil,
}

-- Every transaction of every account.
unfoldable pub flat : Pending → List Tx
flat [] = []
flat ((a, txs) ∷ rest) = txs ++ flat rest

pub flat-Agree : (a : ℕ) (m : Pending) → Agree (flat m) (txs_of a m) (flat (erase a m))
unfolding flat txs_of erase
flat-Agree a [] q = omega (arith, count_if-nil q)
flat-Agree a ((b, txs) ∷ m) q = elim (Bool-cases (b == a)) [
  | inl e ↦ rw e (count_if-append q txs (flat m))
  | inr e ↦ rw e (
      omega (
        arith,
        count_if-append q txs (flat m),
        count_if-append q txs (flat (erase a m)),
        flat-Agree a m q,
      ))
]

pub flat-put-Agree :
    (a : ℕ) (txs : List Tx) (m : Pending) → Agree (flat (put a txs m)) txs (flat (erase a m))
unfolding flat put erase
flat-put-Agree a txs [] q = count_if-append q txs []
flat-put-Agree a txs ((b, old) ∷ m) q = elim (Bool-cases (b == a)) [
  | inl e ↦ rw e (count_if-append q txs (flat m))
  | inr e ↦ rw e (
      omega (
        arith,
        count_if-append q old (flat (put a txs m)),
        count_if-append q old (flat (erase a m)),
        flat-put-Agree a txs m q,
      ))
]

put_or_erase-put :
    (a : ℕ) (t : Tx) (txs : List Tx) (m : Pending) → put_or_erase a (t ∷ txs) m ≡ put a (t ∷ txs) m
unfolding put_or_erase
put_or_erase-put a t txs m = ground arith

pub flat-put_or_erase-Agree :
    (a : ℕ) (txs : List Tx) (m : Pending)
    → Agree (flat (put_or_erase a txs m)) txs (flat (erase a m))
unfolding put_or_erase
flat-put_or_erase-Agree a [] m q = omega (arith, count_if-nil q)
flat-put_or_erase-Agree a (t ∷ txs) m q =
    rw (put_or_erase-put a t txs m) (flat-put-Agree a (t ∷ txs) m q)

-- A map has one entry for an address.
unfoldable pub IsMap : Pending → Type 0
IsMap [] = Unit
IsMap (e ∷ m) = All (λ f. f.0 ≢ e.0) m × IsMap m

-- What holds of every entry, and of an account without transactions.
module _ (P : ℕ → List Tx → Type 0) where
  abbrev pub Accounts : Pending → Type 0
  Accounts m = All (λ e. P e.0 e.1) m

  pub txs_of-Accounts : ((a : ℕ) → P a []) → (a : ℕ) (m : Pending) → Accounts m → P a (txs_of a m)
  unfolding txs_of
  txs_of-Accounts empty a [] h = empty a
  txs_of-Accounts empty a ((b, txs) ∷ m) h = elim (Bool-cases (b == a)) [
    | inl e ↦ rw e (subst (λ c. P c txs) ((==_iff b a).0 e) h.0)
    | inr e ↦ rw e (txs_of-Accounts empty a m h.1)
  ]

  pub put-Accounts :
      (a : ℕ) (txs : List Tx) (m : Pending) → P a txs → Accounts m → Accounts (put a txs m)
  unfolding put
  put-Accounts a txs [] p h = (p, tt)
  put-Accounts a txs ((b, old) ∷ m) p h = elim (Bool-cases (b == a)) [
    | inl e ↦ rw e (subst (λ c. P c txs) (sym ((==_iff b a).0 e)) p, h.1)
    | inr e ↦ rw e (h.0, put-Accounts a txs m p h.1)
  ]

  pub erase-Accounts : (a : ℕ) (m : Pending) → Accounts m → Accounts (erase a m)
  unfolding erase
  erase-Accounts a [] h = h
  erase-Accounts a ((b, old) ∷ m) h = elim (Bool-cases (b == a)) [
    | inl e ↦ rw e h.1
    | inr e ↦ rw e (h.0, erase-Accounts a m h.1)
  ]

  pub put_or_erase-Accounts :
      (a : ℕ) (txs : List Tx) (m : Pending) → P a txs → Accounts m → Accounts (put_or_erase a txs m)
  unfolding put_or_erase
  put_or_erase-Accounts a [] m p h = erase-Accounts a m h
  put_or_erase-Accounts a (t ∷ txs) m p h =
      rw (put_or_erase-put a t txs m) (put-Accounts a (t ∷ txs) m p h)

-- Keys are not touched by put, and only taken out by erase.
put-keys :
    (b a : ℕ) (txs : List Tx) (m : Pending)
    → a ≢ b
    → All (λ f. f.0 ≢ b) m
    → All (λ f. f.0 ≢ b) (put a txs m)
put-keys b a txs m n h = put-Accounts (λ c l. c ≢ b) a txs m n h

erase-keys : (b a : ℕ) (m : Pending) → All (λ f. f.0 ≢ b) m → All (λ f. f.0 ≢ b) (erase a m)
erase-keys b a m h = erase-Accounts (λ c l. c ≢ b) a m h

pub put-IsMap : (a : ℕ) (txs : List Tx) (m : Pending) → IsMap m → IsMap (put a txs m)
unfolding put IsMap
put-IsMap a txs [] h = (tt, tt)
put-IsMap a txs ((b, old) ∷ m) h = elim (Bool-cases (b == a)) [
  | inl e ↦ rw e h
  | inr e ↦ rw e (put-keys b a txs m (λ s. ground (arith, ==_refl a)) h.0, put-IsMap a txs m h.1)
]

pub erase-IsMap : (a : ℕ) (m : Pending) → IsMap m → IsMap (erase a m)
unfolding erase IsMap
erase-IsMap a [] h = h
erase-IsMap a ((b, old) ∷ m) h = elim (Bool-cases (b == a)) [
  | inl e ↦ rw e h.1
  | inr e ↦ rw e (erase-keys b a m h.0, erase-IsMap a m h.1)
]

pub put_or_erase-IsMap :
    (a : ℕ) (txs : List Tx) (m : Pending) → IsMap m → IsMap (put_or_erase a txs m)
unfolding put_or_erase
put_or_erase-IsMap a [] m h = erase-IsMap a m h
put_or_erase-IsMap a (t ∷ txs) m h = rw (put_or_erase-put a t txs m) (put-IsMap a (t ∷ txs) m h)

pub erase-absent : (a : ℕ) (m : Pending) → IsMap m → All (λ f. f.0 ≢ a) (erase a m)
unfolding erase IsMap
erase-absent a [] h = tt
erase-absent a ((b, old) ∷ m) h = elim (Bool-cases (b == a)) [
  | inl e ↦ rw e (subst (λ c. All (λ f. f.0 ≢ c) m) ((==_iff b a).0 e) h.0)
  | inr e ↦ rw e ((λ s. ground (arith, ==_refl a)), erase-absent a m h.1)
]

pub txs_of-absent : (a : ℕ) (m : Pending) → All (λ f. f.0 ≢ a) m → txs_of a m ≡ []
unfolding txs_of
txs_of-absent a [] h = refl
txs_of-absent a ((b, old) ∷ m) h = elim (Bool-cases (b == a)) [
  | inl e ↦ absurd (h.0 ((==_iff b a).0 e))
  | inr e ↦ rw e (txs_of-absent a m h.1)
]

pub txs_of-put :
    (b a : ℕ) (txs : List Tx) (m : Pending)
    → txs_of b (put a txs m) ≡ (if a == b then txs else txs_of b m)
unfolding txs_of put
txs_of-put b a txs [] = refl
txs_of-put b a txs ((c, old) ∷ m) = ground (arith, txs_of-put b a txs m)

txs_of-erase-other : (b a : ℕ) (m : Pending) → (a == b) ≡ false → txs_of b (erase a m) ≡ txs_of b m
unfolding txs_of erase
txs_of-erase-other b a [] n = refl
txs_of-erase-other b a ((c, old) ∷ m) n = ground (arith, txs_of-erase-other b a m)

pub txs_of-put_or_erase :
    (b a : ℕ) (txs : List Tx) (m : Pending)
    → IsMap m
    → txs_of b (put_or_erase a txs m) ≡ (if a == b then txs else txs_of b m)
unfolding put_or_erase
txs_of-put_or_erase b a [] m h = elim (Bool-cases (a == b)) [
  | inl e ↦ rw e (
      txs_of-absent b (erase a m)
        (subst (λ c. All (λ f. f.0 ≢ c) (erase a m)) ((==_iff a b).0 e) (erase-absent a m h)))
  | inr e ↦ rw e (txs_of-erase-other b a m e)
]
txs_of-put_or_erase b a (t ∷ txs) m h = rw (put_or_erase-put a t txs m) (txs_of-put b a (t ∷ txs) m)
