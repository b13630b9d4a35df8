-- ===== src/TxPool/Slots.antt =====
-- txpool/txpool.go: the loop of AddTransaction that looks for a transaction of the same nonce.
use mainnet.TxPool.{
  Tx, Pending, Replacement, no_slot, refused, replaced, behind, replace, outbids, txs_of, put,
  sort_account_transactions, sort_by_nonce, insert_by_nonce,
}
use mainnet.TxPool.Nonces.{IsAscending}
use mainnet.TxPool.Accounts.{txs_of-put}
use mainnet.Common.{
  ℕ, ◌<◌, ◌≡◌, refl, ap, subst, ◌≢◌, inl, inr, Bool, true, false, not, List, [], ◌∷◌, ◌++◌, arith,
  leb, ◌==◌, ==_iff, ==_refl, Bool-cases, length, keep, count_if, All, All-map,
}

-- A transaction stands between two parts, and the other in its place.
abbrev pub Outcome : Tx → List Tx → Replacement → Type 0
Outcome tx ts no_slot = All (λ u. u.nonce ≢ tx.nonce) ts
Outcome tx ts refused = Unit
Outcome tx ts (replaced old ts') =
    (xs : List Tx) × (ys : List Tx) × (ts ≡ xs ++ old ∷ ys)
    × (ts' ≡ xs ++ tx ∷ ys)
    × (old.nonce ≡ tx.nonce)
    × (outbids tx.gas_price old.gas_price ≡ true)

behind-Outcome :
    (tx t : Tx) (ts : List Tx) (r : Replacement)
    → t.nonce ≢ tx.nonce
    → Outcome tx ts r
    → Outcome tx (t ∷ ts) (behind t r)
behind-Outcome tx t ts no_slot n o = (n, o)
behind-Outcome tx t ts refused n o = tt
behind-Outcome tx t ts (replaced old ts') n (xs, ys, e, f, m, b) =
    (t ∷ xs, ys, ap (λ (l : List Tx). t ∷ l) e, ap (λ (l : List Tx). t ∷ l) f, m, b)

pub replace-Outcome : (tx : Tx) (ts : List Tx) → Outcome tx ts (replace tx ts)
unfolding replace
replace-Outcome tx [] = tt
replace-Outcome tx (t ∷ ts) = elim (Bool-cases (t.nonce == tx.nonce)) [
  | inr e ↦ rw e (
      behind-Outcome tx t ts (replace tx ts) (λ s. ground (arith, ==_iff t.nonce tx.nonce))
        (replace-Outcome tx ts))
  | inl e ↦ elim (Bool-cases (outbids tx.gas_price t.gas_price)) [
    | inl b ↦ rw (e, b) ([], ts, refl, refl, (==_iff t.nonce tx.nonce).0 e, b)
    | inr b ↦ rw (e, b) tt
  ]
]

pub count_if-middle :
    (q : Tx → Bool) (xs : List Tx) (t : Tx) (ys : List Tx)
    → count_if q (xs ++ t ∷ ys) ≡ count_if q (t ∷ xs ++ ys)
unfolding count_if
count_if-middle q [] t ys = refl
count_if-middle q (x ∷ xs) t ys = ground (arith, count_if-middle q xs t ys)

pub All-middle {κ} :
    (P : Tx → Type κ) (xs : List Tx) (old tx : Tx) (ys : List Tx)
    → P tx
    → All P (xs ++ old ∷ ys)
    → All P (xs ++ tx ∷ ys)
All-middle P [] old tx ys p h = (p, h.1)
All-middle P (x ∷ xs) old tx ys p h = (h.0, All-middle P xs old tx ys p h.1)

pub All-at_middle {κ} :
    (P : Tx → Type κ) (xs : List Tx) (t : Tx) (ys : List Tx) → All P (xs ++ t ∷ ys) → P t
All-at_middle P [] t ys h = h.0
All-at_middle P (x ∷ xs) t ys h = All-at_middle P xs t ys h.1

-- A transaction of the same nonce in its place keeps the order.
pub IsAscending-middle :
    (xs : List Tx) (old tx : Tx) (ys : List Tx)
    → old.nonce ≡ tx.nonce
    → IsAscending (xs ++ old ∷ ys)
    → IsAscending (xs ++ tx ∷ ys)
unfolding IsAscending
IsAscending-middle [] old tx ys e h = (subst (λ n. All (λ u. n < u.nonce) ys) e h.0, h.1)
IsAscending-middle (x ∷ xs) old tx ys e h = (
  All-middle (λ u. x.nonce < u.nonce) xs old tx ys
      (subst (λ n. x.nonce < n) e (All-at_middle (λ u. x.nonce < u.nonce) xs old ys h.0)) h.0,
  IsAscending-middle xs old tx ys e h.1,
)

abbrev pub other_nonce : ℕ → Tx → Bool
other_nonce n t = not (t.nonce == n)

-- Where no transaction has the nonce, leaving out those that have it leaves out none.
pub keep-other_nonce :
    (n : ℕ) (ts : List Tx) → All (λ u. u.nonce ≢ n) ts → keep (other_nonce n) ts ≡ ts
unfolding keep
keep-other_nonce n [] h = refl
keep-other_nonce n (t ∷ ts) h = elim (Bool-cases (t.nonce == n)) [
  | inl e ↦ absurd (h.0 ((==_iff t.nonce n).0 e))
  | inr e ↦ rw e (ap (λ (l : List Tx). t ∷ l) (keep-other_nonce n ts h.1))
]

-- Nonces that ascend are different: one transaction has the nonce, and the others are kept.
pub keep-middle :
    (xs : List Tx) (old : Tx) (ys : List Tx)
    → IsAscending (xs ++ old ∷ ys)
    → keep (other_nonce old.nonce) (xs ++ old ∷ ys) ≡ xs ++ ys
unfolding keep IsAscending
keep-middle [] old ys h =
    rw (==_refl old.nonce)
      (keep-other_nonce old.nonce ys (All-map _ _ ys (λ u l e. omega arith) h.0))
keep-middle (x ∷ xs) old ys h =
    let less : x.nonce < old.nonce = All-at_middle (λ u. x.nonce < u.nonce) xs old ys h.0 in
    let other : (x.nonce == old.nonce) ≡ false = ground (arith, less) in
    rw other (ap (λ (l : List Tx). x ∷ l) (keep-middle xs old ys h.1))

put-put : (a : ℕ) (xs ys : List Tx) (m : Pending) → put a xs (put a ys m) ≡ put a xs m
unfolding put
put-put a xs ys [] = rw (==_refl a) refl
put-put a xs ys ((b, l) ∷ m) = elim (Bool-cases (b == a)) [
  | inl e ↦ rw (e, e) refl
  | inr e ↦ rw (e, e) (ap (λ (r : Pending). (b, l) ∷ r) (put-put a xs ys m))
]

sort_short : (l : List Tx) → leb (length l) 1 ≡ true → sort_by_nonce l ≡ l
unfolding sort_by_nonce insert_by_nonce
sort_short [] h = refl
sort_short (t ∷ []) h = refl
sort_short (t ∷ u ∷ l) h = absurd (ground arith)

-- What was written is sorted, whether there is something to sort or not.
pub sort_account_transactions-put :
    (a : ℕ) (l : List Tx) (m : Pending)
    → sort_account_transactions a (put a l m) ≡ put a (sort_by_nonce l) m
unfolding sort_account_transactions
sort_account_transactions-put a l m =
    let back : txs_of a (put a l m) ≡ l = rw (txs_of-put a a l m, ==_refl a) refl in
    elim (Bool-cases (leb (length l) 1)) [
      | inl e ↦ rw (back, e, sort_short l e) refl
      | inr e ↦ rw (back, e) (put-put a (sort_by_nonce l) l m)
    ]
