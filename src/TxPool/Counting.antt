-- ===== src/TxPool/Counting.antt =====
-- txpool/txpool.go: allTxs and the accounts hold the same transactions, counted.
use mainnet.TxPool.{Tx, has_hash, exists, delete_hash, store}
use mainnet.TxPool.Removal.{delete_failing}
use mainnet.Common.{
  ℕ, suc, ◌+◌, ◌≤◌, ◌≡◌, refl, ap, inl, inr, Bool, false, not, ◌&&◌, List, [], ◌∷◌, arith,
  if◌then◌else◌, ==_iff, ==_refl, Bool-cases, keep, count_if, count_if-keep,
}

-- The first list holds what the other two hold together.
abbrev pub Agree : List Tx → List Tx → List Tx → Type 0
Agree all xs ys = (q : Tx → Bool) → count_if q all ≡ count_if q xs + count_if q ys

abbrev pub HasOwnHashes : List Tx → Type 0
HasOwnHashes all = (h : ℕ) → count_if (has_hash h) all ≤ 1

pub count_if-cons :
    (q : Tx → Bool) (t : Tx) (ts : List Tx)
    → count_if q (t ∷ ts) ≡ (if q t then suc (count_if q ts) else count_if q ts)
unfolding count_if
count_if-cons q t ts = refl

pub count_if-both : (q p : Tx → Bool) (ts : List Tx) → count_if (λ t. q t && p t) ts ≤ count_if p ts
unfolding count_if
count_if-both q p [] = omega arith
count_if-both q p (t ∷ ts) = ground (arith, count_if-both q p ts)

-- Deleting a hash takes out what has it.
pub count_if-delete_hash :
    (q : Tx → Bool) (h : ℕ) (all : List Tx)
    → count_if q (delete_hash h all) + count_if (λ t. q t && has_hash h t) all ≡ count_if q all
unfolding count_if keep
count_if-delete_hash q h [] = omega arith
count_if-delete_hash q h (t ∷ all) = ground (arith, count_if-delete_hash q h all)

pub delete_hash-HasOwnHashes :
    (h : ℕ) (all : List Tx) → HasOwnHashes all → HasOwnHashes (delete_hash h all)
delete_hash-HasOwnHashes h all own g =
    omega (arith, own g, count_if-keep (has_hash g) (λ t. not (has_hash h t)) all)

-- Where hashes are unique, deleting the hash of a transaction takes out that one only.
pub delete_hash-Agree :
    (t : Tx) (all ts rest : List Tx)
    → Agree all (t ∷ ts) rest
    → HasOwnHashes all
    → Agree (delete_hash t.hash all) ts rest
delete_hash-Agree t all ts rest agree own q =
    let here = has_hash t.hash in
    ground (
      arith,
      count_if-delete_hash q t.hash all,
      agree q,
      agree here,
      agree (λ u. q u && here u),
      own t.hash,
      count_if-both q here ts,
      count_if-both q here rest,
      count_if-cons q t ts,
      count_if-cons here t ts,
      count_if-cons (λ u. q u && here u) t ts,
      ==_refl t.hash,
    )

-- A hash that is nowhere has nothing to delete.
pub delete_hash-absent :
    (h : ℕ) (all : List Tx) → count_if (has_hash h) all ≡ 0 → delete_hash h all ≡ all
unfolding count_if keep
delete_hash-absent h [] e = refl
delete_hash-absent h (t ∷ all) e = ground (arith, delete_hash-absent h all)

pub exists-absent : (h : ℕ) (all : List Tx) → exists h all ≡ false → count_if (has_hash h) all ≡ 0
exists-absent h all e = ground arith

pub store-new :
    (tx : Tx) (all : List Tx) → count_if (has_hash tx.hash) all ≡ 0 → store tx all ≡ tx ∷ all
store-new tx all e = ap (λ (l : List Tx). tx ∷ l) (delete_hash-absent tx.hash all e)

pub cons-HasOwnHashes :
    (tx : Tx) (all : List Tx)
    → count_if (has_hash tx.hash) all ≡ 0
    → HasOwnHashes all
    → HasOwnHashes (tx ∷ all)
cons-HasOwnHashes tx all e own h =
    ground (arith, own h, count_if-cons (has_hash h) tx all, ==_iff tx.hash h)

pub cons-Agree :
    (tx : Tx) (all ts rest : List Tx) → Agree all ts rest → Agree (tx ∷ all) (tx ∷ ts) rest
cons-Agree tx all ts rest agree q =
    ground (arith, agree q, count_if-cons q tx all, count_if-cons q tx ts)

-- One transaction moves to the rest.
swap-Agree : (t : Tx) (all ts rest : List Tx) → Agree all (t ∷ ts) rest → Agree all ts (t ∷ rest)
swap-Agree t all ts rest agree q =
    ground (arith, agree q, count_if-cons q t ts, count_if-cons q t rest)

swap_back-Agree :
    (t : Tx) (all ts rest : List Tx) → Agree all ts (t ∷ rest) → Agree all (t ∷ ts) rest
swap_back-Agree t all ts rest agree q =
    ground (arith, agree q, count_if-cons q t ts, count_if-cons q t rest)

-- Deleting what fails a test leaves of an account what passes it, and the rest alone.
pub delete_failing-Agree :
    (p : Tx → Bool) (ts all rest : List Tx)
    → Agree all ts rest
    → HasOwnHashes all
    → Agree (delete_failing p ts all) (keep p ts) rest × HasOwnHashes (delete_failing p ts all)
unfolding delete_failing keep
delete_failing-Agree p [] all rest agree own = (agree, own)
delete_failing-Agree p (t ∷ ts) all rest agree own = elim (Bool-cases (p t)) [
  | inl e ↦ rw e (
      let done = delete_failing-Agree p ts all (t ∷ rest) (swap-Agree t all ts rest agree) own in
      (swap_back-Agree t (delete_failing p ts all) (keep p ts) rest done.0, done.1))
  | inr e ↦ rw e (
      delete_failing-Agree p ts (delete_hash t.hash all) rest
        (delete_hash-Agree t all ts rest agree own) (delete_hash-HasOwnHashes t.hash all own))
]
