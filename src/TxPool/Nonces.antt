-- ===== src/TxPool/Nonces.antt =====
-- txpool/txpool.go: the transactions of an account in ascending order of their nonces.
use mainnet.TxPool.{Tx, insert_by_nonce, sort_by_nonce}
use mainnet.TxPool.Removal.{remove_hash}
use mainnet.Common.{
  ℕ, ◌<◌, ◌≡◌, refl, sym, ◌≢◌, inl, inr, Bool, List, [], ◌∷◌, ◌++◌, arith, leb, ◌==◌, Bool-cases,
  keep, count_if, All, All-keep, All-map, All-append,
}

unfoldable pub IsAscending : List Tx → Type 0
IsAscending [] = Unit
IsAscending (t ∷ ts) = All (λ u. t.nonce < u.nonce) ts × IsAscending ts

pub keep-IsAscending : (p : Tx → Bool) (ts : List Tx) → IsAscending ts → IsAscending (keep p ts)
unfolding keep IsAscending
keep-IsAscending p [] h = tt
keep-IsAscending p (t ∷ ts) h = elim (Bool-cases (p t)) [
  | inl e ↦ rw e (
    All-keep (λ u. t.nonce < u.nonce) (λ u. t.nonce < u.nonce) p ts (λ x e l. l) h.0,
    keep-IsAscending p ts h.1,
  )
  | inr e ↦ rw e (keep-IsAscending p ts h.1)
]

module _ {κ} (P : Tx → Type κ) where
  pub remove_hash-All : (h : ℕ) (ts : List Tx) → All P ts → All P (remove_hash h ts)
  unfolding remove_hash
  remove_hash-All h [] a = tt
  remove_hash-All h (t ∷ ts) a = elim (Bool-cases (t.hash == h)) [
    | inl e ↦ rw e a.1
    | inr e ↦ rw e (a.0, remove_hash-All h ts a.1)
  ]

  pub insert_by_nonce-All : (t : Tx) (ts : List Tx) → P t → All P ts → All P (insert_by_nonce t ts)
  unfolding insert_by_nonce
  insert_by_nonce-All t [] p a = (p, tt)
  insert_by_nonce-All t (u ∷ us) p a = elim (Bool-cases (leb t.nonce u.nonce)) [
    | inl e ↦ rw e (p, a)
    | inr e ↦ rw e (a.0, insert_by_nonce-All t us p a.1)
  ]

  pub sort_by_nonce-All : (ts : List Tx) → All P ts → All P (sort_by_nonce ts)
  unfolding sort_by_nonce
  sort_by_nonce-All [] a = tt
  sort_by_nonce-All (t ∷ ts) a =
      insert_by_nonce-All t (sort_by_nonce ts) a.0 (sort_by_nonce-All ts a.1)

pub remove_hash-IsAscending :
    (h : ℕ) (ts : List Tx) → IsAscending ts → IsAscending (remove_hash h ts)
unfolding remove_hash IsAscending
remove_hash-IsAscending h [] a = tt
remove_hash-IsAscending h (t ∷ ts) a = elim (Bool-cases (t.hash == h)) [
  | inl e ↦ rw e a.1
  | inr e ↦
      rw e (remove_hash-All (λ u. t.nonce < u.nonce) h ts a.0, remove_hash-IsAscending h ts a.1)
]

-- Of no two the same nonce.
abbrev HaveOwnNonces : List Tx → Type 0
HaveOwnNonces [] = Unit
HaveOwnNonces (t ∷ ts) = All (λ u. u.nonce ≢ t.nonce) ts × HaveOwnNonces ts

insert_by_nonce-IsAscending :
    (t : Tx) (ts : List Tx)
    → All (λ u. u.nonce ≢ t.nonce) ts
    → IsAscending ts
    → IsAscending (insert_by_nonce t ts)
unfolding insert_by_nonce IsAscending
insert_by_nonce-IsAscending t [] n a = (tt, tt)
insert_by_nonce-IsAscending t (u ∷ us) n a = elim (Bool-cases (leb t.nonce u.nonce)) [
  | inl e ↦
      let less : t.nonce < u.nonce = ground (arith, n.0) in
      rw e ((less, All-map _ _ us (λ v l. omega (arith, less)) a.0), a)
  | inr e ↦ rw e (
    insert_by_nonce-All (λ v. u.nonce < v.nonce) t us (ground (arith, n.0)) a.0,
    insert_by_nonce-IsAscending t us n.1 a.1,
  )
]

sort_by_nonce-IsAscending : (ts : List Tx) → HaveOwnNonces ts → IsAscending (sort_by_nonce ts)
unfolding sort_by_nonce IsAscending
sort_by_nonce-IsAscending [] n = tt
sort_by_nonce-IsAscending (t ∷ ts) n =
    insert_by_nonce-IsAscending t (sort_by_nonce ts)
      (sort_by_nonce-All (λ u. u.nonce ≢ t.nonce) ts n.0) (sort_by_nonce-IsAscending ts n.1)

append-HaveOwnNonces :
    (ts : List Tx) (tx : Tx)
    → IsAscending ts
    → All (λ u. u.nonce ≢ tx.nonce) ts
    → HaveOwnNonces (ts ++ tx ∷ [])
unfolding IsAscending
append-HaveOwnNonces [] tx a n = (tt, tt)
append-HaveOwnNonces (t ∷ ts) tx a n = (
  All-append (λ u. u.nonce ≢ t.nonce) ts tx (All-map _ _ ts (λ u l e. omega arith) a.0)
      (λ e. n.0 (sym e)),
  append-HaveOwnNonces ts tx a.1 n.1,
)

-- A new nonce is sorted into its place.
pub sort_by_nonce-append :
    (ts : List Tx) (tx : Tx)
    → IsAscending ts
    → All (λ u. u.nonce ≢ tx.nonce) ts
    → IsAscending (sort_by_nonce (ts ++ tx ∷ []))
sort_by_nonce-append ts tx a n =
    sort_by_nonce-IsAscending (ts ++ tx ∷ []) (append-HaveOwnNonces ts tx a n)

count_if-insert_by_nonce :
    (q : Tx → Bool) (t : Tx) (ts : List Tx)
    → count_if q (insert_by_nonce t ts) ≡ count_if q (t ∷ ts)
unfolding insert_by_nonce count_if
count_if-insert_by_nonce q t [] = refl
count_if-insert_by_nonce q t (u ∷ us) = ground (arith, count_if-insert_by_nonce q t us)

pub count_if-sort_by_nonce :
    (q : Tx → Bool) (ts : List Tx) → count_if q (sort_by_nonce ts) ≡ count_if q ts
unfolding sort_by_nonce count_if
count_if-sort_by_nonce q [] = refl
count_if-sort_by_nonce q (t ∷ ts) =
    ground (arith, count_if-insert_by_nonce q t (sort_by_nonce ts), count_if-sort_by_nonce q ts)
