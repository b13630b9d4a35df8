-- ===== src/Queues/Sorted.antt =====
-- container/heap by a sorted list: a queue that keeps what the documentation of the heap promises.
use mainnet.Queues.{Transaction, Every, Heap, less}
use mainnet.Queues.Every.{Every-nil, Every-map, Every-cons}
use mainnet.Common.{
  ℕ, ◌≡◌, refl, ap, ◌∙◌, subst, inl, inr, Bool, true, not, Option, none, some, List, [], ◌∷◌, arith,
  if◌then◌else◌, ==_refl, Bool-cases, count_if,
}

abbrev not_before : Transaction → Transaction → Bool
not_before t u = not (less u t)

pub IsSorted : List Transaction → Type 0
IsSorted [] = Unit
IsSorted (t ∷ ts) = Every (not_before t) ts × IsSorted ts

unfoldable pub insert : Transaction → List Transaction → List Transaction
insert t [] = t ∷ []
insert t (u ∷ us) = let rest = insert t us in if less t u then t ∷ u ∷ us else u ∷ rest

pub count_if-insert :
    (t : Transaction) (ts : List Transaction) (p : Transaction → Bool)
    → count_if p (insert t ts) ≡ count_if p (t ∷ ts)
unfolding insert count_if
count_if-insert t [] p = refl
count_if-insert t (u ∷ us) p = elim (Bool-cases (less t u)) [
  | inl e ↦ rw e refl
  | inr e ↦ rw e (ground (arith, count_if-insert t us p))
]

Every-insert :
    (p : Transaction → Bool) (t : Transaction) (ts : List Transaction)
    → p t ≡ true
    → Every p ts
    → Every p (insert t ts)
Every-insert p t ts e h = count_if-insert t ts (λ u. not (p u)) ∙ Every-cons p t ts e h

-- What does not come before the later of two does not come before the earlier one.
not_before_trans :
    (t u v : Transaction) → less t u ≡ true → not_before u v ≡ true → not_before t v ≡ true
not_before_trans t u v e h = ground arith

not_before_lem : (t u : Transaction) → less t u ≡ true → not_before t u ≡ true
not_before_lem t u e = ground arith

pub insert-IsSorted :
    (t : Transaction) (ts : List Transaction) → IsSorted ts → IsSorted (insert t ts)
unfolding insert IsSorted
insert-IsSorted t [] h = (Every-nil (not_before t), tt)
insert-IsSorted t (u ∷ us) h = elim (Bool-cases (less t u)) [
  | inl e ↦ rw e (
    Every-cons (not_before t) u us (not_before_lem t u e)
        (Every-map (not_before u) (not_before t) us (λ v k. not_before_trans t u v e k) h.0),
    h,
  )
  | inr e ↦
      rw e (Every-insert (not_before u) t us (ground (arith, e)) h.0, insert-IsSorted t us h.1)
]

abbrev Queue : Type 0
Queue = (ts : List Transaction) × IsSorted ts

abbrev first : Queue → Option Transaction
first ([], h) = none
first (t ∷ ts, h) = some t

unfoldable pub rest : Queue → Queue
unfolding IsSorted
rest ([], h) = ([], h)
rest (t ∷ ts, h) = (ts, h.1)

pub first-none : (q : Queue) → first q ≡ none → q.0 ≡ []
first-none ([], h) e = refl
first-none (t ∷ ts, h) e = cc

pub first-rest :
    (q : Queue) (t : Transaction)
    → first q ≡ some t
    → (p : Transaction → Bool) → count_if p q.0 ≡ count_if p (t ∷ (rest q).0)
unfolding rest
first-rest ([], h) t e p = cc
first-rest (u ∷ ts, h) t e p = ap (λ o. counted p o ts) e
  where
    counted : (Transaction → Bool) → Option Transaction → List Transaction → ℕ
    counted p none us = 0
    counted p (some v) us = count_if p (v ∷ us)

self_not_before : (t : Transaction) → not_before t t ≡ true
self_not_before t = ground (arith, ==_refl t.nonce)

pub first-IsLeast :
    (q : Queue) (t : Transaction) → first q ≡ some t → Every (λ u. not (less u t)) q.0
unfolding IsSorted
first-IsLeast ([], h) t e = cc
first-IsLeast (u ∷ ts, h) t e =
    holds t (some_injective e) (Every-cons (not_before u) u ts (self_not_before u) h.0)
  where
    some_injective : {a b : Transaction} → ◌≡◌ {A = Option Transaction} (some a) (some b) → a ≡ b
    some_injective f = cc

    holds :
        (v : Transaction) → u ≡ v → Every (not_before u) (u ∷ ts) → Every (not_before v) (u ∷ ts)
    holds v f k = subst (λ w. Every (not_before w) (u ∷ ts)) f k

pub nil-IsSorted : IsSorted []
unfolding IsSorted
nil-IsSorted = tt

abbrev pub sorted : Heap
sorted = record {
  Queue = Queue;
  empty = ([], nil-IsSorted);
  push = λ t q. (insert t q.0, insert-IsSorted t q.0 q.1);
  peek = first;
  pop = rest;
  contents = λ q. q.0;
  contents-empty = refl;
  contents-push = λ t q p. count_if-insert t q.0 p;
  peek-none = first-none;
  peek-pop = first-rest;
  peek-IsLeast = first-IsLeast;
}
