-- ===== src/Queues/Aligning.antt =====
-- txpool/account.go: the nonce that separates the two queues of an account, under enqueue and reset.
use mainnet.Queues.{
  Transaction, Every, Heap, Account, Error, Reset, expected, init_once, enqueue, prune, reset,
}
use mainnet.Queues.Every.{Every-nil, Every-map, count_if-first, count_if-true, is_from, is_below}
use mainnet.Queues.Pruning.{prune-Splits}
use mainnet.Common.{
  ℕ, ◌+◌, ◌-◌, ◌^◌, ◌≤◌, ◌<◌, ◌≡◌, refl, ◌⊎◌, inl, inr, Bool, true, not, none, List, ◌∷◌, arith,
  ltb, leb, ◌==◌, if◌then◌else◌, ==_iff, Bool-cases, length, count_if, count_if-nil, Result, ok,
  err,
}

-- A nonce that one can be added to in a uint64.
abbrev pub is_small : Transaction → Bool
is_small t = ltb t.nonce (2 ^ 64 - 1)

-- Of two lists that hold together what a third holds, a test holds of every element.
pub Every-parts :
    (p : Transaction → Bool) (all xs ys : List Transaction)
    → ((q : Transaction → Bool) → count_if q all ≡ count_if q xs + count_if q ys)
    → Every p all
    → Every p xs × Every p ys
Every-parts p all xs ys c h =
    let counted = c (λ t. not (p t)) in (omega (arith, counted, h), omega (arith, counted, h))

pub length-parts :
    (all xs ys : List Transaction)
    → ((q : Transaction → Bool) → count_if q all ≡ count_if q xs + count_if q ys)
    → length ys ≤ length all
length-parts all xs ys c = omega (arith, c (λ t. true), count_if-true all, count_if-true ys)

module _ (heap : Heap) where
  open heap use {Queue, empty, push, peek, contents, contents-empty, contents-push}

  -- The queues stand on their sides of the next nonce, and no more transactions wait than allowed.
  abbrev pub IsValid : Account Queue → Type 0
  IsValid a =
      Every (is_from a.next_nonce) (contents a.enqueued)
      × Every (is_below a.next_nonce) (contents a.promoted)
      × Every is_small (contents a.enqueued)
      × (length (contents a.enqueued) ≤ a.max_enqueued)

  pub init_once-IsValid :
      (nonce max_enqueued_limit : ℕ) → IsValid (init_once heap nonce max_enqueued_limit)
  unfolding init_once
  init_once-IsValid nonce limit =
      rw contents-empty
        (Every-nil (is_from nonce), Every-nil (is_below nonce), Every-nil is_small, omega arith)

  pub Every-push :
      (p : Transaction → Bool) (t : Transaction) (q : Queue)
      → p t ≡ true
      → Every p (contents q)
      → Every p (contents (push t q))
  Every-push p t q e h = ground (
    arith,
    h,
    e,
    contents-push t q (λ u. not (p u)),
    count_if-first (λ (u : Transaction). not (p u)) t (contents q),
  )

  length-push :
      (t : Transaction) (q : Queue) → length (contents (push t q)) ≡ length (contents q) + 1
  length-push t q = omega (
    arith,
    contents-push t q (λ u. true),
    count_if-true (contents (push t q)),
    count_if-true (t ∷ contents q),
  )

  -- What enqueue does: it refuses a full queue, then a nonce of the past, and takes any other transaction
  -- into the queue, which keeps the account valid.
  abbrev pub Enqueued : Transaction → Account Queue → Result Error (Account Queue) → Type 0
  Enqueued tx a (err e) =
      (length (contents a.enqueued) ≡ a.max_enqueued) ⊎ (tx.nonce < a.next_nonce)
  Enqueued tx a (ok b) =
      IsValid b
      × ((p : Transaction → Bool)
          → count_if p (contents b.enqueued) ≡ count_if p (tx ∷ contents a.enqueued))
      × (b.promoted ≡ a.promoted)
      × (b.next_nonce ≡ a.next_nonce)

  -- To a valid account and a nonce below 2 ^ 64 - 1: enqueue fails only where the queue has reached its
  -- limit or the nonce has passed; otherwise the transaction is queued once, nothing else changes, and the
  -- account is valid.
  pub enqueue-IsValid :
      (tx : Transaction) (a : Account Queue)
      → IsValid a
      → is_small tx ≡ true
      → Enqueued tx a (enqueue heap tx a)
  unfolding enqueue
  enqueue-IsValid tx a v s = elim (Bool-cases (length (contents a.enqueued) == a.max_enqueued)) [
    | inl e ↦ rw e (inl ((==_iff _ _).0 e))
    | inr e ↦ elim (Bool-cases (ltb tx.nonce a.next_nonce)) [
      | inl f ↦ rw (e, f) (inr (ground arith))
      | inr f ↦
          rw (e, f)
            (
              (
                Every-push (is_from a.next_nonce) tx a.enqueued (ground arith) v.0,
                v.1,
                Every-push is_small tx a.enqueued s v.2,
                ground (arith, v.3, length-push tx a.enqueued, e),
              ),
              contents-push tx a.enqueued,
              refl,
              refl,
            )
    ]
  ]

  -- What reset keeps of an account for a new nonce.
  abbrev pub IsAligned : ℕ → Account Queue → Reset Queue → Type 0
  IsAligned nonce a r =
      IsValid r.account
      × Every (is_from nonce) (contents r.account.promoted)
      × Every (is_below nonce) r.pruned_promoted
      × Every (is_below nonce) r.pruned_enqueued
      × ((p : Transaction → Bool)
          → count_if p (contents a.promoted)
            ≡ count_if p r.pruned_promoted + count_if p (contents r.account.promoted))
      × ((p : Transaction → Bool)
          → count_if p (contents a.enqueued)
            ≡ count_if p r.pruned_enqueued + count_if p (contents r.account.enqueued))
      × (r.account.next_nonce ≡ (if leb nonce a.next_nonce then a.next_nonce else nonce))
      × (r.signal ≡ (
          if leb nonce a.next_nonce then none else expected heap nonce (peek r.account.enqueued)))

  -- reset keeps an account valid and loses no transaction: the promoted ones that are left are from the
  -- new nonce on, those it returns from either queue are below it, the next nonce does not go back, and a promotion is
  -- signalled where the nonce has moved on and the first transaction that waits has it.
  pub reset-IsAligned :
      (nonce : ℕ) (a : Account Queue) → IsValid a → IsAligned nonce a (reset heap nonce a)
  unfolding reset
  reset-IsAligned nonce a v =
      let ps = prune-Splits heap nonce a.promoted in
      let es = prune-Splits heap nonce a.enqueued in
      let pruned = (prune heap nonce a.promoted).0 in
      let left = (prune heap nonce a.promoted).1 in
      let waiting = (prune heap nonce a.enqueued).1 in
      let below =
        Every-parts (is_below a.next_nonce) (contents a.promoted) pruned (contents left) ps.0 v.1 in
      elim (Bool-cases (leb nonce a.next_nonce)) [
        | inl e ↦ rw e (
          (v.0, below.1, v.2, v.3),
          ps.2,
          ps.1,
          Every-nil (is_below nonce),
          ps.0,
          (λ p. omega (arith, count_if-nil p)),
          refl,
          refl,
        )
        | inr e ↦ rw e (
          (
            es.2,
            Every-map (is_below a.next_nonce) (is_below nonce) (contents left)
                (λ t h. ground (arith, h, e)) below.1,
            (Every-parts is_small (contents a.enqueued) (prune heap nonce a.enqueued).0
                (contents waiting) es.0 v.2).1,
            omega (
              arith,
              v.3,
              length-parts (contents a.enqueued) (prune heap nonce a.enqueued).0 (contents waiting)
                  es.0,
            ),
          ),
          ps.2,
          ps.1,
          es.1,
          ps.0,
          es.0,
          refl,
          refl,
        )
      ]
