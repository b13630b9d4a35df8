-- ===== src/Queues/Pruning.antt =====
-- txpool/queue.go: prune takes out of a queue exactly the transactions below a nonce.
use mainnet.Queues.{Transaction, Every, Heap, prune, prune_loop, less}
use mainnet.Queues.Every.{
  Every-nil, Every-map, Every-cons, count_if-first, count_if-true, is_from, is_below,
}
use mainnet.Common.{
  ℕ, zero, suc, ◌+◌, ◌≤◌, ◌≡◌, inl, inr, Bool, true, not, none, some, List, [], ◌∷◌, arith, leb,
  Bool-cases, Option-cases, length, count_if, count_if-nil,
}

module _ (heap : Heap) where
  open heap use {Queue, empty, push, peek, pop, contents, peek-none, peek-pop, peek-IsLeast}

  pub length-pop :
      (q : Queue) (t : Transaction)
      → peek q ≡ some t
      → length (contents q) ≡ length (contents (pop q)) + 1
  length-pop q t e = omega (
    arith,
    peek-pop q t e (λ u. true),
    count_if-true (contents q),
    count_if-true (t ∷ contents (pop q)),
  )

  pub Every-peek-none : (p : Transaction → Bool) (q : Queue) → peek q ≡ none → Every p (contents q)
  Every-peek-none p q e = rw (peek-none q e) (Every-nil p)

  pub Every-pop :
      (p : Transaction → Bool) (q : Queue) (t : Transaction)
      → peek q ≡ some t
      → Every p (contents q)
      → (p t ≡ true) × Every p (contents (pop q))
  Every-pop p q t e h =
      let counted = peek-pop q t e (λ u. not (p u)) in
      let first = count_if-first (λ (u : Transaction). not (p u)) t (contents (pop q)) in
      elim (Bool-cases (p t)) [
        | inl g ↦ (g, ground (arith, h, counted, first, g))
        | inr g ↦ absurd (ground (arith, h, counted, first, g))
      ]

  -- Where the first is from a nonce on, all are.
  pub Every-is_from :
      (n : ℕ) (q : Queue) (t : Transaction)
      → peek q ≡ some t
      → n ≤ t.nonce
      → Every (is_from n) (contents q)
  Every-is_from n q t e l =
      Every-map (λ u. not (less u t)) (is_from n) (contents q) (λ u h. ground (arith, h, l))
        (peek-IsLeast q t e)

  pub Every-empty : (p : Transaction → Bool) (ts : List Transaction) → length ts ≤ 0 → Every p ts
  Every-empty p [] h = Every-nil p
  Every-empty p (t ∷ ts) h = absurd (omega (arith, h))

  abbrev Splits : ℕ → Queue → List Transaction × Queue → Type 0
  Splits nonce q (pruned, left) =
      ((p : Transaction → Bool)
        → count_if p (contents q) ≡ count_if p pruned + count_if p (contents left))
      × Every (is_below nonce) pruned
      × Every (is_from nonce) (contents left)

  -- As many rounds as the queue has transactions are enough.
  prune_loop-Splits :
      (fuel nonce : ℕ) (q : Queue)
      → length (contents q) ≤ fuel
      → Splits nonce q (prune_loop heap fuel nonce q)
  unfolding prune_loop
  prune_loop-Splits zero nonce q h = (
    λ p. omega (arith, count_if-nil p),
    Every-nil (is_below nonce),
    Every-empty (is_from nonce) (contents q) h,
  )
  prune_loop-Splits (suc fuel) nonce q h = elim (Option-cases (peek q)) [
    | inl e ↦
        rw (e, prune_loop)
          (
            (λ p. omega (arith, count_if-nil p)),
            Every-nil (is_below nonce),
            Every-peek-none (is_from nonce) q e,
          )
    | inr (tx, e) ↦ elim (Bool-cases (leb nonce tx.nonce)) [
      | inl f ↦
          rw (e, f, prune_loop)
            (
              (λ p. omega (arith, count_if-nil p)),
              Every-nil (is_below nonce),
              Every-is_from nonce q tx e (ground arith),
            )
      | inr f ↦
          let rest = prune_loop-Splits fuel nonce (pop q) (omega (arith, h, length-pop q tx e)) in
          rw (e, f, prune_loop)
            (
              (λ p. ground (
                arith,
                rest.0 p,
                peek-pop q tx e p,
                count_if-first p tx (contents (pop q)),
                count_if-first p tx (prune_loop heap fuel nonce (pop q)).0,
              )),
              Every-cons (is_below nonce) tx _ (ground arith) rest.1,
              rest.2,
            )
    ]
  ]

  -- prune splits a queue: what it returns is below the nonce, what it leaves is not, and every transaction
  -- of the queue is in one of the two, as often as before.
  pub prune-Splits :
      (nonce : ℕ) (q : Queue)
      → let (pruned, left) = prune heap nonce q in
        ((p : Transaction → Bool)
          → count_if p (contents q) ≡ count_if p pruned + count_if p (contents left))
        × Every (is_below nonce) pruned
        × Every (is_from nonce) (contents left)
  unfolding prune
  prune-Splits nonce q = prune_loop-Splits (length (contents q)) nonce q (omega arith)
