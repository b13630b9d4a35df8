-- ===== src/Queues/Promoting.antt =====
-- txpool/account.go: promote moves the transactions that follow each other from the next nonce on.
use mainnet.Queues.{
  Transaction, Every, Heap, Account, Moved, prune, promote_loop, unmoved, moved_first, after_moving,
  promote_first, promote,
}
use mainnet.Queues.Every.{Every-nil, Every-map, Every-cons, count_if-first, is_from, is_below}
use mainnet.Queues.Pruning.{
  prune-Splits, length-pop, Every-peek-none, Every-pop, Every-is_from, Every-empty,
}
use mainnet.Queues.Aligning.{is_small, IsValid, Every-parts, length-parts}
use mainnet.Common.{
  ℕ, zero, suc, ◌+◌, ◌%◌, ◌^◌, ◌≤◌, ◌≡◌, refl, sym, subst, inl, inr, Bool, false, not, Option, none,
  some, List, [], ◌∷◌, ◌++◌, arith, ltb, ◌==◌, ==_iff, Bool-cases, Option-cases, length, count_if,
  count_if-append, count_if-nil,
}

-- The nonces from one number up to another, without a gap.
abbrev pub IsRun : ℕ → List Transaction → ℕ → Type 0
IsRun n [] m = n ≡ m
IsRun n (t ∷ ts) m = (t.nonce ≡ n) × IsRun (n + 1) ts m

IsRun-below :
    (n : ℕ) (ts : List Transaction) (m : ℕ) → IsRun n ts m → (n ≤ m) × Every (is_below m) ts
IsRun-below n [] m r = (omega (arith, r), Every-nil (is_below m))
IsRun-below n (t ∷ ts) m r =
    let (l, b) = IsRun-below (n + 1) ts m r.1 in
    (omega (arith, l), Every-cons (is_below m) t ts (ground (arith, l, r.0)) b)

module _ (heap : Heap) where
  open heap use {Queue, push, peek, pop, contents, contents-push, peek-none, peek-pop}

  -- The loop from a nonce on: it moves a run, keeps every transaction, and stops before a gap.
  abbrev HasMoved : ℕ → Queue → Queue → Moved Queue → Type 0
  HasMoved next enqueued promoted m =
      IsRun next m.promoted_txs m.next_nonce
      × ((p : Transaction → Bool)
          → count_if p (contents enqueued)
            ≡ count_if p m.promoted_txs
              + count_if p m.pruned_txs
              + count_if p (contents m.enqueued))
      × ((p : Transaction → Bool)
          → count_if p (contents m.promoted)
            ≡ count_if p m.promoted_txs + count_if p (contents promoted))
      × Every (is_from (m.next_nonce + 1)) (contents m.enqueued)
      × Every (is_below m.next_nonce) m.pruned_txs

  unmoved-HasMoved :
      (next : ℕ) (enqueued promoted : Queue)
      → Every (is_from (next + 1)) (contents enqueued)
      → HasMoved next enqueued promoted (unmoved heap enqueued promoted next)
  unmoved-HasMoved next enqueued promoted h = (
    refl,
    λ p. omega (arith, count_if-nil p),
    λ p. omega (arith, count_if-nil p),
    h,
    Every-nil (is_below next),
  )

  -- One round, the rest of the rounds given.
  round-HasMoved :
      (next : ℕ) (enqueued promoted : Queue) (tx : Transaction)
      → peek enqueued ≡ some tx
      → tx.nonce ≡ next
      → (rest : Moved Queue)
      → HasMoved (next + 1) (prune heap (next + 1) (pop enqueued)).1 (push tx promoted) rest
      → HasMoved next enqueued promoted
          (moved_first heap tx (prune heap (next + 1) (pop enqueued)).0 rest)
  round-HasMoved next enqueued promoted tx e n rest m =
      let pruned = (prune heap (next + 1) (pop enqueued)).0 in
      let reached = (IsRun-below (next + 1) rest.promoted_txs rest.next_nonce m.0).0 in
      let passed =
        Every-map (is_below (next + 1)) (is_below rest.next_nonce) pruned
          (λ t h. ground (arith, h, reached)) (prune-Splits heap (next + 1) (pop enqueued)).1 in
      (
        (n, m.0),
        λ p. ground (
          arith,
          peek-pop enqueued tx e p,
          (prune-Splits heap (next + 1) (pop enqueued)).0 p,
          m.1 p,
          count_if-append p pruned rest.pruned_txs,
          count_if-first p tx (contents (pop enqueued)),
          count_if-first p tx rest.promoted_txs,
        ),
        λ p. ground (
          arith,
          m.2 p,
          contents-push tx promoted p,
          count_if-first p tx (contents promoted),
          count_if-first p tx rest.promoted_txs,
        ),
        m.3,
        omega (
          arith,
          passed,
          m.4,
          count_if-append (λ t. not (is_below rest.next_nonce t)) pruned rest.pruned_txs,
        ),
      )

  beyond :
      (next : ℕ) (q : Queue) (tx : Transaction)
      → peek q ≡ some tx
      → (tx.nonce == next) ≡ false
      → Every (is_from next) (contents q)
      → Every (is_from (next + 1)) (contents q)
  beyond next q tx e n h =
      Every-is_from heap (next + 1) q tx e
        (ground (arith, n, (Every-pop heap (is_from next) q tx e h).0))

  -- As many rounds as the queue has transactions are enough.
  promote_loop-HasMoved :
      (fuel next : ℕ) (enqueued promoted : Queue)
      → length (contents enqueued) ≤ fuel
      → Every (is_from next) (contents enqueued)
      → Every is_small (contents enqueued)
      → HasMoved next enqueued promoted (promote_loop heap fuel next enqueued promoted)
  unfolding promote_loop
  promote_loop-HasMoved zero next enqueued promoted l h s =
      unmoved-HasMoved next enqueued promoted
        (Every-empty heap (is_from (next + 1)) (contents enqueued) l)
  promote_loop-HasMoved (suc fuel) next enqueued promoted l h s =
      elim (Option-cases (peek enqueued)) [
        | inl e ↦
            rw (e, promote_loop)
              (unmoved-HasMoved next enqueued promoted
                (Every-peek-none heap (is_from (next + 1)) enqueued e))
        | inr (tx, e) ↦ elim (Bool-cases (tx.nonce == next)) [
          | inr f ↦
              rw (e, f, promote_loop)
                (unmoved-HasMoved next enqueued promoted (beyond next enqueued tx e f h))
          | inl f ↦
              let n : tx.nonce ≡ next = (==_iff tx.nonce next).0 f in
              let small = Every-pop heap is_small enqueued tx e s in
              let up : (tx.nonce + 1) % 2 ^ 64 ≡ next + 1 = ground (arith, n, small.0) in
              let left = prune heap (next + 1) (pop enqueued) in
              let split = prune-Splits heap (next + 1) (pop enqueued) in
              rw (e, f, up, promote_loop)
                (round-HasMoved next enqueued promoted tx e n
                  (promote_loop heap fuel (next + 1) left.1 (push tx promoted))
                  (promote_loop-HasMoved fuel (next + 1) left.1 (push tx promoted)
                    (omega (
                      arith,
                      l,
                      length-pop heap enqueued tx e,
                      length-parts (contents (pop enqueued)) left.0 (contents left.1) split.0,
                    ))
                    split.2
                    (Every-parts is_small (contents (pop enqueued)) left.0 (contents left.1) split.0
                      small.1).1))
        ]
      ]

  promote_first-HasMoved :
      (a : Account Queue) (o : Option Transaction)
      → IsValid heap a
      → peek a.enqueued ≡ o
      → HasMoved a.next_nonce a.enqueued a.promoted (promote_first heap a o)
  promote_first-HasMoved a none v e =
      unmoved-HasMoved a.next_nonce a.enqueued a.promoted
        (Every-peek-none heap (is_from (a.next_nonce + 1)) a.enqueued e)
  promote_first-HasMoved a (some first) v e =
      let least = Every-pop heap (is_from a.next_nonce) a.enqueued first e v.0 in
      elim (Bool-cases (ltb a.next_nonce first.nonce)) [
        | inl f ↦ rw f (
            unmoved-HasMoved a.next_nonce a.enqueued a.promoted
              (Every-is_from heap (a.next_nonce + 1) a.enqueued first e (ground (arith, f))))
        | inr f ↦
            let n : first.nonce ≡ a.next_nonce = ground (arith, f, least.0) in
            rw (f, n)
              (promote_loop-HasMoved (length (contents a.enqueued)) a.next_nonce a.enqueued
                a.promoted (omega arith) v.0 v.2)
      ]

  moved-next :
      (a : Account Queue) (m : Moved Queue)
      → IsRun a.next_nonce m.promoted_txs m.next_nonce
      → (after_moving heap a m).next_nonce ≡ m.next_nonce
  moved-next a m r = elim (Bool-cases (ltb a.next_nonce m.next_nonce)) [
    | inl e ↦ rw e refl
    | inr e ↦ rw e (ground (arith, e, (IsRun-below a.next_nonce m.promoted_txs m.next_nonce r).0))
  ]

  after_moving-IsValid :
      (a : Account Queue) (m : Moved Queue)
      → IsValid heap a
      → HasMoved a.next_nonce a.enqueued a.promoted m
      → IsValid heap (after_moving heap a m)
  after_moving-IsValid a m v h =
      let below = IsRun-below a.next_nonce m.promoted_txs m.next_nonce h.0 in
      let kept : (q : Transaction → Bool)
          → count_if q (contents a.enqueued)
            ≡ count_if q (m.promoted_txs ++ m.pruned_txs) + count_if q (contents m.enqueued) =
        λ q. omega (arith, h.1 q, count_if-append q m.promoted_txs m.pruned_txs) in
      let older =
        Every-map (is_below a.next_nonce) (is_below m.next_nonce) (contents a.promoted)
          (λ t e. ground (arith, e, below.0)) v.1 in
      rw (moved-next a m h.0) (
        Every-map (is_from (m.next_nonce + 1)) (is_from m.next_nonce) (contents m.enqueued)
            (λ t e. ground (arith, e)) h.3,
        omega (arith, h.2 (λ t. not (is_below m.next_nonce t)), below.1, older),
        (Every-parts is_small (contents a.enqueued) (m.promoted_txs ++ m.pruned_txs)
            (contents m.enqueued) kept v.2).1,
        omega (
          arith,
          v.3,
          length-parts (contents a.enqueued) (m.promoted_txs ++ m.pruned_txs) (contents m.enqueued)
              kept,
        ),
      )

  -- promote keeps an account valid. What it promotes has the nonces from the old next nonce up to the new
  -- one, without a gap, no transaction that still waits has the new one, and every pruned one is below it, so
  -- that none which could have gone on is lost. Every transaction that waited is promoted, pruned or waits, as
  -- often as before, and the promoted queue has grown by the promoted.
  pub promote-HasMoved :
      (a : Account Queue)
      → IsValid heap a
      → let (b, promoted_txs, pruned_txs) = promote heap a in
        IsValid heap b
        × IsRun a.next_nonce promoted_txs b.next_nonce
        × Every (is_from (b.next_nonce + 1)) (contents b.enqueued)
        × Every (is_below b.next_nonce) pruned_txs
        × ((p : Transaction → Bool)
            → count_if p (contents a.enqueued)
              ≡ count_if p promoted_txs + count_if p pruned_txs + count_if p (contents b.enqueued))
        × ((p : Transaction → Bool)
            → count_if p (contents b.promoted)
              ≡ count_if p promoted_txs + count_if p (contents a.promoted))
  unfolding promote
  promote-HasMoved a v =
      let m = promote_first heap a (peek a.enqueued) in
      let h = promote_first-HasMoved a (peek a.enqueued) v refl in
      let valid = after_moving-IsValid a m v h in
      let next = moved-next a m h.0 in
      (
        valid,
        subst (IsRun a.next_nonce m.promoted_txs) (sym next) h.0,
        subst (λ n. Every (is_from (n + 1)) (contents m.enqueued)) (sym next) h.3,
        subst (λ n. Every (is_below n) m.pruned_txs) (sym next) h.4,
        h.1,
        h.2,
      )
