-- ===== src/Queues.antt =====
-- txpool/queue.go and txpool/account.go: the transactions of an account in two queues, those that wait
-- for a nonce to come and those that may go into a block. container/heap is what its documentation
-- promises: Push adds an element, and Pop takes out one that is least by Less, which stands at index 0.
-- Locks are left out: every method is one step.
pub mod Every
pub mod Pruning
pub mod Aligning
pub mod Promoting
pub mod Sorted
pub mod Gauge
mod Tests
use mainnet.Common.{
  ℕ, zero, suc, ◌+◌, ◌-◌, ◌*◌, ◌/◌, ◌%◌, ◌^◌, ◌≤◌, ◌<◌, ◌≡◌, refl, sym, ap, ◌∙◌, subst, ◌≢◌, ◌↔◌,
  ◌⊎◌, inl, inr, Bool, true, false, not, ◌&&◌, ◌||◌, Option, none, some, List, [], ◌∷◌, ◌++◌, map,
  arith, ltb, leb, ◌==◌, if◌then◌else◌, ==_iff, ==_refl, Bool-cases, Option-cases, same, same_iff,
  bytes_equal, bytes_equal_refl, eq_of_bytes_equal, length, get_elem?, set, drop, erase_at,
  length-append, length-erase_at, keep, count_if, All, length-keep, count_if-append, count_if-nil,
  get_elem?-total, count_if-keep, All-keep, All-map, All-append, All-drop, All-get_elem?, Result,
  ok, err, ◌>>=◌, ◌>>◌, ensure, or_fail, Result-cases, bind-ok, ensure-ok, or_fail-ok,
}

pub record Transaction : Type 0 where
  pub hash : ℕ
  pub nonce : ℕ
  pub gas_price : ℕ
  pub from : ℕ

-- Less of minNonceQueue, on two of its elements.
abbrev pub less : Transaction → Transaction → Bool
less s t = if s.nonce == t.nonce then ltb t.gas_price s.gas_price else ltb s.nonce t.nonce

-- No element fails the test.
abbrev pub Every : (Transaction → Bool) → List Transaction → Type 0
Every p ts = count_if (λ t. not (p t)) ts ≡ 0

-- A minNonceQueue under container/heap. `contents` is the slice, in any order.
pub record Heap : Type 1 where
  pub Queue : Type 0
  pub empty : Queue
  pub push : Transaction → Queue → Queue
  pub peek : Queue → Option Transaction
  pub pop : Queue → Queue
  pub contents : Queue → List Transaction
  pub contents-empty : contents empty ≡ []
  pub contents-push :
      (t : Transaction) (h : Queue) (p : Transaction → Bool)
      → count_if p (contents (push t h)) ≡ count_if p (t ∷ contents h)
  pub peek-none : (h : Queue) → peek h ≡ none → contents h ≡ []
  pub peek-pop :
      (h : Queue) (t : Transaction)
      → peek h ≡ some t
      → (p : Transaction → Bool) → count_if p (contents h) ≡ count_if p (t ∷ contents (pop h))
  pub peek-IsLeast :
      (h : Queue) (t : Transaction) → peek h ≡ some t → Every (λ u. not (less u t)) (contents h)

pub record Account (Queue : Type 0) : Type 0 where
  pub enqueued : Queue
  pub promoted : Queue
  pub next_nonce : ℕ
  pub demotions : ℕ
  pub skips : ℕ
  pub max_enqueued : ℕ

pub data Error : Type 0 where
  max_enqueued_limit_reached nonce_too_low : Error

-- What the loop of promote has moved.
pub record Moved (Queue : Type 0) : Type 0 where
  pub enqueued : Queue
  pub promoted : Queue
  pub next_nonce : ℕ
  pub promoted_txs : List Transaction
  pub pruned_txs : List Transaction

-- What reset returns. The account to signal is the one whose promotion it requests.
pub record Reset (Queue : Type 0) : Type 0 where
  pub account : Account Queue
  pub pruned_promoted : List Transaction
  pub pruned_enqueued : List Transaction
  pub signal : Option ℕ

module _ (heap : Heap) where
  open heap use {Queue, empty, push, peek, pop, contents}

  -- The account that initOnce stores for a new address.
  unfoldable pub init_once : ℕ → ℕ → Account Queue
  init_once nonce max_enqueued_limit = record {
    enqueued = empty;
    promoted = empty;
    next_nonce = nonce;
    demotions = 0;
    skips = 0;
    max_enqueued = max_enqueued_limit;
  }

  -- The loop of prune.
  unfoldable pub prune_loop : ℕ → ℕ → Queue → List Transaction × Queue
  prune_loop zero nonce q = ([], q)
  prune_loop (suc fuel) nonce q = elim (peek q) [
    | none ↦ ([], q)
    | some tx ↦ elim (leb nonce tx.nonce) [
      | true ↦ ([], q)
      | false ↦ (let (pruned, left) = prune_loop fuel nonce (pop q) in (tx ∷ pruned, left))
    ]
  ]

  unfoldable pub prune : ℕ → Queue → List Transaction × Queue
  prune nonce q = prune_loop (length (contents q)) nonce q

  unfoldable pub enqueue : Transaction → Account Queue → Result Error (Account Queue)
  enqueue tx a = do
    ensure (not (length (contents a.enqueued) == a.max_enqueued)) max_enqueued_limit_reached
    ensure (not (ltb tx.nonce a.next_nonce)) nonce_too_low
    ok (record a { enqueued = push tx a.enqueued })

  abbrev pub unmoved : Queue → Queue → ℕ → Moved Queue
  unmoved enqueued promoted next = record {
    enqueued = enqueued;
    promoted = promoted;
    next_nonce = next;
    promoted_txs = [];
    pruned_txs = [];
  }

  -- One round of the loop of promote, in front of the others.
  abbrev pub moved_first : Transaction → List Transaction → Moved Queue → Moved Queue
  moved_first tx pruned rest = record rest {
    promoted_txs = tx ∷ rest.promoted_txs;
    pruned_txs = pruned ++ rest.pruned_txs;
  }

  -- The loop of promote: nextNonce is a uint64.
  unfoldable pub promote_loop : ℕ → ℕ → Queue → Queue → Moved Queue
  promote_loop zero next enqueued promoted = unmoved enqueued promoted next
  promote_loop (suc fuel) next enqueued promoted = elim (peek enqueued) [
    | none ↦ unmoved enqueued promoted next
    | some tx ↦ elim (tx.nonce == next) [
      | false ↦ unmoved enqueued promoted next
      | true ↦
          let next' = (tx.nonce + 1) % 2 ^ 64 in
          let (pruned, left) = prune next' (pop enqueued) in
          moved_first tx pruned (promote_loop fuel next' left (push tx promoted))
    ]
  ]

  -- The account after the loop, whose nonce never goes back.
  abbrev pub after_moving : Account Queue → Moved Queue → Account Queue
  after_moving a m = record a {
    enqueued = m.enqueued;
    promoted = m.promoted;
    next_nonce = if ltb a.next_nonce m.next_nonce then m.next_nonce else a.next_nonce;
  }

  abbrev pub promote_first : Account Queue → Option Transaction → Moved Queue
  promote_first a none = unmoved a.enqueued a.promoted a.next_nonce
  promote_first a (some first) =
      let moved = promote_loop (length (contents a.enqueued)) first.nonce a.enqueued a.promoted in
      if ltb a.next_nonce first.nonce then unmoved a.enqueued a.promoted a.next_nonce else moved

  -- promote, with the lists that it returns.
  unfoldable pub promote : Account Queue → Account Queue × List Transaction × List Transaction
  promote a =
      let m = promote_first a (peek a.enqueued) in (after_moving a m, m.promoted_txs, m.pruned_txs)

  abbrev pub expected : ℕ → Option Transaction → Option ℕ
  expected nonce none = none
  expected nonce (some first) = if first.nonce == nonce then some first.from else none

  unfoldable pub reset : ℕ → Account Queue → Reset Queue
  reset nonce a =
      let (pruned_promoted, promoted) = prune nonce a.promoted in
      let (pruned_enqueued, enqueued) = prune nonce a.enqueued in
      if leb nonce a.next_nonce
      then record {
        account = record a { promoted = promoted };
        pruned_promoted = pruned_promoted;
        pruned_enqueued = [];
        signal = none;
      }
      else record {
        account = record a { promoted = promoted; enqueued = enqueued; next_nonce = nonce };
        pruned_promoted = pruned_promoted;
        pruned_enqueued = pruned_enqueued;
        signal = expected nonce (peek enqueued);
      }

  abbrev or_else : Option Transaction → Option Transaction → Option Transaction
  or_else none o = o
  or_else (some t) o = some t

  -- The next transaction that either queue would pop.
  unfoldable pub get_lowest_tx : Account Queue → Option Transaction
  get_lowest_tx a = or_else (peek a.promoted) (peek a.enqueued)
