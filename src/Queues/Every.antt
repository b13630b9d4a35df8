-- ===== src/Queues/Every.antt =====
-- Tests that hold of every transaction of a queue, by counting the ones that fail.
use mainnet.Queues.{Transaction, Every}
use mainnet.Common.{
  ℕ, suc, ◌≡◌, refl, ap, inl, inr, Bool, true, not, List, [], ◌∷◌, arith, ltb, leb, if◌then◌else◌,
  Bool-cases, length, count_if, count_if-nil,
}

pub Every-nil : (p : Transaction → Bool) → Every p []
Every-nil p = count_if-nil (λ (t : Transaction). not (p t))

pub count_if-first :
    (p : Transaction → Bool) (t : Transaction) (ts : List Transaction)
    → count_if p (t ∷ ts) ≡ (if p t then suc (count_if p ts) else count_if p ts)
unfolding count_if
count_if-first p t ts = refl

pub Every-uncons :
    (p : Transaction → Bool) (t : Transaction) (ts : List Transaction)
    → Every p (t ∷ ts)
    → (p t ≡ true) × Every p ts
Every-uncons p t ts h =
    let first = count_if-first (λ (u : Transaction). not (p u)) t ts in
    elim (Bool-cases (p t)) [
      | inl e ↦ (e, ground (arith, h, first, e))
      | inr e ↦ absurd (ground (arith, h, first, e))
    ]

pub Every-map :
    (p q : Transaction → Bool) (ts : List Transaction)
    → ((t : Transaction) → p t ≡ true → q t ≡ true)
    → Every p ts
    → Every q ts
unfolding count_if
Every-map p q [] f h = refl
Every-map p q (t ∷ ts) f h =
    let (e, rest) = Every-uncons p t ts h in rw (f t e) (Every-map p q ts f rest)

pub count_if-true : (ts : List Transaction) → count_if (λ t. true) ts ≡ length ts
unfolding count_if
count_if-true [] = refl
count_if-true (t ∷ ts) = ap suc (count_if-true ts)

pub Every-cons :
    (p : Transaction → Bool) (t : Transaction) (ts : List Transaction)
    → p t ≡ true
    → Every p ts
    → Every p (t ∷ ts)
unfolding count_if
Every-cons p t ts e h = rw e h

abbrev pub is_from : ℕ → Transaction → Bool
is_from n t = leb n t.nonce

abbrev pub is_below : ℕ → Transaction → Bool
is_below n t = ltb t.nonce n
