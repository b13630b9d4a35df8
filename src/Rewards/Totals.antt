-- ===== src/Rewards/Totals.antt =====
-- A block never pays out more than its reward.
use mainnet.Common.{
  ℕ, ◌+◌, ◌-◌, ◌*◌, ◌/◌, ◌≤◌, ◌≡◌, refl, inl, inr, false, none, some, List, [], ◌∷◌, arith, ◌==◌,
  if◌then◌else◌, ==_iff, Bool-cases, length, count_if, All,
}
use mainnet.Rewards.{plus, RewardCalculator, Ledger, or_zero, distribute_block_reward}
use mainnet.Rewards.Payments.{distribute-earned, times_paid, producer_part, validator_part, earned}

pub sum_over : (ℕ → ℕ) → List ℕ → ℕ
sum_over f [] = 0
sum_over f (a ∷ as') = f a + sum_over f as'

-- No address stands twice in the list.
abbrev pub AreDistinct : List ℕ → Type 0
AreDistinct [] = Unit
AreDistinct (a ∷ rest) = All (λ b. (b == a) ≡ false) rest × AreDistinct rest

sum_over_add :
    (f g : ℕ → ℕ) (l : List ℕ) → sum_over (λ a. f a + g a) l ≡ sum_over f l + sum_over g l
unfolding sum_over
sum_over_add f g [] = omega arith
sum_over_add f g (a ∷ l) = omega (arith, sum_over_add f g l)

sum_over_mul : (k : ℕ) (f : ℕ → ℕ) (l : List ℕ) → sum_over (λ a. k * f a) l ≡ k * sum_over f l
unfolding sum_over
sum_over_mul k f [] = omega arith
sum_over_mul k f (a ∷ l) = omega (arith, sum_over_mul k f l)

sum_over_zero : (l : List ℕ) → sum_over (λ _. 0) l ≡ 0
unfolding sum_over
sum_over_zero [] = refl
sum_over_zero (a ∷ l) = omega (arith, sum_over_zero l)

sum_over_mono : (f g : ℕ → ℕ) (l : List ℕ) → ((a : ℕ) → f a ≤ g a) → sum_over f l ≤ sum_over g l
unfolding sum_over
sum_over_mono f g [] h = omega arith
sum_over_mono f g (a ∷ l) h = omega (arith, h a, sum_over_mono f g l h)

sum_over_missed :
    (p x a : ℕ) (l : List ℕ)
    → p ≡ a
    → All (λ b. (b == a) ≡ false) l
    → sum_over (λ b. if p == b then x else 0) l ≡ 0
unfolding sum_over
sum_over_missed p x a [] e h = refl
sum_over_missed p x a (b ∷ l) e h =
    let miss : (p == b) ≡ false = ground (arith, h.0) in
    rw miss (omega (arith, sum_over_missed p x a l e h.1))

-- Among distinct addresses one is hit at most once.
sum_over_hit :
    (p x : ℕ) (l : List ℕ) → AreDistinct l → sum_over (λ a. if p == a then x else 0) l ≤ x
unfolding sum_over
sum_over_hit p x [] d = omega arith
sum_over_hit p x (a ∷ l) d = elim (Bool-cases (p == a)) [
  | inr miss ↦ rw miss (omega (arith, sum_over_hit p x l d.1))
  | inl hit ↦ rw hit (omega (arith, sum_over_missed p x a l ((==_iff p a).0 hit) d.0))
]

times_paid-cons :
    (producer v : ℕ) (rest : List ℕ) (a : ℕ)
    → times_paid producer (v ∷ rest) a ≤ (if v == a then 1 else 0) + times_paid producer rest a
unfolding times_paid count_if
times_paid-cons producer v rest a = ground arith

-- Distinct addresses are paid at most once for each entry of the validator list.
sum_over-times_paid :
    (producer : ℕ) (validators l : List ℕ)
    → AreDistinct l
    → sum_over (times_paid producer validators) l ≤ length validators
sum_over-times_paid producer [] l d = unfold times_paid count_if in omega (arith, sum_over_zero l)
sum_over-times_paid producer (v ∷ rest) l d = omega (
  arith,
  sum_over_mono (times_paid producer (v ∷ rest))
      (λ a. (if v == a then 1 else 0) + times_paid producer rest a) l
      (times_paid-cons producer v rest),
  sum_over_add (λ a. if v == a then 1 else 0) (times_paid producer rest) l,
  sum_over_hit v 1 l d,
  sum_over-times_paid producer rest l d,
)

div_mul-le : (x n : ℕ) → x / n * n ≤ x
div_mul-le x n = grind arith

mul_mono : (k m n : ℕ) → m ≤ n → k * m ≤ k * n
mul_mono k m n h = grind arith

producer_part-le :
    (reward : ℕ) (validators : List ℕ)
    → producer_part reward validators + validator_part reward validators * length validators
      ≤ reward
producer_part-le reward [] = omega arith
producer_part-le reward (v ∷ rest) =
    ground (arith, div_mul-le (reward - reward * 80 / 100) (length (v ∷ rest)))

-- Whatever validators are listed, and however often, distinct addresses together earn at most the
-- block reward.
pub earned_total-le :
    (reward producer : ℕ) (validators l : List ℕ)
    → AreDistinct l
    → sum_over (earned reward producer validators) l ≤ reward
earned_total-le reward producer validators l d =
    let part = producer_part reward validators in
    let share = validator_part reward validators in
    omega (
      arith,
      sum_over_add (λ a. if producer == a then part else 0)
          (λ a. share * times_paid producer validators a) l,
      sum_over_mul share (times_paid producer validators) l,
      sum_over_hit producer part l d,
      mul_mono share (sum_over (times_paid producer validators) l) (length validators)
          (sum_over-times_paid producer validators l d),
      producer_part-le reward validators,
    )

-- A block reward that is distributed without an error only adds to balances, and what distinct
-- addresses gain by it is together at most the reward, whatever validators are listed and however
-- often.
pub distribute-bounded :
    (l : Ledger) (rc : RewardCalculator) (s t : Ledger.State l) (producer : ℕ) (validators : List ℕ)
    → distribute_block_reward l rc (some s) producer validators ≡ (some t, none)
    → (gain : ℕ → ℕ) × ((a : ℕ)
        → or_zero (l.get_balance t a) ≡ plus (or_zero (l.get_balance s a)) (gain a))
      × ((addrs : List ℕ) → AreDistinct addrs → sum_over gain addrs ≤ rc.reward_per_block)
distribute-bounded l rc s t producer validators h = (
  earned rc.reward_per_block producer validators,
  distribute-earned l rc s t producer validators h,
  earned_total-le rc.reward_per_block producer validators,
)
