-- ===== src/Rewards/Tests.antt =====
-- The theorems on rewards at concrete inputs.
use mainnet.Common.{
  ℕ, ◌*◌, ◌/◌, ◌≤◌, ◌<◌, ◌≡◌, refl, sym, ap, ◌⊎◌, Option, none, some, List, [], ◌∷◌, ◌==◌,
  if◌then◌else◌, Result, ok, err,
}
use mainnet.Rewards.{
  ℤ, pos, plus, Error, RewardCalculator, Ledger, or_zero, pay, pay_validators, distribute_shares,
  distribute_block_reward, apply_slashing, slash_stake,
}
use mainnet.Rewards.Payments.{distribute-earned, times_paid}
use mainnet.Rewards.Totals.{distribute-bounded, sum_over, AreDistinct}
use mainnet.Rewards.Slashing.{apply_slashing-takes, left}

-- Balances in memory, where every write succeeds.
abbrev memory : Ledger
memory = record {
  State = ℕ → Option ℤ;
  get_balance = λ s a. s a;
  set_balance = λ s a v. ok (λ b. if a == b then some v else s b);
  get-set = λ s t a v b h. stored s t a v b h;
}
  where
    stored :
        (s t : ℕ → Option ℤ) (a : ℕ) (v : ℤ) (b : ℕ)
        → ◌≡◌ {A = Result Error (ℕ → Option ℤ)} (ok (λ c. if a == c then some v else s c)) (ok t)
        → t b ≡ (if a == b then some v else s b)
    stored s t a v b h = ap (λ (r : Result Error (ℕ → Option ℤ)). at_b b r s) (sym h)
      where
        at_b : ℕ → Result Error (ℕ → Option ℤ) → (ℕ → Option ℤ) → Option ℤ
        at_b b (ok u) s = u b
        at_b b (err e) s = none

abbrev hundred : RewardCalculator
hundred = record { reward_per_block = 100 }

-- Producer 1 has no balance yet; 2 has five.
abbrev before : ℕ → Option ℤ
before a = if a == 2 then some (pos 5) else none

-- Validators 1, 2, 2 and the zero address: 2 is paid twice, 1 and 0 never.
abbrev listed : List ℕ
listed = 1 ∷ 2 ∷ 2 ∷ 0 ∷ []

abbrev after : ℕ → Option ℤ
after = λ b.
    if 2 == b
    then some (pos 15)
    else if 2 == b
    then some (pos 10)
    else if 1 == b
    then some (pos 80)
    else before b

distributed : distribute_block_reward memory hundred (some before) 1 listed ≡ (some after, none)
unfolding distribute_block_reward distribute_shares pay_validators pay
distributed = refl

distribute-earned_example : or_zero (after 2) ≡ pos 15
unfolding times_paid
distribute-earned_example = distribute-earned memory hundred before after 1 listed distributed 2

distribute-bounded_example :
    (gain : ℕ → ℕ) × ((a : ℕ) → or_zero (after a) ≡ plus (or_zero (before a)) (gain a))
    × ((addrs : List ℕ) → AreDistinct addrs → sum_over gain addrs ≤ 100)
distribute-bounded_example = distribute-bounded memory hundred before after 1 listed distributed

abbrev slashed : ℕ → Option ℤ
slashed = λ b. if 2 == b then some (pos 4) else before b

slashing : apply_slashing memory (some before) 2 30 ≡ ok slashed
unfolding apply_slashing slash_stake
slashing = refl

apply_slashing-takes_example :
    (0 < 2)
    × (30 ≤ 100)
    × ((◌≡◌ {A = ℕ} 30 0 × (slashed ≡ before))
        ⊎ ((n : ℕ) × (before 2 ≡ some (pos n))
            × (0 < n)
            × (n * 30 / 100 ≤ n)
            × ((a : ℕ) → slashed a ≡ (if 2 == a then some (pos (left n 30)) else before a))))
apply_slashing-takes_example = apply_slashing-takes memory before slashed 2 30 slashing
