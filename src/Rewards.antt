-- ===== src/Rewards.antt =====
-- rewards/reward.go: block rewards and slashing over the balances of a state.
-- The state is the interface that the code is given: balances are read (nil is `none`) and written (a
-- write may fail). big.Int values are integers; the reward is a natural number, since both ways to set
-- it refuse nil and negative values. Logging is left out.
pub mod Payments
pub mod Totals
pub mod Slashing
mod Tests
use mainnet.Common.{
  ℕ, zero, suc, ◌+◌, ◌-◌, ◌*◌, ◌/◌, ◌%◌, ◌^◌, ◌≤◌, ◌<◌, ◌≡◌, refl, sym, ap, ◌∙◌, subst, ◌≢◌, ◌↔◌,
  ◌⊎◌, inl, inr, Bool, true, false, not, ◌&&◌, ◌||◌, Option, none, some, List, [], ◌∷◌, ◌++◌, map,
  arith, ltb, leb, ◌==◌, if◌then◌else◌, ==_iff, ==_refl, Bool-cases, Option-cases, same, same_iff,
  bytes_equal, bytes_equal_refl, eq_of_bytes_equal, length, get_elem?, set, drop, erase_at,
  length-append, length-erase_at, keep, count_if, All, length-keep, count_if-append, count_if-nil,
  get_elem?-total, count_if-keep, All-keep, All-map, All-append, All-drop, All-get_elem?, Result,
  ok, err, ◌>>=◌, ◌>>◌, ensure, or_fail, Result-cases, bind-ok, ensure-ok, or_fail-ok,
}

-- `negsuc n` is -(n + 1).
pub data ℤ : Type 0 where
  pos : ℕ → ℤ
  negsuc : ℕ → ℤ

-- z + n
abbrev pub plus : ℤ → ℕ → ℤ
plus (pos m) n = pos (m + n)
plus (negsuc m) n = if leb (suc m) n then pos (n - suc m) else negsuc (m - n)

pub data Error : Type 0 where
  nil_logger nil_reward negative_reward nil_state zero_address zero_validator : Error
  invalid_slash_percentage no_stake slashing_too_high write_failed : Error

pub record RewardCalculator : Type 0 where
  pub reward_per_block : ℕ

-- A big.Int that may be nil, as a reward.
abbrev pub checked_reward : Option ℤ → Result Error ℕ
checked_reward none = err nil_reward
checked_reward (some (pos n)) = ok n
checked_reward (some (negsuc n)) = err negative_reward

unfoldable pub new_reward_calculator : Bool → Option ℤ → Result Error RewardCalculator
new_reward_calculator has_logger reward = do
  ensure has_logger nil_logger
  n ← checked_reward reward
  ok (record { reward_per_block = n })

unfoldable pub update_reward_per_block : RewardCalculator → Option ℤ → Result Error RewardCalculator
update_reward_per_block rc new_reward = do
  n ← checked_reward new_reward
  ok (record rc { reward_per_block = n })

-- What the code uses of its state. A read after a write gives what was written.
pub record Ledger : Type 1 where
  pub State : Type 0
  pub get_balance : State → ℕ → Option ℤ
  pub set_balance : State → ℕ → ℤ → Result Error State
  pub get-set :
      (s t : State) (a : ℕ) (v : ℤ) (b : ℕ)
      → set_balance s a v ≡ ok t
      → get_balance t b ≡ (if a == b then some v else get_balance s b)

-- big.NewInt(0) for nil.
abbrev pub or_zero : Option ℤ → ℤ
or_zero none = pos 0
or_zero (some v) = v

-- The stake of a validator that can be slashed.
abbrev pub positive_stake : Option ℤ → Result Error ℕ
positive_stake (some (pos (suc n))) = ok (suc n)
positive_stake _ = err no_stake

module _ (l : Ledger) where
  open l use {State, get_balance, set_balance}

  -- Adds to a balance.
  unfoldable pub pay : State → ℕ → ℕ → Result Error State
  pay s a n = set_balance s a (plus (or_zero (get_balance s a)) n)

  -- The loop over the validators. What was paid before an error stays paid.
  unfoldable pub pay_validators : State → ℕ → ℕ → List ℕ → State × Option Error
  pay_validators s producer share [] = (s, none)
  pay_validators s producer share (a ∷ rest) = elim (a == 0 || a == producer) [
    | true ↦ pay_validators s producer share rest
    | false ↦ elim (pay s a share) [
      | err e ↦ (s, some e)
      | ok t ↦ pay_validators t producer share rest
    ]
  ]

  abbrev paid_alone : State → Result Error State → State × Option Error
  paid_alone s (ok t) = (t, none)
  paid_alone s (err e) = (s, some e)

  -- The split among producer and validators, with at least one validator.
  unfoldable pub distribute_shares : RewardCalculator → State → ℕ → List ℕ → State × Option Error
  distribute_shares rc s producer validators =
      let producer_share = rc.reward_per_block * 80 / 100 in
      let validator_share = (rc.reward_per_block - producer_share) / length validators in
      elim (pay s producer producer_share) [
        | err e ↦ (s, some e)
        | ok t ↦ elim (ltb 0 validator_share) [
          | true ↦ pay_validators t producer validator_share validators
          | false ↦ (t, none)
        ]
      ]

  -- DistributeBlockReward. A nil state has nothing to write to.
  unfoldable pub distribute_block_reward :
      RewardCalculator → Option State → ℕ → List ℕ → Option State × Option Error
  distribute_block_reward rc none producer validators = (none, some nil_state)
  distribute_block_reward rc (some s) producer validators =
      if producer == 0
      then (some s, some zero_address)
      else if length validators == 0
      then (let (t, e) = paid_alone s (pay s producer rc.reward_per_block) in (some t, e))
      else (let (t, e) = distribute_shares rc s producer validators in (some t, e))

  -- The second half of ApplySlashing, at a percentage above 0.
  unfoldable pub slash_stake : State → ℕ → ℕ → Result Error State
  slash_stake s validator slash_percentage = do
    stake ← positive_stake (get_balance s validator)
    let slash_amount = stake * slash_percentage / 100
    ensure (not (ltb stake slash_amount)) slashing_too_high
    set_balance s validator (pos (stake - slash_amount))

  -- ApplySlashing. An error comes before any write.
  unfoldable pub apply_slashing : Option State → ℕ → ℕ → Result Error State
  apply_slashing none validator slash_percentage = err nil_state
  apply_slashing (some s) validator slash_percentage = do
    ensure (not (validator == 0)) zero_validator
    ensure (not (ltb 100 slash_percentage)) invalid_slash_percentage
    if slash_percentage == 0 then ok s else slash_stake s validator slash_percentage
