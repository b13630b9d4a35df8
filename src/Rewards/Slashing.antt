-- ===== src/Rewards/Slashing.antt =====
-- What slashing takes.
use mainnet.Common.{
  ℕ, zero, suc, ◌-◌, ◌*◌, ◌/◌, ◌≤◌, ◌<◌, ◌≡◌, ◌⊎◌, inl, inr, not, Option, none, some, arith, ltb,
  ◌==◌, if◌then◌else◌, Bool-cases, ok, bind-ok, ensure-ok,
}
use mainnet.Rewards.{
  ℤ, pos, negsuc, zero_validator, invalid_slash_percentage, slashing_too_high, Ledger,
  positive_stake, slash_stake, apply_slashing,
}

slash-le : (n p : ℕ) → p ≤ 100 → n * p / 100 ≤ n
slash-le n p h = let m : n * p ≤ n * 100 = grind arith in omega arith

positive_stake-some :
    (o : Option ℤ) (n : ℕ) → positive_stake o ≡ ok n → (o ≡ some (pos n)) × (0 < n)
positive_stake-some none n h = absurd (ground arith)
positive_stake-some (some (pos zero)) n h = absurd (ground arith)
positive_stake-some (some (pos (suc m))) n h = ground arith
positive_stake-some (some (negsuc m)) n h = absurd (ground arith)

-- What slashing leaves of a stake: the part that is taken is rounded down.
abbrev pub left : ℕ → ℕ → ℕ
left stake percentage = stake - stake * percentage / 100

module _ (l : Ledger) where
  open l use {State, get_balance, set_balance, get-set}

  -- Slashing takes the percentage of the validator's stake, rounded down, and nothing from anyone
  -- else; what it takes is at most the stake. A stake is slashed only if it is positive, the percentage is at most 100 and the address is not zero. At 0
  -- percent nothing is written.
  pub apply_slashing-takes :
      (s t : State) (validator percentage : ℕ)
      → apply_slashing l (some s) validator percentage ≡ ok t
      → (0 < validator)
        × (percentage ≤ 100)
        × (((percentage ≡ 0) × (t ≡ s))
            ⊎ ((n : ℕ) × (get_balance s validator ≡ some (pos n))
                × (0 < n)
                × (n * percentage / 100 ≤ n)
                × ((a : ℕ)
                    → get_balance t a ≡ (
                        if validator == a
                        then some (pos (left n percentage))
                        else get_balance s a))))
  unfolding apply_slashing slash_stake
  apply_slashing-takes s t validator percentage h =
      let (e₁, h₁) = ensure-ok (not (validator == 0)) zero_validator _ h in
      let (e₂, h₂) = ensure-ok (not (ltb 100 percentage)) invalid_slash_percentage _ h₁ in
      (
        ground arith,
        ground arith,
        elim (Bool-cases (percentage == 0)) [
          | inl zero_percent ↦ inl (ground arith, ground arith)
          | inr some_percent ↦
              let slashed : slash_stake l s validator percentage ≡ ok t = ground arith in
              let (n, e₃, h₃) = bind-ok (positive_stake (get_balance s validator)) _ slashed in
              let (_, h₄) = ensure-ok (not (ltb n (n * percentage / 100))) slashing_too_high _ h₃ in
              let (stake, positive) = positive_stake-some (get_balance s validator) n e₃ in
              inr (
                n,
                stake,
                positive,
                slash-le n percentage (ground arith),
                λ a. get-set s t validator (pos (left n percentage)) a h₄,
              )
        ],
      )
