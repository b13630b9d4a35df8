-- ===== src/Evm/Results.antt =====
-- state/runtime/evm/evm.go and runtime.go: what a run returns, and the refund of a transaction.
use mainnet.Evm.{Error, is_revert, ExecutionResult, Vm, update_gas_used}
use mainnet.Common.{
  none, ℕ, ◌+◌, ◌-◌, ◌/◌, ◌≤◌, ◌≡◌, inl, inr, true, false, some, arith, ltb, Bool-cases,
}

-- The gas is split into what is left and what was used.
abbrev pub Splits : ℕ → ExecutionResult → Type 0
Splits gas r = r.gas_left + r.gas_used ≡ gas

-- What Run returns of a machine that ran on some gas.
pub record Accounts {World : Type 0} (gas : ℕ) (c : Vm World) (r : ExecutionResult) : Type 0 where
  pub left : r.gas_left ≤ gas
  pub splits : Splits gas r
  pub returned : c.error ≡ none → r.gas_left ≡ c.gas
  pub reverted : (e : Error) → c.error ≡ some e → is_revert (some e) ≡ true → r.gas_left ≡ c.gas
  pub failed : (e : Error) → r.error ≡ some e → is_revert (some e) ≡ false → r.gas_left ≡ 0

-- Where no more is left than the gas limit: with the refund, gas left and gas used still make the limit,
-- and at least half of the gas used before is used.
update_gas_used-Splits :
    (r : ExecutionResult) (gas_limit refund : ℕ)
    → r.gas_left ≤ gas_limit
    → Splits gas_limit (update_gas_used r gas_limit refund)
      × ((gas_limit - r.gas_left) / 2 ≤ (update_gas_used r gas_limit refund).gas_used)
unfolding update_gas_used
update_gas_used-Splits r gas_limit refund l =
    elim (Bool-cases (ltb ((gas_limit - r.gas_left) / 2) refund)) [
      | inl e ↦ rw (e, update_gas_used) (omega (arith, l), omega (arith, l))
      | inr e ↦ rw (e, update_gas_used) (ground (arith, l, e), ground (arith, l, e))
    ]
