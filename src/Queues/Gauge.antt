-- ===== src/Queues/Gauge.antt =====
-- txpool/slot_gauge.go: the slots that the pool has taken, in a uint64 that is changed by atomic adds.
use mainnet.Common.{ℕ, ◌+◌, ◌-◌, ◌*◌, ◌/◌, ◌%◌, ◌^◌, ◌≤◌, ◌<◌, ◌≡◌, ap, Bool, arith, ltb}

pub record SlotGauge : Type 0 where
  pub height : ℕ
  pub max : ℕ

unfoldable pub increase : SlotGauge → ℕ → SlotGauge
increase g slots = record g { height = (g.height + slots) % 2 ^ 64 }

-- ^(slots - 1), the complement of a difference that wraps around at 0.
abbrev pub negated : ℕ → ℕ
negated slots = 2 ^ 64 - 1 - (slots + (2 ^ 64 - 1)) % 2 ^ 64

unfoldable pub decrease : SlotGauge → ℕ → SlotGauge
decrease g slots = record g { height = (g.height + negated slots) % 2 ^ 64 }

-- The product with highPressureMark wraps around.
unfoldable pub high_pressure : SlotGauge → Bool
high_pressure g = ltb (80 * g.max % 2 ^ 64 / 100) g.height

-- decrease takes the slots off a gauge that has them, without a wrap-around, and takes back what increase
-- added, also where that had wrapped around.
decrease-increase :
    (g : SlotGauge) (slots : ℕ)
    → g.height < 2 ^ 64
    → slots < 2 ^ 64
    → (decrease (increase g slots) slots ≡ g)
      × (slots ≤ g.height → (decrease g slots).height + slots ≡ g.height)
unfolding increase decrease
decrease-increase g slots h l =
    (ap (λ (n : ℕ). record g { height = n }) (omega (arith, h, l)), λ m. omega (arith, h, l, m))
