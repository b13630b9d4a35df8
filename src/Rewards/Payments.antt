-- ===== src/Rewards/Payments.antt =====
-- What a block reward adds to each balance.
use mainnet.Common.{
  ℕ, suc, ◌+◌, ◌-◌, ◌*◌, ◌/◌, ◌≡◌, sym, ap, ◌∙◌, inl, inr, Bool, true, false, not, ◌&&◌, ◌||◌,
  Option, none, some, List, [], ◌∷◌, arith, ltb, ◌==◌, if◌then◌else◌, ==_iff, Bool-cases, length,
  count_if, ok, Result-cases,
}
use mainnet.Rewards.{
  ℤ, pos, negsuc, plus, Error, RewardCalculator, Ledger, or_zero, pay, pay_validators,
  distribute_shares, distribute_block_reward,
}

-- How often a validator is paid: once for each time it is listed, and never as the zero address or
-- as the producer.
abbrev pub is_listed : ℕ → ℕ → ℕ → Bool
is_listed producer a b = not (b == 0 || b == producer) && b == a

unfoldable pub times_paid : ℕ → List ℕ → ℕ → ℕ
unfolding count_if
times_paid producer validators a = count_if (is_listed producer a) validators

plus_zero : (z : ℤ) → plus z 0 ≡ z
plus_zero (pos m) = ap pos (omega arith)
plus_zero (negsuc m) = ground arith

plus-plus : (z : ℤ) (m n : ℕ) → plus (plus z m) n ≡ plus z (m + n)
plus-plus (pos k) m n = ap pos (omega arith)
plus-plus (negsuc k) m n = ground arith

module _ (l : Ledger) where
  open l use {State, get_balance, set_balance, get-set}

  abbrev balance : State → ℕ → ℤ
  balance s a = or_zero (get_balance s a)

  -- A payment adds to one balance.
  balance-pay :
      (s t : State) (a n b : ℕ)
      → pay l s a n ≡ ok t
      → balance t b ≡ (if a == b then plus (balance s a) n else balance s b)
  unfolding pay
  balance-pay s t a n b h = ground (arith, get-set s t a (plus (balance s a) n) b h)

  balance-pay_added :
      (s t : State) (a n b : ℕ)
      → pay l s a n ≡ ok t
      → balance t b ≡ plus (balance s b) (if a == b then n else 0)
  balance-pay_added s t a n b h =
      let after = balance-pay s t a n b h in
      elim (Bool-cases (a == b)) [
        | inl e ↦ after ∙ rw e (ap (λ (c : ℕ). plus (balance s c) n) ((==_iff a b).0 e))
        | inr e ↦ after ∙ rw e (sym (plus_zero (balance s b)))
      ]

  -- One round of the loop that did not fail.
  pay_validators-step :
      (v : ℕ) (rest : List ℕ) (s : State) (producer share : ℕ)
      → (v == 0 || v == producer) ≡ false
      → (pay_validators l s producer share (v ∷ rest)).1 ≡ none
      → (t : State) × (pay l s v share ≡ ok t)
        × (pay_validators l s producer share (v ∷ rest) ≡ pay_validators l t producer share rest)
  unfolding pay_validators
  pay_validators-step v rest s producer share e h = elim (Result-cases (pay l s v share)) [
    | inr (x, f) ↦ absurd (ground arith)
    | inl (t, f) ↦ (t, f, rw (e, pay_validators) (rw (f, pay_validators)))
  ]

  pay_validators-skip :
      (v : ℕ) (rest : List ℕ) (s : State) (producer share : ℕ)
      → (v == 0 || v == producer) ≡ true
      → pay_validators l s producer share (v ∷ rest) ≡ pay_validators l s producer share rest
  unfolding pay_validators
  pay_validators-skip v rest s producer share e = rw (e, pay_validators)

  add_share :
      (v : ℕ) (rest : List ℕ) (s t : State) (producer share a : ℕ)
      → (v == 0 || v == producer) ≡ false
      → pay l s v share ≡ ok t
      → plus (balance t a) (share * times_paid producer rest a)
        ≡ plus (balance s a) (share * times_paid producer (v ∷ rest) a)
  unfolding times_paid
  add_share v rest s t producer share a e paid =
      let n = count_if (is_listed producer a) rest in
      let after = balance-pay s t v share a paid in
      elim (Bool-cases (v == a)) [
        | inr other ↦
            ap (λ z. plus z (share * n)) (after ∙ rw other)
            ∙ ap (λ (m : ℕ). plus (balance s a) (share * m)) (ground arith)
        | inl same_one ↦
            ap (λ z. plus z (share * n)) (after ∙ rw same_one)
            ∙ plus-plus (balance s v) share (share * n)
            ∙ ap (λ (b : ℕ). plus (balance s b) (share + share * n)) ((==_iff v a).0 same_one)
            ∙ ap (λ (m : ℕ). plus (balance s a) m) {y = share * times_paid producer (v ∷ rest) a}
                (let counted : times_paid producer (v ∷ rest) a ≡ suc n = ground arith in
                  rw counted (omega arith))
      ]

  -- The loop adds the share to each validator as often as it is listed.
  balance-pay_validators :
      (validators : List ℕ) (s : State) (producer share a : ℕ)
      → (pay_validators l s producer share validators).1 ≡ none
      → balance (pay_validators l s producer share validators).0 a
        ≡ plus (balance s a) (share * times_paid producer validators a)
  unfolding times_paid
  balance-pay_validators [] s producer share a h =
      unfold pay_validators in sym (plus_zero (balance s a)) ∙ ap (plus (balance s a)) (omega arith)
  balance-pay_validators (v ∷ rest) s producer share a h =
      elim (Bool-cases (v == 0 || v == producer)) [
        | inl e ↦
            let skip = pay_validators-skip v rest s producer share e in
            rw skip (
              balance-pay_validators rest s producer share a (rw skip at h)
              ∙ ap (λ (n : ℕ). plus (balance s a) (share * n)) (ground arith))
        | inr e ↦
            let (t, paid, step) = pay_validators-step v rest s producer share e h in
            rw step (
              balance-pay_validators rest t producer share a (rw step at h)
              ∙ add_share v rest s t producer share a e paid)
      ]

-- The part of the producer: all of the reward if there are no validators, and 80 percent otherwise.
abbrev pub producer_part : ℕ → List ℕ → ℕ
producer_part reward validators = if length validators == 0 then reward else reward * 80 / 100

abbrev pub validator_part : ℕ → List ℕ → ℕ
validator_part reward validators = (reward - reward * 80 / 100) / length validators

-- What an address earns by a block.
abbrev pub earned : ℕ → ℕ → List ℕ → ℕ → ℕ
earned reward producer validators a =
    (if producer == a then producer_part reward validators else 0)
    + validator_part reward validators * times_paid producer validators a

alone :
    (reward producer : ℕ) (validators : List ℕ) (a : ℕ)
    → (length validators == 0) ≡ true
    → (if producer == a then reward else 0) ≡ earned reward producer validators a
unfolding times_paid count_if
alone reward producer [] a e = ground arith
alone reward producer (v ∷ rest) a e = absurd (ground arith)

module _ (l : Ledger) where
  open l use {State, get_balance, set_balance, get-set}

  shares-earned :
      (rc : RewardCalculator) (s t : State) (producer : ℕ) (validators : List ℕ) (a : ℕ)
      → (length validators == 0) ≡ false
      → distribute_shares l rc s producer validators ≡ (t, none)
      → balance l t a ≡ plus (balance l s a) (earned rc.reward_per_block producer validators a)
  unfolding distribute_shares
  shares-earned rc s t producer validators a some_validator h =
      let part = rc.reward_per_block * 80 / 100 in
      let share = validator_part rc.reward_per_block validators in
      elim (Result-cases (pay l s producer part)) [
        | inr (x, f) ↦ absurd (ground arith)
        | inl (u, f) ↦
            let mine = if producer == a then part else 0 in
            let first = balance-pay_added l s u producer part a f in
            let with_validators : mine
                ≡ (if producer == a then producer_part rc.reward_per_block validators else 0) =
              rw some_validator in
            let total =
              ap (λ (n : ℕ). plus (balance l s a) (n + share * times_paid producer validators a))
                with_validators in
            elim (Bool-cases (ltb 0 share)) [
              | inl positive ↦
                  let done : pay_validators l u producer share validators ≡ (t, none) =
                    ground arith in
                  let later =
                    balance-pay_validators l validators u producer share a
                      (ap (λ (x : State × Option Error). x.1) done) in
                  sym (ap (λ (x : State × Option Error). balance l x.0 a) done)
                  ∙ later
                  ∙ ap (λ z. plus z (share * times_paid producer validators a)) first
                  ∙ plus-plus (balance l s a) mine (share * times_paid producer validators a)
                  ∙ total
              | inr nothing ↦
                  let same : u ≡ t = ground arith in
                  let unpaid : share ≡ 0 = ground arith in
                  let no_share : mine ≡ mine + share * times_paid producer validators a =
                    rw unpaid (omega arith) in
                  sym (ap (λ x. balance l x a) same)
                  ∙ first
                  ∙ ap (plus (balance l s a)) no_share
                  ∙ total
            ]
      ]

  -- Where a block reward is distributed without an error, every address has its old balance and what it
  -- earned: the producer 80 percent, or all of it if there are no validators; every validator that is
  -- neither the producer nor the zero address an equal part of the rest for each time it is listed;
  -- and any other address nothing.
  pub distribute-earned :
      (rc : RewardCalculator) (s t : State) (producer : ℕ) (validators : List ℕ)
      → distribute_block_reward l rc (some s) producer validators ≡ (some t, none)
      → (a : ℕ)
      → balance l t a ≡ plus (balance l s a) (earned rc.reward_per_block producer validators a)
  unfolding distribute_block_reward
  distribute-earned rc s t producer validators h a = elim (Bool-cases (producer == 0)) [
    | inl zero_producer ↦ absurd (ground arith)
    | inr e ↦ elim (Bool-cases (length validators == 0)) [
      | inr f ↦ shares-earned rc s t producer validators a f (ground arith)
      | inl f ↦ elim (Result-cases (pay l s producer rc.reward_per_block)) [
        | inr (x, g) ↦ absurd (ground arith)
        | inl (u, g) ↦
            let same : u ≡ t = ground arith in
            sym (ap (λ x. balance l x a) same)
            ∙ balance-pay_added l s u producer rc.reward_per_block a g
            ∙ ap (plus (balance l s a)) (alone rc.reward_per_block producer validators a f)
      ]
    ]
  ]
