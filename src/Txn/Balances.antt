-- ===== src/Txn/Balances.antt =====
-- state/txn.go: what the operations on balances do to every account.
use mainnet.Txn.{StateObject, Env, Txn}
use mathlib.Core.Option.{some-injective, none-ne-some}
use mainnet.Txn.Trees.{IsTree, or_new, object-upsert, object-upsert_other}
use mainnet.Txn.Accounts.{
  get_state_object, upsert_account, with_balance, balance_of, get_balance, add_balance, sub_balance,
}
use mainnet.Common.{
  ℕ, ◌+◌, ◌-◌, ◌<◌, ◌≡◌, refl, sym, ap, ◌∙◌, subst, ◌↔◌, inl, inr, true, false, Option, none, some,
  arith, ltb, ◌==◌, if◌then◌else◌, ==_iff, Bool-cases,
}

module _ (env : Env) where
  -- The ways of SubBalance.
  pub sub_nothing :
      (addr amount : ℕ) (t : Txn env)
      → (amount == 0) ≡ true
      → sub_balance env addr amount t ≡ some t
  unfolding sub_balance
  sub_nothing addr amount t e = rw (e, sub_balance) refl

  pub sub_short :
      (addr amount : ℕ) (t : Txn env)
      → (amount == 0) ≡ false
      → ltb (get_balance env addr t) amount ≡ true
      → sub_balance env addr amount t ≡ none
  unfolding sub_balance
  sub_short addr amount t e l = rw (e, l, sub_balance) refl

  pub sub_enough :
      (addr amount : ℕ) (t : Txn env)
      → (amount == 0) ≡ false
      → ltb (get_balance env addr t) amount ≡ false
      → sub_balance env addr amount t
        ≡ some (upsert_account env addr (with_balance env (λ b. b - amount)) t)
  unfolding sub_balance
  sub_enough addr amount t e l = rw (e, l, sub_balance) refl

module _ (env : Env) (trees : IsTree env.radix) where
  balance-or_new :
      (o : Option (StateObject env.slot_tree.Tree))
      → (or_new env trees o).account.balance ≡ balance_of env o
  balance-or_new none = refl
  balance-or_new (some obj) = refl

  -- A change of one balance.
  get_balance-upsert :
      (addr a : ℕ) (f : ℕ → ℕ) (t : Txn env)
      → get_balance env a (upsert_account env addr (with_balance env f) t)
        ≡ (if a == addr then f (get_balance env a t) else get_balance env a t)
  unfolding get_balance
  get_balance-upsert addr a f t = elim (Bool-cases (a == addr)) [
    | inl e ↦ rw e (
        subst
          (λ x.
            get_balance env x (upsert_account env addr (with_balance env f) t)
            ≡ f (get_balance env x t))
          (sym ((==_iff a addr).0 e))
          (ap (balance_of env) (object-upsert env trees addr (with_balance env f) t λ o h. h)
            ∙ ap f (balance-or_new (get_state_object env addr t))))
    | inr e ↦ rw e (
        ap (balance_of env)
          (object-upsert_other env trees addr a (with_balance env f) t (ground (arith, e))))
  ]

  get_balance-sub :
      (addr a amount : ℕ) (t u : Txn env)
      → sub_balance env addr amount t ≡ some u
      → get_balance env a u + (if a == addr then amount else 0) ≡ get_balance env a t
  get_balance-sub addr a amount t u h = elim (Bool-cases (amount == 0)) [
    | inl e ↦
        subst (λ x. get_balance env a x + (if a == addr then amount else 0) ≡ get_balance env a t)
          (some-injective t u (sym (sub_nothing env addr amount t e) ∙ h)) (ground (arith, e))
    | inr e ↦ elim (Bool-cases (ltb (get_balance env addr t) amount)) [
      | inl l ↦ absurd (none-ne-some u (sym (sub_short env addr amount t e l) ∙ h))
      | inr l ↦
          subst (λ x. get_balance env a x + (if a == addr then amount else 0) ≡ get_balance env a t)
            (some-injective _ u (sym (sub_enough env addr amount t e l) ∙ h))
            (restored a (get_balance-upsert addr a (λ b. b - amount) t) l)
    ]
  ]
    where
      restored :
          (a : ℕ)
          → get_balance env a (upsert_account env addr (with_balance env (λ b. b - amount)) t)
            ≡ (if a == addr then get_balance env a t - amount else get_balance env a t)
          → ltb (get_balance env addr t) amount ≡ false
          → get_balance env a (upsert_account env addr (with_balance env (λ b. b - amount)) t)
              + (if a == addr then amount else 0)
            ≡ get_balance env a t
      restored a h l = elim (Bool-cases (a == addr)) [
        | inl e ↦
            let same_account : get_balance env a t ≡ get_balance env addr t =
              ap (λ x. get_balance env x t) ((==_iff a addr).0 e) in
            rw e (ground (arith, h, l, e, same_account))
        | inr e ↦ rw e (ground (arith, h, e))
      ]

  get_balance-add :
      (addr a amount : ℕ) (t : Txn env)
      → get_balance env a (add_balance env addr amount t)
        ≡ get_balance env a t + (if a == addr then amount else 0)
  unfolding add_balance
  get_balance-add addr a amount t = elim (Bool-cases (a == addr)) [
    | inl e ↦ rw e (ground (arith, get_balance-upsert addr a (λ b. b + amount) t, e))
    | inr e ↦ rw e (ground (arith, get_balance-upsert addr a (λ b. b + amount) t, e))
  ]

  -- Where SubBalance takes an amount from one account and AddBalance gives it to another, or to the same:
  -- the balance of every account loses what the one paid and gains what the other got.
  pub add_balance-sub_balance :
      (payer payee a amount : ℕ) (t u : Txn env)
      → sub_balance env payer amount t ≡ some u
      → get_balance env a (add_balance env payee amount u) + (if a == payer then amount else 0)
        ≡ get_balance env a t + (if a == payee then amount else 0)
  add_balance-sub_balance payer payee a amount t u h =
      omega (arith, get_balance-add payee a amount u, get_balance-sub payer a amount t u h)

  -- SubBalance fails exactly where the balance is too small.
  pub sub_balance-none_iff :
      (addr amount : ℕ) (t : Txn env)
      → (sub_balance env addr amount t ≡ none) ↔ (get_balance env addr t < amount)
  sub_balance-none_iff addr amount t = elim (Bool-cases (amount == 0)) [
    | inl e ↦ (
      λ h. absurd (none-ne-some t (sym h ∙ sub_nothing env addr amount t e)),
      λ l. absurd (ground (arith, e, l)),
    )
    | inr e ↦ elim (Bool-cases (ltb (get_balance env addr t) amount)) [
      | inl l ↦ (λ h. ground (arith, l), λ k. sub_short env addr amount t e l)
      | inr l ↦ (
        λ h. absurd (none-ne-some _ (sym h ∙ sub_enough env addr amount t e l)),
        λ k. absurd (ground (arith, l, k)),
      )
    ]
  ]
