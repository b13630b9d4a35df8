-- ===== src/Evm/Gas/Calls.antt =====
-- state/runtime/evm/instructions.go: what a call takes, with what it gives back.
use mainnet.Evm.{
  CallType, call, call_code, delegate_call, static_call, create, create2, Contract, Frame, Host, Vm,
  ExecutionResult, succeeded, is_revert,
}
use mainnet.Evm.Machine.{push, to_address}
use mainnet.Evm.Gas.{
  branch-Paid, Paid, paid, Pays, stops, pop-Pays, consume_gas-Gives, allocate_memory-Pays,
  get2-Pays, Paid-more,
}
use mainnet.Evm.Gas.Changes.{KeepsGas}
use mainnet.Evm.Instructions.Calls.{
  has_value, is_some_value, fresh_account_cost, call_cost, handed_on, call_contract, value_below,
  send_call, receive, after_call, build_call, pop_value, sends_value, is_missing_call, op_call,
}
use mainnet.Common.{
  ℕ, ◌+◌, ◌-◌, ◌%◌, ◌^◌, ◌≤◌, ◌≡◌, refl, inl, inr, Bool, true, false, ◌&&◌, ◌||◌, Option, none,
  some, List, [], arith, ltb, ◌==◌, if◌then◌else◌, Bool-cases, Option-cases, length,
}

module _ (host : Host) (f : Frame) where
  open host use {State}

  -- The gas of the contract that a call makes is the gas handed on with the stipend.
  call_contract-gas :
      (type : CallType) (addr : ℕ) (value : Option ℕ) (gas : ℕ) (args : List ℕ) (c : Vm State)
      → (call_contract host f type addr value gas args c).gas ≡ gas
  unfolding call_contract
  call_contract-gas call addr value gas args c = refl
  call_contract-gas call_code addr value gas args c = refl
  call_contract-gas delegate_call addr value gas args c = refl
  call_contract-gas static_call addr value gas args c = refl
  call_contract-gas create addr value gas args c = refl
  call_contract-gas create2 addr value gas args c = refl

  receive-gas :
      (offset size : ℕ) (value : List ℕ) (c : Vm State)
      → (receive host f offset size value c).gas ≡ c.gas
  unfolding receive
  receive-gas offset size value c = elim (Bool-cases (length value == 0)) [
    | inl e ↦ rw (e, receive) refl
    | inr e ↦ elim (Bool-cases (ltb (length c.memory) (offset + size))) [
      | inl g ↦ rw (e, g, receive) refl
      | inr g ↦ rw (e, g, receive) refl
    ]
  ]

  after_call-Pays :
      (offset size gas : ℕ) (result : ExecutionResult) (c : Vm State)
      → result.gas_left ≤ gas
      → Paid 0 (c.gas + gas) (after_call host f offset size result c)
  unfolding after_call
  after_call-Pays offset size gas result c h =
      elim (Bool-cases (succeeded result || is_revert result.error)) [
        | inl e ↦ paid (
            rw e (
              omega (
                arith,
                h,
                receive-gas offset size result.return_value
                    (push (if succeeded result then 1 else 0) c),
              )))
        | inr e ↦ paid (rw e (omega (arith, h)))
      ]

  bounded :
      (b e x : Bool) → (if b then (if e then 25000 else 0) else if x then 0 else 25000) ≤ 25000
  bounded true true x = omega arith
  bounded true false x = omega arith
  bounded false e true = omega arith
  bounded false e false = omega arith

  fresh_account_cost-bounded :
      (type : CallType) (addr : ℕ) (t : Bool) (c : Vm State)
      → fresh_account_cost host f type addr t c ≤ 25000
  fresh_account_cost-bounded call addr t c =
      bounded f.config.eip158 (t && host.is_empty c.world addr) (host.account_exists c.world addr)
  fresh_account_cost-bounded call_code addr t c = omega arith
  fresh_account_cost-bounded delegate_call addr t c = omega arith
  fresh_account_cost-bounded static_call addr t c = omega arith
  fresh_account_cost-bounded create addr t c = omega arith
  fresh_account_cost-bounded create2 addr t c = omega arith

  handed_on-bounded :
      (gas cost initial g : ℕ)
      → f.config.eip150 ≡ true
      → handed_on host f gas cost initial ≡ some g
      → g ≤ 2 ^ 64 - 2 ^ 58
  unfolding handed_on
  handed_on-bounded gas cost initial g fork h = ground (arith, fork, h)

  call_cost-bounds :
      (type : CallType) (addr : ℕ) (t : Bool) (c : Vm State)
      → f.config.eip150 ≡ true
      → (700 + (if t then 9000 else 0) ≤ call_cost host f type addr t c)
        × (call_cost host f type addr t c ≤ 34700)
  call_cost-bounds type addr true c fork =
      rw fork (omega arith, omega (arith, fresh_account_cost-bounded type addr true c))
  call_cost-bounds type addr false c fork =
      rw fork (omega arith, omega (arith, fresh_account_cost-bounded type addr false c))

  stipend-covered :
      (t : Bool) (cost g : ℕ)
      → 700 + (if t then 9000 else 0) ≤ cost
      → cost ≤ 34700
      → g ≤ 2 ^ 64 - 2 ^ 58
      → (if t then g + 2300 else g) + 1 ≤ (cost + g) % 2 ^ 64
  stipend-covered true cost g h k l = omega (arith, h, k, l)
  stipend-covered false cost g h k l = omega (arith, h, k, l)

  -- A continuation that gives back at most the gas of the contract.
  abbrev GivesBack : (Contract → Vm State → Vm State) → Type 0
  GivesBack next =
      (contract : Contract) (d : Vm State) → Paid 0 (d.gas + contract.gas) (next contract d)

  covered :
      (type : CallType) (addr : ℕ) (value : Option ℕ) (t : Bool) (cost g : ℕ) (args : List ℕ)
      (d : Vm State) (next : Contract → Vm State → Vm State)
      → 700 + (if t then 9000 else 0) ≤ cost
      → cost ≤ 34700
      → g ≤ 2 ^ 64 - 2 ^ 58
      → GivesBack next
      → Paid 1
          (d.gas + (cost + g) % 2 ^ 64)
          (next (call_contract host f type addr value (if t then g + 2300 else g) args d) d)
  covered type addr value t cost g args d next h k l gives =
      let stipend = if t then g + 2300 else g in
      let contract = call_contract host f type addr value stipend args d in
      Paid-more 1 (d.gas + contract.gas) (d.gas + (cost + g) % 2 ^ 64) (next contract d)
        (omega
          (arith, stipend-covered t cost g h k l, call_contract-gas type addr value stipend args d))
        (gives contract d)

  send_call-Pays :
      (type : CallType) (initial addr : ℕ) (value : Option ℕ) (args : List ℕ) (c : Vm State)
      (bad ready : Contract → Vm State → Vm State)
      → f.config.eip150 ≡ true
      → GivesBack bad
      → GivesBack ready
      → Paid 1 c.gas (send_call host f type initial addr value args c bad ready)
  unfolding send_call
  send_call-Pays type initial addr value args c bad ready fork gives_bad gives_ready =
      let t = has_value type && is_some_value value in
      let cost = call_cost host f type addr t c in
      let (least, most) = call_cost-bounds type addr t c fork in
      elim (Option-cases (handed_on host f c.gas cost initial)) [
        | inl e ↦ rw (e, send_call) (stops 1 c _ refl refl)
        | inr (g, e) ↦
            rw (e, send_call)
              (let small = handed_on-bounded c.gas cost initial g fork e in
                consume_gas-Gives 1 ((cost + g) % 2 ^ 64) c _ λ d.
                  branch-Paid
                    (t && value_below host f value (host.get_balance d.world f.msg.address))
                    (covered type addr value t cost g args d bad least most small gives_bad)
                    (covered type addr value t cost g args d ready least most small gives_ready))
      ]

  module _ (keeps_gas : KeepsGas host) (fork : f.config.eip150 ≡ true) where
    build_call-Pays :
        (type : CallType) (initial addr : ℕ) (value : Option ℕ) (c : Vm State)
        → Paid 1 c.gas (build_call host f type initial addr value c)
    unfolding build_call
    build_call-Pays type initial addr value c = pop-Pays 1 c _ λ in_offset c.
        pop-Pays 1 c _ λ in_size c. pop-Pays 1 c _ λ ret_offset c. pop-Pays 1 c _ λ ret_size c.
          get2-Pays 1 in_offset in_size c _ λ args c.
            allocate_memory-Pays 1 ret_offset ret_size c _ λ c.
              send_call-Pays type initial addr value args c _ _ fork
                (λ contract d. paid (omega arith))
                (λ contract d.
                  after_call-Pays ret_offset ret_size contract.gas (host.callx d.world contract).1
                    (record d { world = (host.callx d.world contract).0 })
                    (keeps_gas d.world contract))

    pop_value-Pays :
        (type : CallType) (c : Vm State) (next : Option ℕ → Vm State → Vm State)
        → ((v : Option ℕ) → Pays 1 (next v))
        → Paid 1 c.gas (pop_value host f type c next)
    pop_value-Pays call c next h = pop-Pays 1 c _ λ v c. h (some v) c
    pop_value-Pays call_code c next h = pop-Pays 1 c _ λ v c. h (some v) c
    pop_value-Pays delegate_call c next h = h none c
    pop_value-Pays static_call c next h = h none c
    pop_value-Pays create c next h = h none c
    pop_value-Pays create2 c next h = h none c

    pub op_call-Pays : (type : CallType) (c : Vm State) → Paid 1 c.gas (op_call host f type c)
    unfolding op_call
    op_call-Pays type start =
        let c = record start { return_data = [] } in
        branch-Paid (sends_value host f type c) (stops 1 c _ refl refl) (
          branch-Paid (is_missing_call host f type) (stops 1 c _ refl refl) (
            pop-Pays 1 c _ λ initial_gas c. pop-Pays 1 c _ λ addr c.
              pop_value-Pays type c _
                λ value c. build_call-Pays type initial_gas (to_address addr) value c))
