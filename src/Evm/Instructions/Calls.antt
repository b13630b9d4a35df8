-- ===== src/Evm/Instructions/Calls.antt =====
-- state/runtime/evm/instructions.go: calls of other contracts and their creation.
use mainnet.Evm.{
  out_of_gas, op_code_not_found, write_protection, slice_out_of_range, Forks, CallType, call,
  call_code, delegate_call, static_call, create, create2, Contract, ExecutionResult, succeeded,
  is_revert, new_contract_call, Frame, Host, Vm,
}
use mainnet.Evm.Machine.{
  exit, consume_gas, push, pop, to_address, allocate_memory, get2, write, take,
}
use mainnet.Common.{
  ℕ, ◌+◌, ◌-◌, ◌/◌, ◌%◌, ◌^◌, Bool, true, false, not, ◌&&◌, ◌||◌, Option, none, some, List, [], ltb,
  leb, ◌==◌, if◌then◌else◌, length, get_elem?,
}

-- c.gas += n, in a uint64.
abbrev pub refund : {World : Type 0} → ℕ → Vm World → Vm World
refund n c = record c { gas = (c.gas + n) % 2 ^ 64 }

abbrev pub is_call : CallType → Bool
is_call call = true
is_call _ = false

-- CALL and CALLCODE, which have a value.
abbrev pub has_value : CallType → Bool
has_value call = true
has_value call_code = true
has_value _ = false

abbrev pub is_some_value : Option ℕ → Bool
is_some_value none = false
is_some_value (some v) = not (v == 0)

-- All but one 64th.
abbrev pub all_but_64th : ℕ → ℕ
all_but_64th gas = gas - gas / 64

module _ (host : Host) (f : Frame) where
  open host use {State}

  abbrev config : Forks
  config = f.config

  abbrev pub fresh_account_cost : CallType → ℕ → Bool → Vm State → ℕ
  fresh_account_cost call addr transfers_value c =
      if config.eip158
      then (if transfers_value && host.is_empty c.world addr then 25000 else 0)
      else if host.account_exists c.world addr
      then 0
      else 25000
  fresh_account_cost _ addr transfers_value c = 0

  -- The cost of a call without the gas that it hands on.
  abbrev pub call_cost : CallType → ℕ → Bool → Vm State → ℕ
  call_cost type addr transfers_value c =
      (if config.eip150 then 700 else 40)
      + fresh_account_cost type addr transfers_value c
      + (if transfers_value then 9000 else 0)

  -- The gas that a call hands on: `none` is out of gas. c.gas - gasCost wraps around.
  unfoldable pub handed_on : ℕ → ℕ → ℕ → Option ℕ
  handed_on gas gas_cost initial_gas =
      let available = all_but_64th ((gas + 2 ^ 64 - gas_cost) % 2 ^ 64) in
      if config.eip150
      then (if leb (2 ^ 64) initial_gas || ltb available initial_gas
          then some available
          else some initial_gas)
      else if leb (2 ^ 64) initial_gas
      then none
      else some initial_gas

  -- The contract that runs: the code of the address, in whose place the type of the call says.
  unfoldable pub call_contract : CallType → ℕ → Option ℕ → ℕ → List ℕ → Vm State → Contract
  call_contract type addr value gas args c =
      let made =
        new_contract_call type (f.msg.depth + 1) f.msg.origin f.msg.address addr value gas
          (host.get_code c.world addr) args in
      elim type [
        | call ↦ record made { static = f.msg.static }
        | static_call ↦ record made { static = true }
        | call_code ↦ record made { static = f.msg.static; address = f.msg.address }
        | delegate_call ↦ record made {
          static = f.msg.static;
          address = f.msg.address;
          value = f.msg.value;
          caller = f.msg.caller;
        }
        | create ↦ made
        | create2 ↦ made
      ]

  abbrev pub value_below : Option ℕ → ℕ → Bool
  value_below none balance = false
  value_below (some v) balance = ltb balance v

  -- The end of buildCallContract, and what opCall does with its result: `bad` for the error "bad".
  unfoldable pub send_call :
      CallType
      → ℕ
      → ℕ
      → Option ℕ
      → List ℕ
      → Vm State
      → (Contract → Vm State → Vm State)
      → (Contract → Vm State → Vm State)
      → Vm State
  send_call type initial_gas addr value args c bad ready =
      let transfers_value = has_value type && is_some_value value in
      let gas_cost = call_cost type addr transfers_value c in
      elim (handed_on c.gas gas_cost initial_gas) [
        | none ↦ exit out_of_gas c
        | some gas ↦ consume_gas ((gas_cost + gas) % 2 ^ 64) c λ c.
            let stipend = if transfers_value then gas + 2300 else gas in
            let contract = call_contract type addr value stipend args c in
            elim (transfers_value && value_below value (host.get_balance c.world f.msg.address)) [
              | true ↦ bad contract c
              | false ↦ ready contract c
            ]
      ]

  -- The memory that receives what a call returns. A slice that starts behind the memory panics.
  unfoldable pub receive : ℕ → ℕ → List ℕ → Vm State → Vm State
  receive offset size value c = elim (length value == 0) [
    | true ↦ c
    | false ↦ elim (ltb (length c.memory) (offset + size)) [
      | true ↦ exit slice_out_of_range c
      | false ↦ write offset (take size value) c
    ]
  ]

  -- What opCall does with the result of the host.
  unfoldable pub after_call : ℕ → ℕ → ExecutionResult → Vm State → Vm State
  after_call offset size result c =
      let pushed = push (if succeeded result then 1 else 0) c in
      let received =
        if succeeded result || is_revert result.error
        then receive offset size result.return_value pushed
        else pushed in
      let refunded = refund result.gas_left received in
      record refunded { return_data = result.return_value }

  abbrev pub failed_call : Contract → Vm State → Vm State
  failed_call contract c = refund contract.gas (push 0 c)

  abbrev pub done_call : ℕ → ℕ → Contract → Vm State → Vm State
  done_call offset size contract c =
      let (world, result) = host.callx c.world contract in
      after_call offset size result (record c { world = world })

  -- The pops of buildCallContract behind the value, and the rest of it.
  unfoldable pub build_call : CallType → ℕ → ℕ → Option ℕ → Vm State → Vm State
  build_call type initial_gas addr value c = pop c λ in_offset c. pop c λ in_size c.
      pop c λ ret_offset c. pop c λ ret_size c. get2 in_offset in_size c λ args c.
        allocate_memory ret_offset ret_size c λ c.
          send_call type initial_gas addr value args c failed_call (done_call ret_offset ret_size)

  abbrev pub pop_value : CallType → Vm State → (Option ℕ → Vm State → Vm State) → Vm State
  pop_value call c next = pop c λ v c. next (some v) c
  pop_value call_code c next = pop c λ v c. next (some v) c
  pop_value _ c next = next none c

  -- Static calls may not send a value: peekAt(3).
  abbrev pub sends_value : CallType → Vm State → Bool
  sends_value type c = is_call type && f.msg.static && is_some_value (get_elem? c.stack 2)

  abbrev pub is_missing_call : CallType → Bool
  is_missing_call delegate_call = not config.homestead
  is_missing_call static_call = not config.byzantium
  is_missing_call _ = false

  unfoldable pub op_call : CallType → Vm State → Vm State
  op_call type start =
      let c = record start { return_data = [] } in
      elim (sends_value type c) [
        | true ↦ exit write_protection c
        | false ↦ elim (is_missing_call type) [
          | true ↦ exit op_code_not_found c
          | false ↦ pop c λ initial_gas c. pop c λ addr c.
              pop_value type c λ value c. build_call type initial_gas (to_address addr) value c
        ]
      ]
