-- ===== src/Evm/Instructions/Creation.antt =====
-- state/runtime/evm/instructions.go: opCreate and buildCreateContract.
use mainnet.Evm.{
  op_code_not_found, write_protection, create, Contract, ExecutionResult, is_revert,
  is_code_store_out_of_gas, succeeded, new_contract_call, Frame, Host, Vm,
}
use mainnet.Evm.Machine.{exit, consume_gas, push, pop, words, get2}
use mainnet.Evm.Instructions.Calls.{refund, all_but_64th}
use mainnet.Common.{
  ℕ, ◌+◌, ◌*◌, ◌%◌, ◌^◌, Bool, true, false, not, ◌&&◌, ◌||◌, some, List, [], ltb, ◌==◌,
  if◌then◌else◌,
}

module _ (host : Host) (f : Frame) where
  open host use {State}

  -- The address, or 0 where the creation failed.
  abbrev pub created : Bool → ℕ → ExecutionResult → ℕ
  created is_create2 address result =
      if not is_create2 && f.config.homestead && is_code_store_out_of_gas result.error
      then 0
      else if not (succeeded result) && not (is_code_store_out_of_gas result.error)
      then 0
      else address

  unfoldable pub after_create : Bool → ℕ → ExecutionResult → Vm State → Vm State
  after_create is_create2 address result c =
      let refunded = refund result.gas_left (push (created is_create2 address result) c) in
      if is_revert result.error
      then record refunded { return_data = result.return_value }
      else refunded

  abbrev pub run_create : Bool → Contract → Vm State → Vm State
  run_create is_create2 contract c =
      let (world, result) = host.callx c.world contract in
      after_create is_create2 contract.address result (record c { world = world })

  abbrev pub new_address : Bool → ℕ → List ℕ → Vm State → ℕ
  new_address true salt input c = host.create_address2 f.msg.address salt input
  new_address false salt input c =
      host.create_address f.msg.address (host.get_nonce c.world f.msg.address)

  -- The gas of the hash of CREATE2, and all the gas or all but one 64th for the contract.
  unfoldable pub pay_create : Bool → ℕ → ℕ → ℕ → List ℕ → Vm State → Vm State
  pay_create is_create2 value size salt input c =
      consume_gas (if is_create2 then words (size % 2 ^ 64) * 6 else 0) c λ c.
        let gas = if f.config.eip150 || is_create2 then all_but_64th c.gas else c.gas in
        consume_gas gas c λ c.
          run_create is_create2
            (new_contract_call create (f.msg.depth + 1) f.msg.origin f.msg.address
              (new_address is_create2 salt input c) (some value) gas input [])
            c

  -- A value that the balance does not cover is the error "bad", with no contract.
  unfoldable pub build_create : Bool → ℕ → ℕ → ℕ → ℕ → Vm State → Vm State
  build_create is_create2 value offset size salt c = get2 offset size c λ input c.
      consume_gas 0 c λ c.
        elim (not (value == 0) && ltb (host.get_balance c.world f.msg.address) value) [
          | true ↦ push 0 c
          | false ↦ pay_create is_create2 value size salt input c
        ]

  abbrev pub pop_salt : Bool → Vm State → (ℕ → Vm State → Vm State) → Vm State
  pop_salt true c next = pop c next
  pop_salt false c next = next 0 c

  unfoldable pub op_create : Bool → Vm State → Vm State
  op_create is_create2 c = elim f.msg.static [
    | true ↦ exit write_protection c
    | false ↦ elim (is_create2 && not f.config.constantinople) [
      | true ↦ exit op_code_not_found c
      | false ↦
          pop (record c { return_data = [] })
            λ value c. pop c λ offset c. pop c λ size c.
              pop_salt is_create2 c λ salt c. build_create is_create2 value offset size salt c
    ]
  ]
