-- ===== src/Evm/Instructions/Copying.antt =====
-- state/runtime/evm/instructions.go: the instructions that read and write the memory.
use mainnet.Evm.{
  op_code_not_found, gas_uint_overflow, return_data_out_of_bounds, execution_reverted,
  slice_out_of_range, Frame, Host, Vm,
}
use mainnet.Evm.Machine.{
  halt, exit, consume_gas, push, pop, to_address, words, allocate_memory, get2, write, window,
  slice, bytes_of, value_of,
}
use mainnet.Common.{
  ℕ, ◌+◌, ◌*◌, ◌%◌, ◌^◌, true, false, ◌||◌, List, [], ◌∷◌, ltb, leb, ◌==◌, if◌then◌else◌, length,
}

module _ (host : Host) (f : Frame) where
  open host use {State}

  unfoldable pub op_mload : Vm State → Vm State
  op_mload c = pop c λ offset c. get2 offset 32 c λ bytes c. push (value_of 0 bytes) c

  unfoldable pub op_mstore : Vm State → Vm State
  op_mstore c =
      pop c
        λ offset c. pop c λ val c. allocate_memory offset 32 c λ c. write offset (bytes_of 32 val) c

  unfoldable pub op_mstore8 : Vm State → Vm State
  op_mstore8 c =
      pop c
        λ offset c. pop c λ val c. allocate_memory offset 1 c λ c. write offset (val % 256 ∷ []) c

  unfoldable pub op_sha3 : Vm State → Vm State
  op_sha3 c = pop c λ offset c. pop c λ size c.
      get2 offset size c
        λ bytes c. consume_gas (words (size % 2 ^ 64) * 6) c λ c. push (host.keccak256 bytes) c

  -- What the copies do behind their pops: memory, gas for the words, and the bytes.
  unfoldable pub copy_window : List ℕ → ℕ → ℕ → ℕ → Vm State → Vm State
  copy_window source mem_offset data_offset size c = elim (size == 0) [
    | true ↦ c
    | false ↦ write mem_offset (window source size data_offset) c
  ]

  unfoldable pub op_ext_code_copy : Vm State → Vm State
  op_ext_code_copy c = pop c λ address c. pop c λ mem_offset c. pop c λ code_offset c.
      pop c λ size c. allocate_memory mem_offset size c λ c. consume_gas (words size * 3) c λ c.
        consume_gas (if f.config.eip150 then 700 else 20) c λ c.
          copy_window (host.get_code c.world (to_address address)) mem_offset code_offset size c

  -- CALLDATACOPY and CODECOPY
  unfoldable pub op_copy : List ℕ → Vm State → Vm State
  op_copy source c = pop c λ mem_offset c. pop c λ data_offset c. pop c λ size c.
      allocate_memory mem_offset size c
        λ c. consume_gas (words size * 3) c λ c. copy_window source mem_offset data_offset size c

  abbrev pub op_call_data_copy : Vm State → Vm State
  op_call_data_copy c = op_copy f.msg.input c

  abbrev pub op_code_copy : Vm State → Vm State
  op_code_copy c = op_copy f.code c

  -- memory[offset:] panics behind the end of the memory.
  unfoldable pub copy_to : ℕ → List ℕ → Vm State → Vm State
  copy_to offset bytes c = elim (ltb (length c.memory) offset) [
    | true ↦ exit slice_out_of_range c
    | false ↦ write offset bytes c
  ]

  unfoldable pub return_data_copy : ℕ → ℕ → ℕ → Vm State → Vm State
  return_data_copy mem_offset data_offset size c =
      elim (leb (2 ^ 64) (data_offset + size) || ltb (length c.return_data) (data_offset + size)) [
        | true ↦ exit return_data_out_of_bounds c
        | false ↦ copy_to mem_offset (slice data_offset size c.return_data) c
      ]

  unfoldable pub op_return_data_copy : Vm State → Vm State
  op_return_data_copy c = elim f.config.byzantium [
    | false ↦ exit op_code_not_found c
    | true ↦ pop c λ mem_offset c. pop c λ data_offset c. pop c λ size c.
        allocate_memory mem_offset size c λ c. elim (leb (2 ^ 64) data_offset) [
          | true ↦ exit gas_uint_overflow c
          | false ↦
              consume_gas (words size * 3) c λ c. return_data_copy mem_offset data_offset size c
        ]
  ]

  abbrev pub returning : List ℕ → Vm State → Vm State
  returning bytes c = record c { ret = bytes }

  unfoldable pub op_return : Vm State → Vm State
  op_return c =
      pop c λ offset c. pop c λ size c. get2 offset size c λ bytes c. halt (returning bytes c)

  unfoldable pub op_revert : Vm State → Vm State
  op_revert c = elim f.config.byzantium [
    | false ↦ exit op_code_not_found c
    | true ↦ pop c λ offset c.
        pop c λ size c. get2 offset size c λ bytes c. exit execution_reverted (returning bytes c)
  ]
