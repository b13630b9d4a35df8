-- ===== src/Evm/Gas/Rounds.antt =====
-- state/runtime/evm/state.go: what a round of the loop takes.
use mainnet.Evm.{call, call_code, delegate_call, static_call, Frame, Host, Vm}
use mainnet.Evm.Dispatch.{
  code_stop, code_add, code_mul, code_sub, code_div, code_sdiv, code_mod, code_smod, code_addmod,
  code_mulmod, code_exp, code_signextend, code_lt, code_gt, code_slt, code_sgt, code_eq,
  code_iszero, code_and, code_or, code_xor, code_not, code_byte, code_shl, code_shr, code_sar,
  code_sha3, code_address, code_balance, code_origin, code_caller, code_callvalue,
  code_calldataload, code_calldatasize, code_calldatacopy, code_codesize, code_codecopy,
  code_gasprice, code_extcodesize, code_extcodecopy, code_returndatasize, code_returndatacopy,
  code_extcodehash, code_blockhash, code_coinbase, code_timestamp, code_number, code_difficulty,
  code_gaslimit, code_chainid, code_selfbalance, code_pop, code_mload, code_mstore, code_mstore8,
  code_sload, code_sstore, code_jump, code_jumpi, code_pc, code_msize, code_gas, code_jumpdest,
  code_create, code_call, code_callcode, code_return, code_delegatecall, code_create2,
  code_staticcall, code_revert, code_selfdestruct, code_push, code_dup, code_swap, code_log,
  dispatch, stack_depth, base_gas, execute, OpCode,
}
use mainnet.Evm.Run.{stack_size, advance, run_op, perform, perform_known, round}
use mainnet.Evm.Gas.{
  if-Paid, branch-Paid, option-Paid, Paid, halted, paid, keeps, stops, consume_gas-Pays,
  Paid-weaken,
}
use mainnet.Evm.Gas.Plain.{
  binary-Pays, op_dup-Pays, op_exp-Pays, op_jump-Pays, op_jumpi-Pays, op_pop-Pays, op_push-Pays,
  op_sign_extension-Pays, op_swap-Pays, since_constantinople-Pays, ternary-Pays, unary-Pays,
}
use mainnet.Evm.Gas.Memory.{
  op_balance-Pays, op_block_hash-Pays, op_call_data_load-Pays, op_chain_id-Pays, op_copy-Pays,
  op_ext_code_copy-Pays, op_ext_code_hash-Pays, op_ext_code_size-Pays, op_mload-Pays,
  op_mstore-Pays, op_mstore8-Pays, op_return-Pays, op_return_data_copy-Pays,
  op_return_data_size-Pays, op_revert-Pays, op_self_balance-Pays, op_sha3-Pays,
}
use mainnet.Evm.Gas.Changes.{
  KeepsGas, op_create-Pays, op_log-Pays, op_selfdestruct-Pays, op_sload-Pays, op_sstore-Pays,
}
use mainnet.Evm.Gas.Calls.{op_call-Pays}
use mainnet.Common.{
  ℕ, ◌+◌, ◌-◌, ◌≡◌, refl, true, false, Option, none, some, arith, ltb, length, get_elem?,
}

module _ (host : Host) (f : Frame) (keeps_gas : KeepsGas host) (fork : f.config.eip150 ≡ true) where
  open host use {State}

  -- What is free before it runs takes gas while it runs, or stops the machine.
  execute-Pays : (op : OpCode) (c : Vm State) → Paid (1 - base_gas op) c.gas (execute host f op c)
  unfolding execute base_gas
  execute-Pays code_stop c = stops 1 c _ refl refl
  execute-Pays code_add c = binary-Pays _ c
  execute-Pays code_mul c = binary-Pays _ c
  execute-Pays code_sub c = binary-Pays _ c
  execute-Pays code_div c = binary-Pays _ c
  execute-Pays code_sdiv c = binary-Pays _ c
  execute-Pays code_mod c = binary-Pays _ c
  execute-Pays code_smod c = binary-Pays _ c
  execute-Pays code_addmod c = ternary-Pays _ c
  execute-Pays code_mulmod c = ternary-Pays _ c
  execute-Pays code_exp c = op_exp-Pays f.config c
  execute-Pays code_signextend c = op_sign_extension-Pays c
  execute-Pays code_lt c = binary-Pays _ c
  execute-Pays code_gt c = binary-Pays _ c
  execute-Pays code_slt c = binary-Pays _ c
  execute-Pays code_sgt c = binary-Pays _ c
  execute-Pays code_eq c = binary-Pays _ c
  execute-Pays code_iszero c = unary-Pays _ c
  execute-Pays code_and c = binary-Pays _ c
  execute-Pays code_or c = binary-Pays _ c
  execute-Pays code_xor c = binary-Pays _ c
  execute-Pays code_not c = unary-Pays _ c
  execute-Pays code_byte c = binary-Pays _ c
  execute-Pays code_shl c = since_constantinople-Pays 0 f.config _ (binary-Pays _) c
  execute-Pays code_shr c = since_constantinople-Pays 0 f.config _ (binary-Pays _) c
  execute-Pays code_sar c = since_constantinople-Pays 0 f.config _ (binary-Pays _) c
  execute-Pays code_sha3 c = op_sha3-Pays host f c
  execute-Pays code_address c = keeps c _ refl
  execute-Pays code_balance c = op_balance-Pays host f c
  execute-Pays code_origin c = keeps c _ refl
  execute-Pays code_caller c = keeps c _ refl
  execute-Pays code_callvalue c = keeps c _ refl
  execute-Pays code_calldataload c = op_call_data_load-Pays host f c
  execute-Pays code_calldatasize c = keeps c _ refl
  execute-Pays code_calldatacopy c = op_copy-Pays host f _ c
  execute-Pays code_codesize c = keeps c _ refl
  execute-Pays code_codecopy c = op_copy-Pays host f _ c
  execute-Pays code_gasprice c = keeps c _ refl
  execute-Pays code_extcodesize c = op_ext_code_size-Pays host f c
  execute-Pays code_extcodecopy c = op_ext_code_copy-Pays host f c
  execute-Pays code_returndatasize c = op_return_data_size-Pays host f c
  execute-Pays code_returndatacopy c = op_return_data_copy-Pays host f c
  execute-Pays code_extcodehash c = op_ext_code_hash-Pays host f c
  execute-Pays code_blockhash c = op_block_hash-Pays host f c
  execute-Pays code_coinbase c = keeps c _ refl
  execute-Pays code_timestamp c = keeps c _ refl
  execute-Pays code_number c = keeps c _ refl
  execute-Pays code_difficulty c = keeps c _ refl
  execute-Pays code_gaslimit c = keeps c _ refl
  execute-Pays code_chainid c = op_chain_id-Pays host f c
  execute-Pays code_selfbalance c = op_self_balance-Pays host f c
  execute-Pays code_pop c = op_pop-Pays c
  execute-Pays code_mload c = op_mload-Pays host f c
  execute-Pays code_mstore c = op_mstore-Pays host f c
  execute-Pays code_mstore8 c = op_mstore8-Pays host f c
  execute-Pays code_sload c = op_sload-Pays host f c
  execute-Pays code_sstore c = op_sstore-Pays host f c
  execute-Pays code_jump c = op_jump-Pays f c
  execute-Pays code_jumpi c = op_jumpi-Pays f c
  execute-Pays code_pc c = keeps c _ refl
  execute-Pays code_msize c = keeps c _ refl
  execute-Pays code_gas c = keeps c _ refl
  execute-Pays code_jumpdest c = keeps c _ refl
  execute-Pays code_create c = op_create-Pays host f keeps_gas false c
  execute-Pays code_call c = op_call-Pays host f keeps_gas fork call c
  execute-Pays code_callcode c = op_call-Pays host f keeps_gas fork call_code c
  execute-Pays code_return c = op_return-Pays host f c
  execute-Pays code_delegatecall c = op_call-Pays host f keeps_gas fork delegate_call c
  execute-Pays code_create2 c = op_create-Pays host f keeps_gas true c
  execute-Pays code_staticcall c = op_call-Pays host f keeps_gas fork static_call c
  execute-Pays code_revert c = op_revert-Pays host f c
  execute-Pays code_selfdestruct c = op_selfdestruct-Pays host f c
  execute-Pays (code_push n) c = op_push-Pays f n c
  execute-Pays (code_dup n) c = op_dup-Pays n c
  execute-Pays (code_swap n) c = op_swap-Pays n c
  execute-Pays (code_log n) c = op_log-Pays host f n c

  advance-Pays : (n gas : ℕ) (c : Vm State) → Paid n gas c → Paid n gas (advance host f c)
  advance-Pays n gas c (halted s l) =
      if-Paid (ltb stack_size (length c.stack)) (halted refl l) (halted s l)
  advance-Pays n gas c (paid l) = if-Paid (ltb stack_size (length c.stack)) (paid l) (paid l)

  run_op-Pays : (op : OpCode) (c : Vm State) → Paid 1 c.gas (run_op host f op c)
  run_op-Pays op c =
      Paid-weaken 1 (base_gas op + (1 - base_gas op)) c.gas (run_op host f op c) (omega arith) (
        consume_gas-Pays (1 - base_gas op) (base_gas op) c _
          λ c. advance-Pays (1 - base_gas op) c.gas (execute host f op c) (execute-Pays op c))

  perform-Pays : (op : OpCode) (c : Vm State) → Paid 1 c.gas (perform host f op c)
  unfolding perform
  perform-Pays op c =
      branch-Paid (ltb (length c.stack) (stack_depth op)) (stops 1 c _ refl refl) (run_op-Pays op c)

  perform_known-Pays :
      (op : Option OpCode) (c : Vm State) → Paid 1 c.gas (perform_known host f op c)
  perform_known-Pays none c = stops 1 c _ refl refl
  perform_known-Pays (some op) c = perform-Pays op c

  pub round-Pays : (c : Vm State) → Paid 1 c.gas (round host f c)
  unfolding round
  round-Pays c =
      option-Paid (get_elem? f.code c.ip) (stops 1 c _ refl refl)
        λ b. perform_known-Pays (dispatch b) c
