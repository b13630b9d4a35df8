-- ===== src/Evm/Safety/Rounds.antt =====
-- state/runtime/evm/dispatch_table.go and state.go: the words that an instruction is registered with
-- are the words that its handler pops.
use mainnet.Evm.{nil_dereference, call, call_code, delegate_call, static_call, Frame, Host, Vm}
use mainnet.Evm.Dispatch.{
  code_stop, code_add, code_mul, code_sub, code_div, code_sdiv, code_mod, code_smod, code_addmod,
  code_mulmod, code_exp, code_signextend, code_lt, code_gt, code_slt, code_sgt, code_eq,
  code_iszero, code_and, code_or, code_xor, code_not, code_byte, code_shl, code_shr, code_sar,
  code_sha3, code_address, code_balance, code_origin, code_caller, code_callvalue,
  code_calldataload, code_calldatasize, code_calldatacopy, code_codesize, code_codecopy,
  code_gasprice, code_extcodesize, code_extcodecopy, code_returndatasize, code_returndatacopy,
  code_extcodehash, code_blockhash, code_coinbase, code_timestamp, code_number, code_difficulty,
  code_gaslimit, code_chainid, code_selfbalance, code_pop, code_mload, code_mstore, code_mstore8,
  code_sload, code_sstore, code_jump, code_jumpi, code_pc, code_msize, code_gas, code_jumpdest,
  code_create, code_call, code_callcode, code_return, code_delegatecall, code_create2,
  code_staticcall, code_revert, code_selfdestruct, code_push, code_dup, code_swap, code_log,
  dispatch, stack_depth, base_gas, execute, OpCode,
}
use mainnet.Evm.Run.{stack_size, run_op, perform, perform_known, round, run_loop, initial}
use mathlib.Core.Bool.{true≢false}
use mainnet.Evm.Safety.{
  reads_nil, NoNil, clean, kept, SafeWith, branch-NoNil, if-NoNil, option-NoNil, consume_gas-Safe,
}
use mainnet.Evm.Safety.Plain.{
  binary-Safe, op_dup-Safe, op_exp-Safe, op_jump-Safe, op_jumpi-Safe, op_pop-Safe, op_push-Safe,
  op_sign_extension-Safe, op_swap-Safe, since_constantinople-Safe, ternary-Safe, unary-Safe,
}
use mainnet.Evm.Safety.Memory.{
  op_balance-Safe, op_block_hash-Safe, op_call_data_load-Safe, op_chain_id-Safe, op_copy-Safe,
  op_ext_code_copy-Safe, op_ext_code_hash-Safe, op_ext_code_size-Safe, op_mload-Safe,
  op_mstore-Safe, op_mstore8-Safe, op_return-Safe, op_return_data_copy-Safe,
  op_return_data_size-Safe, op_revert-Safe, op_self_balance-Safe, op_sha3-Safe,
}
use mainnet.Evm.Safety.Changes.{
  op_call-Safe, op_create-Safe, op_log-Safe, op_selfdestruct-Safe, op_sload-Safe, op_sstore-Safe,
}
use mainnet.Common.{
  ℕ, zero, suc, refl, sym, ap, ◌∙◌, ◌≢◌, inl, inr, true, false, Option, none, some, arith, ltb,
  Bool-cases, length, get_elem?,
}

module _ (host : Host) (f : Frame) where
  open host use {State}

  execute-Safe : (op : OpCode) → SafeWith (stack_depth op) (execute host f op)
  unfolding execute stack_depth
  execute-Safe code_stop = λ c l e. kept e refl
  execute-Safe code_add = binary-Safe _
  execute-Safe code_mul = binary-Safe _
  execute-Safe code_sub = binary-Safe _
  execute-Safe code_div = binary-Safe _
  execute-Safe code_sdiv = binary-Safe _
  execute-Safe code_mod = binary-Safe _
  execute-Safe code_smod = binary-Safe _
  execute-Safe code_addmod = ternary-Safe _
  execute-Safe code_mulmod = ternary-Safe _
  execute-Safe code_exp = op_exp-Safe f.config
  execute-Safe code_signextend = op_sign_extension-Safe
  execute-Safe code_lt = binary-Safe _
  execute-Safe code_gt = binary-Safe _
  execute-Safe code_slt = binary-Safe _
  execute-Safe code_sgt = binary-Safe _
  execute-Safe code_eq = binary-Safe _
  execute-Safe code_iszero = unary-Safe _
  execute-Safe code_and = binary-Safe _
  execute-Safe code_or = binary-Safe _
  execute-Safe code_xor = binary-Safe _
  execute-Safe code_not = unary-Safe _
  execute-Safe code_byte = binary-Safe _
  execute-Safe code_shl = since_constantinople-Safe 2 f.config _ (binary-Safe _)
  execute-Safe code_shr = since_constantinople-Safe 2 f.config _ (binary-Safe _)
  execute-Safe code_sar = since_constantinople-Safe 2 f.config _ (binary-Safe _)
  execute-Safe code_sha3 = op_sha3-Safe host f
  execute-Safe code_address = λ c l e. kept e refl
  execute-Safe code_balance = op_balance-Safe host f
  execute-Safe code_origin = λ c l e. kept e refl
  execute-Safe code_caller = λ c l e. kept e refl
  execute-Safe code_callvalue = λ c l e. kept e refl
  execute-Safe code_calldataload = op_call_data_load-Safe host f
  execute-Safe code_calldatasize = λ c l e. kept e refl
  execute-Safe code_calldatacopy = op_copy-Safe host f _
  execute-Safe code_codesize = λ c l e. kept e refl
  execute-Safe code_codecopy = op_copy-Safe host f _
  execute-Safe code_gasprice = λ c l e. kept e refl
  execute-Safe code_extcodesize = op_ext_code_size-Safe host f
  execute-Safe code_extcodecopy = op_ext_code_copy-Safe host f
  execute-Safe code_returndatasize = op_return_data_size-Safe host f
  execute-Safe code_returndatacopy = op_return_data_copy-Safe host f
  execute-Safe code_extcodehash = op_ext_code_hash-Safe host f
  execute-Safe code_blockhash = op_block_hash-Safe host f
  execute-Safe code_coinbase = λ c l e. kept e refl
  execute-Safe code_timestamp = λ c l e. kept e refl
  execute-Safe code_number = λ c l e. kept e refl
  execute-Safe code_difficulty = λ c l e. kept e refl
  execute-Safe code_gaslimit = λ c l e. kept e refl
  execute-Safe code_chainid = op_chain_id-Safe host f
  execute-Safe code_selfbalance = op_self_balance-Safe host f
  execute-Safe code_pop = op_pop-Safe
  execute-Safe code_mload = op_mload-Safe host f
  execute-Safe code_mstore = op_mstore-Safe host f
  execute-Safe code_mstore8 = op_mstore8-Safe host f
  execute-Safe code_sload = op_sload-Safe host f
  execute-Safe code_sstore = op_sstore-Safe host f
  execute-Safe code_jump = op_jump-Safe f
  execute-Safe code_jumpi = op_jumpi-Safe f
  execute-Safe code_pc = λ c l e. kept e refl
  execute-Safe code_msize = λ c l e. kept e refl
  execute-Safe code_gas = λ c l e. kept e refl
  execute-Safe code_jumpdest = λ c l e. kept e refl
  execute-Safe code_create = op_create-Safe host f false
  execute-Safe code_call = op_call-Safe host f call
  execute-Safe code_callcode = op_call-Safe host f call_code
  execute-Safe code_return = op_return-Safe host f
  execute-Safe code_delegatecall = op_call-Safe host f delegate_call
  execute-Safe code_create2 = op_create-Safe host f true
  execute-Safe code_staticcall = op_call-Safe host f static_call
  execute-Safe code_revert = op_revert-Safe host f
  execute-Safe code_selfdestruct = op_selfdestruct-Safe host f
  execute-Safe (code_push n) = op_push-Safe f n
  execute-Safe (code_dup n) = op_dup-Safe n
  execute-Safe (code_swap n) = op_swap-Safe n
  execute-Safe (code_log n) = op_log-Safe host f n

  run_op-Safe : (op : OpCode) → SafeWith (stack_depth op) (run_op host f op)
  run_op-Safe op = consume_gas-Safe (stack_depth op) (base_gas op) _ λ c l e.
      if-NoNil (ltb stack_size (length (execute host f op c).stack)) (clean refl)
        (kept (execute-Safe op c l e) refl)

  perform-NoNil : (op : OpCode) (c : Vm State) → NoNil c → NoNil (perform host f op c)
  unfolding perform
  perform-NoNil op c e = elim (Bool-cases (ltb (length c.stack) (stack_depth op))) [
    | inl b ↦ rw (b, perform) (clean refl)
    | inr b ↦ rw (b, perform) (run_op-Safe op c (ground (arith, b)) e)
  ]

  perform_known-NoNil :
      (op : Option OpCode) (c : Vm State) → NoNil c → NoNil (perform_known host f op c)
  perform_known-NoNil none c e = clean refl
  perform_known-NoNil (some op) c e = perform-NoNil op c e

  round-NoNil : (c : Vm State) → NoNil c → NoNil (round host f c)
  unfolding round
  round-NoNil c e =
      option-NoNil (get_elem? f.code c.ip) (kept e refl) λ b. perform_known-NoNil (dispatch b) c e

  run_loop-NoNil : (fuel : ℕ) (c : Vm State) → NoNil c → NoNil (run_loop host f fuel c)
  unfolding run_loop
  run_loop-NoNil zero c e = e
  run_loop-NoNil (suc fuel) c e =
      branch-NoNil c.stopped e (run_loop-NoNil fuel (round host f c) (round-NoNil c e))

-- After any number of rounds from the start of a run, on every code and with every host: no instruction
-- has read a word from an empty stack.
pub run_loop-pops :
    (host : Host) (f : Frame) (fuel gas : ℕ) (world : host.State)
    → (run_loop host f fuel (initial gas world)).error ≢ some nil_dereference
run_loop-pops host f fuel gas world e =
    elim (run_loop-NoNil host f fuel (initial gas world) (clean refl)) [
      | clean h ↦ true≢false (sym (ap reads_nil e) ∙ h)
    ]
