-- ===== src/Evm/Dispatch.antt =====
-- state/runtime/evm/opcodes.go and dispatch_table.go: the instructions by their bytes.
use mainnet.Evm.{call, call_code, delegate_call, static_call, Frame, Host, Vm}
use mainnet.Evm.Instructions.Arithmetic.{
  op_add, op_add_mod, op_and, op_byte, op_div, op_dup, op_eq, op_exp, op_gt, op_is_zero, op_jump,
  op_jumpi, op_lt, op_mod, op_mul, op_mul_mod, op_not, op_or, op_pop, op_push, op_sar, op_sdiv,
  op_sgt, op_shl, op_shr, op_sign_extension, op_slt, op_smod, op_stop, op_sub, op_swap, op_xor,
}
use mainnet.Evm.Instructions.Context.{
  op_address, op_balance, op_block_hash, op_call_data_load, op_call_data_size, op_call_value,
  op_caller, op_chain_id, op_code_size, op_coinbase, op_difficulty, op_ext_code_hash,
  op_ext_code_size, op_gas, op_gas_limit, op_gas_price, op_m_size, op_number, op_origin, op_pc,
  op_return_data_size, op_self_balance, op_timestamp,
}
use mainnet.Evm.Instructions.Copying.{
  op_call_data_copy, op_code_copy, op_ext_code_copy, op_mload, op_mstore, op_mstore8, op_return,
  op_return_data_copy, op_revert, op_sha3,
}
use mainnet.Evm.Instructions.Effects.{op_sload, op_sstore, op_selfdestruct, op_log}
use mainnet.Evm.Instructions.Calls.{op_call}
use mainnet.Evm.Instructions.Creation.{op_create}
use mainnet.Common.{
  ℕ, ◌+◌, ◌-◌, Bool, true, false, ◌&&◌, Option, none, some, List, [], ◌∷◌, leb, ◌==◌, if◌then◌else◌,
}

pub data OpCode : Type 0 where
  code_stop code_add code_mul code_sub code_div code_sdiv code_mod code_smod code_addmod : OpCode
  code_mulmod code_exp code_signextend code_lt code_gt code_slt code_sgt code_eq code_iszero :
      OpCode
  code_and code_or code_xor code_not code_byte code_shl code_shr code_sar code_sha3 : OpCode
  code_address code_balance code_origin code_caller code_callvalue code_calldataload : OpCode
  code_calldatasize code_calldatacopy code_codesize code_codecopy code_gasprice : OpCode
  code_extcodesize code_extcodecopy code_returndatasize code_returndatacopy code_extcodehash :
      OpCode
  code_blockhash code_coinbase code_timestamp code_number code_difficulty code_gaslimit : OpCode
  code_chainid code_selfbalance code_pop code_mload code_mstore code_mstore8 code_sload : OpCode
  code_sstore code_jump code_jumpi code_pc code_msize code_gas code_jumpdest code_create : OpCode
  code_call code_callcode code_return code_delegatecall code_create2 code_staticcall : OpCode
  code_revert code_selfdestruct : OpCode
  code_push code_dup code_swap code_log : ℕ → OpCode

-- The single codes.
abbrev pub table : List (ℕ × OpCode)
table =
    (0x00, code_stop)
    ∷ (0x01, code_add)
    ∷ (0x02, code_mul)
    ∷ (0x03, code_sub)
    ∷ (0x04, code_div)
    ∷ (0x05, code_sdiv)
    ∷ (0x06, code_mod)
    ∷ (0x07, code_smod)
    ∷ (0x08, code_addmod)
    ∷ (0x09, code_mulmod)
    ∷ (0x0a, code_exp)
    ∷ (0x0b, code_signextend)
    ∷ (0x10, code_lt)
    ∷ (0x11, code_gt)
    ∷ (0x12, code_slt)
    ∷ (0x13, code_sgt)
    ∷ (0x14, code_eq)
    ∷ (0x15, code_iszero)
    ∷ (0x16, code_and)
    ∷ (0x17, code_or)
    ∷ (0x18, code_xor)
    ∷ (0x19, code_not)
    ∷ (0x1a, code_byte)
    ∷ (0x1b, code_shl)
    ∷ (0x1c, code_shr)
    ∷ (0x1d, code_sar)
    ∷ (0x20, code_sha3)
    ∷ (0x30, code_address)
    ∷ (0x31, code_balance)
    ∷ (0x32, code_origin)
    ∷ (0x33, code_caller)
    ∷ (0x34, code_callvalue)
    ∷ (0x35, code_calldataload)
    ∷ (0x36, code_calldatasize)
    ∷ (0x37, code_calldatacopy)
    ∷ (0x38, code_codesize)
    ∷ (0x39, code_codecopy)
    ∷ (0x3a, code_gasprice)
    ∷ (0x3b, code_extcodesize)
    ∷ (0x3c, code_extcodecopy)
    ∷ (0x3d, code_returndatasize)
    ∷ (0x3e, code_returndatacopy)
    ∷ (0x3f, code_extcodehash)
    ∷ (0x40, code_blockhash)
    ∷ (0x41, code_coinbase)
    ∷ (0x42, code_timestamp)
    ∷ (0x43, code_number)
    ∷ (0x44, code_difficulty)
    ∷ (0x45, code_gaslimit)
    ∷ (0x46, code_chainid)
    ∷ (0x47, code_selfbalance)
    ∷ (0x50, code_pop)
    ∷ (0x51, code_mload)
    ∷ (0x52, code_mstore)
    ∷ (0x53, code_mstore8)
    ∷ (0x54, code_sload)
    ∷ (0x55, code_sstore)
    ∷ (0x56, code_jump)
    ∷ (0x57, code_jumpi)
    ∷ (0x58, code_pc)
    ∷ (0x59, code_msize)
    ∷ (0x5a, code_gas)
    ∷ (0x5b, code_jumpdest)
    ∷ (0xf0, code_create)
    ∷ (0xf1, code_call)
    ∷ (0xf2, code_callcode)
    ∷ (0xf3, code_return)
    ∷ (0xf4, code_delegatecall)
    ∷ (0xf5, code_create2)
    ∷ (0xfa, code_staticcall)
    ∷ (0xfd, code_revert)
    ∷ (0xff, code_selfdestruct)
    ∷ []

abbrev pub lookup : ℕ → List (ℕ × OpCode) → Option OpCode
lookup b [] = none
lookup b ((code, op) ∷ rest) = let found = lookup b rest in if code == b then some op else found

abbrev pub between : ℕ → ℕ → ℕ → Bool
between low high b = leb low b && leb b high

-- dispatchTable: the ranges of PUSH, DUP, SWAP and LOG, and the single codes.
unfoldable pub dispatch : ℕ → Option OpCode
dispatch b =
    if between 0x60 0x7f b
    then some (code_push (b - 0x60 + 1))
    else if between 0x80 0x8f b
    then some (code_dup (b - 0x80 + 1))
    else if between 0x90 0x9f b
    then some (code_swap (b - 0x90 + 1))
    else if between 0xa0 0xa4 b
    then some (code_log (b - 0xa0))
    else lookup b table

-- The words that an instruction wants on the stack.
unfoldable pub stack_depth : OpCode → ℕ
stack_depth code_add = 2
stack_depth code_mul = 2
stack_depth code_sub = 2
stack_depth code_div = 2
stack_depth code_sdiv = 2
stack_depth code_mod = 2
stack_depth code_smod = 2
stack_depth code_addmod = 3
stack_depth code_mulmod = 3
stack_depth code_exp = 2
stack_depth code_signextend = 1
stack_depth code_lt = 2
stack_depth code_gt = 2
stack_depth code_slt = 2
stack_depth code_sgt = 2
stack_depth code_eq = 2
stack_depth code_iszero = 1
stack_depth code_and = 2
stack_depth code_or = 2
stack_depth code_xor = 2
stack_depth code_not = 1
stack_depth code_byte = 2
stack_depth code_shl = 2
stack_depth code_shr = 2
stack_depth code_sar = 2
stack_depth code_sha3 = 2
stack_depth code_balance = 1
stack_depth code_calldataload = 1
stack_depth code_calldatacopy = 3
stack_depth code_codecopy = 3
stack_depth code_extcodesize = 1
stack_depth code_extcodecopy = 4
stack_depth code_returndatacopy = 3
stack_depth code_extcodehash = 1
stack_depth code_blockhash = 1
stack_depth code_pop = 1
stack_depth code_mload = 1
stack_depth code_mstore = 2
stack_depth code_mstore8 = 2
stack_depth code_sload = 1
stack_depth code_sstore = 2
stack_depth code_jump = 1
stack_depth code_jumpi = 2
stack_depth code_create = 3
stack_depth code_call = 7
stack_depth code_callcode = 7
stack_depth code_return = 2
stack_depth code_delegatecall = 6
stack_depth code_create2 = 4
stack_depth code_staticcall = 6
stack_depth code_revert = 2
stack_depth code_selfdestruct = 1
stack_depth _ = 0

-- What an instruction costs before it runs.
unfoldable pub base_gas : OpCode → ℕ
base_gas code_stop = 0
base_gas code_add = 3
base_gas code_mul = 5
base_gas code_sub = 3
base_gas code_div = 5
base_gas code_sdiv = 5
base_gas code_mod = 5
base_gas code_smod = 5
base_gas code_addmod = 8
base_gas code_mulmod = 8
base_gas code_exp = 10
base_gas code_signextend = 5
base_gas code_lt = 3
base_gas code_gt = 3
base_gas code_slt = 3
base_gas code_sgt = 3
base_gas code_eq = 3
base_gas code_iszero = 3
base_gas code_and = 3
base_gas code_or = 3
base_gas code_xor = 3
base_gas code_not = 3
base_gas code_byte = 3
base_gas code_shl = 3
base_gas code_shr = 3
base_gas code_sar = 3
base_gas code_sha3 = 30
base_gas code_address = 2
base_gas code_balance = 0
base_gas code_origin = 2
base_gas code_caller = 2
base_gas code_callvalue = 2
base_gas code_calldataload = 3
base_gas code_calldatasize = 2
base_gas code_calldatacopy = 3
base_gas code_codesize = 2
base_gas code_codecopy = 3
base_gas code_gasprice = 2
base_gas code_extcodesize = 0
base_gas code_extcodecopy = 0
base_gas code_returndatasize = 2
base_gas code_returndatacopy = 3
base_gas code_extcodehash = 0
base_gas code_blockhash = 20
base_gas code_coinbase = 2
base_gas code_timestamp = 2
base_gas code_number = 2
base_gas code_difficulty = 2
base_gas code_gaslimit = 2
base_gas code_chainid = 2
base_gas code_selfbalance = 5
base_gas code_pop = 2
base_gas code_mload = 3
base_gas code_mstore = 3
base_gas code_mstore8 = 3
base_gas code_sload = 0
base_gas code_sstore = 0
base_gas code_jump = 8
base_gas code_jumpi = 10
base_gas code_pc = 2
base_gas code_msize = 2
base_gas code_gas = 2
base_gas code_jumpdest = 1
base_gas code_create = 32000
base_gas code_call = 0
base_gas code_callcode = 0
base_gas code_return = 0
base_gas code_delegatecall = 0
base_gas code_create2 = 32000
base_gas code_staticcall = 0
base_gas code_revert = 0
base_gas code_selfdestruct = 0
base_gas (code_push n) = 3
base_gas (code_dup n) = 3
base_gas (code_swap n) = 3
base_gas (code_log n) = 375

unfoldable pub execute : (host : Host) → Frame → OpCode → Vm host.State → Vm host.State
execute host f code_stop c = op_stop c
execute host f code_add c = op_add c
execute host f code_mul c = op_mul c
execute host f code_sub c = op_sub c
execute host f code_div c = op_div c
execute host f code_sdiv c = op_sdiv c
execute host f code_mod c = op_mod c
execute host f code_smod c = op_smod c
execute host f code_addmod c = op_add_mod c
execute host f code_mulmod c = op_mul_mod c
execute host f code_exp c = op_exp f.config c
execute host f code_signextend c = op_sign_extension c
execute host f code_lt c = op_lt c
execute host f code_gt c = op_gt c
execute host f code_slt c = op_slt c
execute host f code_sgt c = op_sgt c
execute host f code_eq c = op_eq c
execute host f code_iszero c = op_is_zero c
execute host f code_and c = op_and c
execute host f code_or c = op_or c
execute host f code_xor c = op_xor c
execute host f code_not c = op_not c
execute host f code_byte c = op_byte c
execute host f code_shl c = op_shl f.config c
execute host f code_shr c = op_shr f.config c
execute host f code_sar c = op_sar f.config c
execute host f code_sha3 c = op_sha3 host f c
execute host f code_address c = op_address host f c
execute host f code_balance c = op_balance host f c
execute host f code_origin c = op_origin host f c
execute host f code_caller c = op_caller host f c
execute host f code_callvalue c = op_call_value host f c
execute host f code_calldataload c = op_call_data_load host f c
execute host f code_calldatasize c = op_call_data_size host f c
execute host f code_calldatacopy c = op_call_data_copy host f c
execute host f code_codesize c = op_code_size host f c
execute host f code_codecopy c = op_code_copy host f c
execute host f code_gasprice c = op_gas_price host f c
execute host f code_extcodesize c = op_ext_code_size host f c
execute host f code_extcodecopy c = op_ext_code_copy host f c
execute host f code_returndatasize c = op_return_data_size host f c
execute host f code_returndatacopy c = op_return_data_copy host f c
execute host f code_extcodehash c = op_ext_code_hash host f c
execute host f code_blockhash c = op_block_hash host f c
execute host f code_coinbase c = op_coinbase host f c
execute host f code_timestamp c = op_timestamp host f c
execute host f code_number c = op_number host f c
execute host f code_difficulty c = op_difficulty host f c
execute host f code_gaslimit c = op_gas_limit host f c
execute host f code_chainid c = op_chain_id host f c
execute host f code_selfbalance c = op_self_balance host f c
execute host f code_pop c = op_pop c
execute host f code_mload c = op_mload host f c
execute host f code_mstore c = op_mstore host f c
execute host f code_mstore8 c = op_mstore8 host f c
execute host f code_sload c = op_sload host f c
execute host f code_sstore c = op_sstore host f c
execute host f code_jump c = op_jump f c
execute host f code_jumpi c = op_jumpi f c
execute host f code_pc c = op_pc host f c
execute host f code_msize c = op_m_size host f c
execute host f code_gas c = op_gas host f c
execute host f code_jumpdest c = c
execute host f code_create c = op_create host f false c
execute host f code_call c = op_call host f call c
execute host f code_callcode c = op_call host f call_code c
execute host f code_return c = op_return host f c
execute host f code_delegatecall c = op_call host f delegate_call c
execute host f code_create2 c = op_create host f true c
execute host f code_staticcall c = op_call host f static_call c
execute host f code_revert c = op_revert host f c
execute host f code_selfdestruct c = op_selfdestruct host f c
execute host f (code_push n) c = op_push f n c
execute host f (code_dup n) c = op_dup n c
execute host f (code_swap n) c = op_swap n c
execute host f (code_log n) c = op_log host f n c
