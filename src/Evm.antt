-- ===== src/Evm.antt =====
-- state/runtime: the virtual machine, its messages and the host that it calls.
-- A word is a number below 2 ^ 256, an address and a hash the number that its bytes spell, a byte string a
-- list of bytes. big.Int pointers are values: every instruction reads a word before it writes its slot.
-- The tracer, which only observes, is left out. The host, keccak and the addresses of new contracts are
-- what the machine is given.
pub mod Words
pub mod Machine
pub mod Instructions
pub mod Dispatch
pub mod Bitmap
pub mod Run
pub mod Gas
pub mod Termination
pub mod Safety
pub mod Jumps
pub mod Powers
pub mod Results
mod Tests
use mainnet.Common.{
  ℕ, zero, suc, ◌+◌, ◌-◌, ◌*◌, ◌/◌, ◌%◌, ◌^◌, ◌≤◌, ◌<◌, ◌≡◌, refl, sym, ap, ◌∙◌, subst, ◌≢◌, ◌↔◌,
  ◌⊎◌, inl, inr, Bool, true, false, not, ◌&&◌, ◌||◌, Option, none, some, List, [], ◌∷◌, ◌++◌, map,
  arith, ltb, leb, ◌==◌, if◌then◌else◌, ==_iff, ==_refl, Bool-cases, Option-cases, same, same_iff,
  bytes_equal, bytes_equal_refl, eq_of_bytes_equal, length, get_elem?, set, drop, erase_at,
  length-append, length-erase_at, keep, count_if, All, length-keep, count_if-append, count_if-nil,
  get_elem?-total, count_if-keep, All-keep, All-map, All-append, All-drop, All-get_elem?, Result,
  ok, err, ◌>>=◌, ◌>>◌, ensure, or_fail, Result-cases, bind-ok, ensure-ok, or_fail-ok,
}

-- chain.ForksInTime
pub record Forks : Type 0 where
  pub homestead : Bool
  pub byzantium : Bool
  pub constantinople : Bool
  pub petersburg : Bool
  pub istanbul : Bool
  pub eip150 : Bool
  pub eip158 : Bool

pub data Error : Type 0 where
  out_of_gas stack_underflow stack_overflow execution_reverted gas_uint_overflow : Error
  write_protection invalid_jump op_code_not_found return_data_out_of_bounds : Error
  not_enough_funds insufficient_balance max_code_size_exceeded address_collision : Error
  max_depth code_store_out_of_gas : Error
  -- The panics of Go, which no caller of the machine recovers.
  nil_dereference slice_out_of_range : Error

pub data StorageStatus : Type 0 where
  unchanged modified modified_again added deleted : StorageStatus

pub data CallType : Type 0 where
  call call_code delegate_call static_call create create2 : CallType

pub record Contract : Type 0 where
  pub code : List ℕ
  pub type : CallType
  pub code_address : ℕ
  pub address : ℕ
  pub origin : ℕ
  pub caller : ℕ
  pub depth : ℕ
  pub value : Option ℕ
  pub input : List ℕ
  pub gas : ℕ
  pub static : Bool

pub record ExecutionResult : Type 0 where
  pub return_value : List ℕ
  pub gas_left : ℕ
  pub gas_used : ℕ
  pub error : Option Error

abbrev pub succeeded : ExecutionResult → Bool
succeeded r = elim r.error [ none ↦ true | some e ↦ false ]

abbrev pub is_revert : Option Error → Bool
is_revert (some execution_reverted) = true
is_revert _ = false

abbrev pub is_code_store_out_of_gas : Option Error → Bool
is_code_store_out_of_gas (some code_store_out_of_gas) = true
is_code_store_out_of_gas _ = false

-- UpdateGasUsed: the refund goes up to half of the gas used.
unfoldable pub update_gas_used : ExecutionResult → ℕ → ℕ → ExecutionResult
update_gas_used r gas_limit refund =
    let used = gas_limit - r.gas_left in
    let given = if ltb (used / 2) refund then used / 2 else refund in
    record r { gas_left = r.gas_left + given; gas_used = used - given }

pub record TxContext : Type 0 where
  pub gas_price : ℕ
  pub origin : ℕ
  pub coinbase : ℕ
  pub number : ℕ
  pub timestamp : ℕ
  pub gas_limit : ℕ
  pub chain_id : ℕ
  pub difficulty : ℕ

-- runtime.Host, with the state that its methods read and change, and the hashes the machine computes.
pub record Host : Type 1 where
  pub State : Type 0
  pub account_exists : State → ℕ → Bool
  pub get_storage : State → ℕ → ℕ → ℕ
  pub set_storage : State → ℕ → ℕ → ℕ → Forks → State × StorageStatus
  pub get_balance : State → ℕ → ℕ
  pub get_code_hash : State → ℕ → ℕ
  pub get_code : State → ℕ → List ℕ
  pub selfdestruct : State → ℕ → ℕ → State
  pub get_tx_context : State → TxContext
  pub get_block_hash : State → ℕ → ℕ
  pub emit_log : State → ℕ → List ℕ → List ℕ → State
  pub callx : State → Contract → State × ExecutionResult
  pub is_empty : State → ℕ → Bool
  pub get_nonce : State → ℕ → ℕ
  pub keccak256 : List ℕ → ℕ
  pub create_address : ℕ → ℕ → ℕ
  pub create_address2 : ℕ → ℕ → List ℕ → ℕ

-- NewContractCall
abbrev pub new_contract_call : CallType → ℕ → ℕ → ℕ → ℕ → Option ℕ → ℕ → List ℕ → List ℕ → Contract
new_contract_call type depth origin from to value gas code input = record {
  code = code;
  type = type;
  code_address = to;
  address = to;
  origin = origin;
  caller = from;
  depth = depth;
  value = value;
  input = input;
  gas = gas;
  static = false;
}

-- What Run is given and does not change: the message, its code with the bits of its jump destinations,
-- and the forks.
pub record Frame : Type 0 where
  pub msg : Contract
  pub code : List ℕ
  pub bitmap : List ℕ
  pub config : Forks

-- The rest of the state of the machine. The top of the stack is its first element.
pub record Vm (World : Type 0) : Type 0 where
  pub ip : ℕ
  pub stack : List ℕ
  pub memory : List ℕ
  pub last_gas_cost : ℕ
  pub gas : ℕ
  pub consumed : ℕ
  pub stopped : Bool
  pub error : Option Error
  pub return_data : List ℕ
  pub ret : List ℕ
  pub world : World
