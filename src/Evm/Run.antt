-- ===== src/Evm/Run.antt =====
-- state/runtime/evm/state.go and evm.go: the loop of the machine, and a run of a contract.
use mainnet.Evm.{
  Error, op_code_not_found, stack_underflow, stack_overflow, is_revert, Forks, Contract,
  ExecutionResult, Frame, Host, Vm,
}
use mainnet.Evm.Machine.{halt, exit, consume_gas}
use mainnet.Evm.Bitmap.{set_code}
use mainnet.Evm.Dispatch.{OpCode, dispatch, stack_depth, base_gas, execute}
use mainnet.Common.{
  ℕ, zero, suc, ◌+◌, ◌-◌, ◌%◌, ◌^◌, Bool, true, false, not, Option, none, some, [], ltb,
  if◌then◌else◌, length, get_elem?,
}

abbrev pub stack_size : ℕ
stack_size = 1024

module _ (host : Host) (f : Frame) where
  open host use {State}

  -- The end of a round: the size of the stack, and the next instruction.
  abbrev pub advance : Vm State → Vm State
  advance c =
      if ltb stack_size (length c.stack)
      then exit stack_overflow c
      else record c { ip = (c.ip + 1) % 2 ^ 64 }

  abbrev pub run_op : OpCode → Vm State → Vm State
  run_op op c = consume_gas (base_gas op) c λ c. advance (execute host f op c)

  unfoldable pub perform : OpCode → Vm State → Vm State
  perform op c = elim (ltb (length c.stack) (stack_depth op)) [
    | true ↦ exit stack_underflow c
    | false ↦ run_op op c
  ]

  abbrev pub perform_known : Option OpCode → Vm State → Vm State
  perform_known none c = exit op_code_not_found c
  perform_known (some op) c = perform op c

  -- A round of the loop. Behind the end of the code the machine halts.
  unfoldable pub round : Vm State → Vm State
  round c = elim (get_elem? f.code c.ip) [ none ↦ halt c | some b ↦ perform_known (dispatch b) c ]

  unfoldable pub run_loop : ℕ → Vm State → Vm State
  run_loop zero c = c
  run_loop (suc fuel) c = elim c.stopped [ true ↦ c | false ↦ run_loop fuel (round c) ]

-- The state that Run starts from: a machine of the pool is empty.
abbrev pub initial : {World : Type 0} → ℕ → World → Vm World
initial gas world = record {
  ip = 0;
  stack = [];
  memory = [];
  last_gas_cost = 0;
  gas = gas;
  consumed = 0;
  stopped = false;
  error = none;
  return_data = [];
  ret = [];
  world = world;
}

abbrev pub frame : Contract → Forks → Frame
frame c config = record { msg = c; code = c.code; bitmap = set_code c.code; config = config }

abbrev pub fails : Option Error → Bool
fails none = false
fails (some e) = not (is_revert (some e))

-- What Run of the EVM makes of the machine: an error takes the gas, unless it is a revert.
unfoldable pub result_of : {World : Type 0} → ℕ → Vm World → ExecutionResult
result_of gas c =
    let left = if fails c.error then 0 else c.gas in
    record { return_value = c.ret; gas_left = left; gas_used = gas - left; error = c.error }

-- Every round takes gas or stops the machine.
unfoldable pub run : (host : Host) → Contract → host.State → Forks → Vm host.State
run host c world config = run_loop host (frame c config) (c.gas + 1) (initial c.gas world)
