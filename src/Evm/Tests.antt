-- ===== src/Evm/Tests.antt =====
-- The theorems on the virtual machine at concrete inputs.
use mathlib.Core.Logic.{◌≢◌}
use mainnet.Evm.{nil_dereference, call, Contract, ExecutionResult, Forks, Host, unchanged}
use mainnet.Evm.Words.{exp}
use mainnet.Evm.Run.{frame, initial, run_loop}
use mainnet.Evm.Gas.Changes.{KeepsGas}
use mainnet.Evm.Termination.{Settled, run-Settled}
use mainnet.Evm.Safety.Rounds.{run_loop-pops}
use mainnet.Evm.Instructions.Arithmetic.{valid_jumpdest}
use mainnet.Evm.Jumps.{IsDestination, valid_jumpdest_iff}
use mainnet.Evm.Powers.{exp-power}
use mainnet.Common.{
  ℕ, ◌+◌, ◌-◌, ◌/◌, ◌%◌, ◌^◌, ◌≡◌, refl, ◌≢◌, ◌↔◌, true, false, none, some, List, [], ◌∷◌, arith,
  length,
}

-- A host without accounts, whose calls return half of their gas.
abbrev host : Host
host = record {
  State = ℕ;
  account_exists = λ s a. false;
  get_storage = λ s a k. 0;
  set_storage = λ s a k v config. (s + 1, unchanged);
  get_balance = λ s a. 0;
  get_code_hash = λ s a. 0;
  get_code = λ s a. [];
  selfdestruct = λ s a b. s;
  get_tx_context = λ s. record {
    gas_price = 1;
    origin = 7;
    coinbase = 8;
    number = 300;
    timestamp = 9;
    gas_limit = 1000;
    chain_id = 100;
    difficulty = 1;
  };
  get_block_hash = λ s n. n;
  emit_log = λ s a topics bytes. s + 1;
  callx = λ s c. (
    s + 1,
    record { return_value = []; gas_left = c.gas / 2; gas_used = c.gas - c.gas / 2; error = none },
  );
  is_empty = λ s a. true;
  get_nonce = λ s a. 0;
  keccak256 = λ bytes. length bytes;
  create_address = λ a nonce. a + nonce;
  create_address2 = λ a salt bytes. a + salt;
}

host-KeepsGas : KeepsGas host
host-KeepsGas s c = omega arith

abbrev istanbul : Forks
istanbul = record {
  homestead = true;
  byzantium = true;
  constantinople = true;
  petersburg = true;
  istanbul = true;
  eip150 = true;
  eip158 = true;
}

abbrev contract : List ℕ → ℕ → Contract
contract code gas = record {
  code = code;
  type = call;
  code_address = 5;
  address = 5;
  origin = 7;
  caller = 7;
  depth = 1;
  value = some 0;
  input = [];
  gas = gas;
  static = false;
}

-- JUMPDEST, PUSH1 0, JUMP: a loop without an end of its own.
abbrev looping : Contract
looping = contract (0x5b ∷ 0x60 ∷ 0x00 ∷ 0x56 ∷ []) 30

-- ADD, of an empty stack.
abbrev adding : Contract
adding = contract (0x01 ∷ []) 30

-- PUSH1 0x5b, JUMPDEST.
abbrev pushing : Contract
pushing = contract (0x60 ∷ 0x5b ∷ 0x5b ∷ []) 30

run-Settled_example : Settled host looping 0 istanbul
run-Settled_example = run-Settled host looping 0 istanbul host-KeepsGas refl

run_loop-pops_example :
    (run_loop host (frame adding istanbul) 5 (initial 30 0)).error ≢ some nil_dereference
run_loop-pops_example = run_loop-pops host (frame adding istanbul) 5 30 0

-- The byte 0x5b of the constant is no destination, and the one behind it is.
valid_jumpdest_iff_example :
    (valid_jumpdest (frame pushing istanbul) 2 ≡ true) ↔ IsDestination pushing.code 0 2
valid_jumpdest_iff_example = valid_jumpdest_iff pushing istanbul 2 (omega arith)

exp-power_example : exp 3 5 ≡ 3 ^ 5 % 2 ^ 256
exp-power_example = exp-power 3 5 (omega arith)

abbrev spent : ExecutionResult
spent = record { return_value = []; gas_left = 10; gas_used = 90; error = none }
