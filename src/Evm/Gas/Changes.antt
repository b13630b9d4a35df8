-- ===== src/Evm/Gas/Changes.antt =====
-- state/runtime/evm/instructions.go: what the instructions take that change the state of the host.
use mainnet.Evm.{
  StorageStatus, unchanged, modified, modified_again, added, deleted, Contract, Forks, Frame, Host,
  Vm, ExecutionResult, is_revert,
}
use mainnet.Evm.Machine.{push, words, to_address, take}
use mainnet.Evm.Gas.{
  if-positive, if-Paid, branch-Paid, consume_gas-Gives, Paid, paid, Pays, keeps, stops, pop-Pays,
  consume_gas-Paid, consume_gas-Pays, get2-Pays, Paid-weaken,
}
use mainnet.Evm.Instructions.Effects.{
  store_cost, rewrite_cost, op_sload, store, op_sstore, selfdestruct_cost, op_selfdestruct, log_to,
  op_log,
}
use mainnet.Evm.Instructions.Calls.{all_but_64th}
use mainnet.Evm.Instructions.Creation.{
  after_create, run_create, pay_create, build_create, pop_salt, op_create,
}
use mainnet.Common.{
  ℕ, ◌+◌, ◌*◌, ◌%◌, ◌^◌, ◌≤◌, refl, Bool, true, false, not, ◌&&◌, ◌||◌, List, [], arith, ltb, leb,
  ◌==◌, if◌then◌else◌, length, drop,
}

-- What a call leaves is at most what it was given.
abbrev pub KeepsGas : Host → Type 0
KeepsGas host =
    (s : host.State) (contract : Contract) → (host.callx s contract).1.gas_left ≤ contract.gas

rewrite_cost-positive : (config : Forks) → 1 ≤ rewrite_cost config
rewrite_cost-positive config = if-positive config.istanbul 800 _ (omega arith) (
    if-positive (config.petersburg || not config.constantinople) 5000 200 (omega arith)
      (omega arith))

store_cost-positive : (config : Forks) (status : StorageStatus) → 1 ≤ store_cost config status
store_cost-positive config unchanged = rewrite_cost-positive config
store_cost-positive config modified = omega arith
store_cost-positive config modified_again = rewrite_cost-positive config
store_cost-positive config added = omega arith
store_cost-positive config deleted = omega arith

module _ (host : Host) (f : Frame) where
  open host use {State}

  pub op_sload-Pays : (c : Vm State) → Paid 1 c.gas (op_sload host f c)
  unfolding op_sload
  op_sload-Pays c = pop-Pays 1 c _ λ loc c.
      Paid-weaken 1 (_ + 0) c.gas _
        (omega (
          arith,
          if-positive f.config.istanbul 800 _ (omega arith)
              (if-positive f.config.eip150 200 50 (omega arith) (omega arith)),
        ))
        (consume_gas-Pays 0 _ (push loc c) _ λ c. pop-Pays 0 c _ λ loc c. keeps c _ refl)

  store-Pays : (key val : ℕ) (c : Vm State) → Paid 1 c.gas (store host f key val c)
  unfolding store
  store-Pays key val c =
      Paid-weaken 1 (_ + 0) c.gas _ (omega (arith, store_cost-positive f.config _))
        (consume_gas-Pays 0 _ _ _ λ c. keeps c _ refl)

  pub op_sstore-Pays : (c : Vm State) → Paid 1 c.gas (op_sstore host f c)
  unfolding op_sstore
  op_sstore-Pays c = branch-Paid f.msg.static (stops 1 c _ refl refl) (
      branch-Paid (f.config.istanbul && leb c.gas 2300) (stops 1 c _ refl refl)
        (pop-Pays 1 c _ λ key c. pop-Pays 1 c _ λ val c. store-Pays key val c))

  pub op_selfdestruct-Pays : (c : Vm State) → Paid 1 c.gas (op_selfdestruct host f c)
  unfolding op_selfdestruct
  op_selfdestruct-Pays c = branch-Paid f.msg.static (stops 1 c _ refl refl) (
      pop-Pays 1 c _ λ a c.
        consume_gas-Paid 1 (selfdestruct_cost host f (to_address a) c) c _
          λ c. stops 1 c _ refl refl)

  log_to-Pays :
      (size : ℕ) (topics : List ℕ) (m_size : ℕ) (bytes : List ℕ) (c : Vm State)
      → Paid 0 c.gas (log_to host f size topics m_size bytes c)
  unfolding log_to
  log_to-Pays size topics m_size bytes c =
      consume_gas-Paid 0 (size * 375) _ _
        λ c. consume_gas-Paid 0 (m_size % 2 ^ 64 * 8 % 2 ^ 64) c _ λ c. keeps c _ refl

  pub op_log-Pays : (size : ℕ) (c : Vm State) → Paid 0 c.gas (op_log host f size c)
  unfolding op_log
  op_log-Pays size c = branch-Paid f.msg.static (stops 0 c _ refl refl) (
      branch-Paid (leb (2 + size) (length c.stack))
        (pop-Pays 0 c _ λ m_start c. pop-Pays 0 c _ λ m_size c.
          get2-Pays 0 m_start m_size (record c { stack = drop size c.stack }) _
            λ bytes d. log_to-Pays size (take size c.stack) m_size bytes d)
        (stops 0 c _ refl refl))

  module _ (keeps_gas : KeepsGas host) where
    after_create-Pays :
        (is_create2 : Bool) (address gas : ℕ) (result : ExecutionResult) (c : Vm State)
        → result.gas_left ≤ gas
        → Paid 0 (c.gas + gas) (after_create host f is_create2 address result c)
    unfolding after_create
    after_create-Pays is_create2 address gas result c h =
        if-Paid (is_revert result.error) (paid (omega (arith, h))) (paid (omega (arith, h)))

    run_create-Pays :
        (is_create2 : Bool) (contract : Contract) (c : Vm State)
        → Paid 0 (c.gas + contract.gas) (run_create host f is_create2 contract c)
    run_create-Pays is_create2 contract c =
        after_create-Pays is_create2 contract.address contract.gas (host.callx c.world contract).1
          (record c { world = (host.callx c.world contract).0 }) (keeps_gas c.world contract)

    pay_create-Pays :
        (is_create2 : Bool) (value size salt : ℕ) (input : List ℕ) (c : Vm State)
        → Paid 0 c.gas (pay_create host f is_create2 value size salt input c)
    unfolding pay_create
    pay_create-Pays is_create2 value size salt input c =
        consume_gas-Paid 0 (if is_create2 then words (size % 2 ^ 64) * 6 else 0) c _ λ c.
          consume_gas-Gives 0 (if f.config.eip150 || is_create2 then all_but_64th c.gas else c.gas)
            c _ λ d. run_create-Pays is_create2 _ d

    build_create-Pays :
        (is_create2 : Bool) (value offset size salt : ℕ) (c : Vm State)
        → Paid 0 c.gas (build_create host f is_create2 value offset size salt c)
    unfolding build_create
    build_create-Pays is_create2 value offset size salt c = get2-Pays 0 offset size c _ λ input c.
        consume_gas-Paid 0 0 c _ λ c.
          branch-Paid (not (value == 0) && ltb (host.get_balance c.world f.msg.address) value)
            (keeps c _ refl) (pay_create-Pays is_create2 value size salt input c)

    pop_salt-Pays :
        (is_create2 : Bool) (c : Vm State) (next : ℕ → Vm State → Vm State)
        → ((a : ℕ) → Pays 0 (next a))
        → Paid 0 c.gas (pop_salt host f is_create2 c next)
    pop_salt-Pays true c next h = pop-Pays 0 c next h
    pop_salt-Pays false c next h = h 0 c

    pub op_create-Pays :
        (is_create2 : Bool) (c : Vm State) → Paid 0 c.gas (op_create host f is_create2 c)
    unfolding op_create
    op_create-Pays is_create2 c = branch-Paid f.msg.static (stops 0 c _ refl refl) (
        branch-Paid (is_create2 && not f.config.constantinople) (stops 0 c _ refl refl) (
          pop-Pays 0 (record c { return_data = [] }) _
            λ value c. pop-Pays 0 c _ λ offset c. pop-Pays 0 c _ λ size c.
              pop_salt-Pays is_create2 c _
                λ salt c. build_create-Pays is_create2 value offset size salt c))
