-- ===== src/Evm/Instructions/Effects.antt =====
-- state/runtime/evm/instructions.go: storage, logs and the end of a contract.
use mainnet.Evm.{
  out_of_gas, write_protection, stack_underflow, Forks, StorageStatus, unchanged, modified,
  modified_again, added, deleted, Frame, Host, Vm,
}
use mainnet.Evm.Machine.{halt, exit, consume_gas, push, pop, to_address, get2, take}
use mainnet.Common.{
  ℕ, ◌+◌, ◌*◌, ◌%◌, ◌^◌, true, false, not, ◌&&◌, ◌||◌, List, leb, ◌==◌, if◌then◌else◌, length, drop,
}

-- The cost of a write that changes nothing, or changes again what this transaction wrote.
abbrev pub rewrite_cost : Forks → ℕ
rewrite_cost config =
    if config.istanbul
    then 800
    else if config.petersburg || not config.constantinople
    then 5000
    else 200

abbrev pub store_cost : Forks → StorageStatus → ℕ
store_cost config unchanged = rewrite_cost config
store_cost config modified = 5000
store_cost config modified_again = rewrite_cost config
store_cost config added = 20000
store_cost config deleted = 5000

module _ (host : Host) (f : Frame) where
  open host use {State}

  abbrev config : Forks
  config = f.config

  unfoldable pub op_sload : Vm State → Vm State
  op_sload c =
      let gas = if config.istanbul then 800 else if config.eip150 then 200 else 50 in
      pop c λ loc c.
        consume_gas gas (push loc c)
          λ c. pop c λ loc c. push (host.get_storage c.world f.msg.address loc) c

  abbrev pub in_world : State → Vm State → Vm State
  in_world s c = record c { world = s }

  -- The host is written before the gas is taken.
  unfoldable pub store : ℕ → ℕ → Vm State → Vm State
  store key val c =
      let (world, status) = host.set_storage c.world f.msg.address key val config in
      consume_gas (store_cost config status) (in_world world c) λ c. c

  unfoldable pub op_sstore : Vm State → Vm State
  op_sstore c = elim f.msg.static [
    | true ↦ exit write_protection c
    | false ↦ elim (config.istanbul && leb c.gas 2300) [
      | true ↦ exit out_of_gas c
      | false ↦ pop c λ key c. pop c λ val c. store key val c
    ]
  ]

  -- What a new account costs.
  abbrev pub selfdestruct_cost : ℕ → Vm State → ℕ
  selfdestruct_cost address c =
      let pays =
        host.is_empty c.world address && not (host.get_balance c.world f.msg.address == 0) in
      if config.eip150
      then (if config.eip158
          then (if pays then 30000 else 5000)
          else if host.account_exists c.world address
          then 5000
          else 30000)
      else 0

  unfoldable pub op_selfdestruct : Vm State → Vm State
  op_selfdestruct c = elim f.msg.static [
    | true ↦ exit write_protection c
    | false ↦ pop c λ a c.
        consume_gas (selfdestruct_cost (to_address a) c) c
          λ c. halt (in_world (host.selfdestruct c.world f.msg.address (to_address a)) c)
  ]

  -- The log is written before its gas is taken.
  unfoldable pub log_to : ℕ → List ℕ → ℕ → List ℕ → Vm State → Vm State
  log_to size topics m_size bytes c =
      consume_gas (size * 375) (in_world (host.emit_log c.world f.msg.address topics bytes) c)
        λ c. consume_gas (m_size % 2 ^ 64 * 8 % 2 ^ 64) c λ c. c

  unfoldable pub op_log : ℕ → Vm State → Vm State
  op_log size c = elim f.msg.static [
    | true ↦ exit write_protection c
    | false ↦ elim (leb (2 + size) (length c.stack)) [
      | false ↦ exit stack_underflow c
      | true ↦ pop c λ m_start c. pop c λ m_size c.
          let topics = take size c.stack in
          get2 m_start m_size (record c { stack = drop size c.stack })
            λ bytes c. log_to size topics m_size bytes c
    ]
  ]
