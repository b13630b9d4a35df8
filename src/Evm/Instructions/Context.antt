-- ===== src/Evm/Instructions/Context.antt =====
-- state/runtime/evm/instructions.go: what the machine reads of its message, its block and its host.
use mainnet.Evm.{op_code_not_found, Forks, Frame, Host, TxContext, Vm}
use mainnet.Evm.Machine.{exit, consume_gas, push, pop, to_address, window, value_of}
use mainnet.Evm.Instructions.Arithmetic.{since_constantinople, unary}
use mainnet.Common.{ℕ, ◌+◌, ◌^◌, true, false, ◌&&◌, Option, none, some, ltb, if◌then◌else◌, length}

module _ (host : Host) (f : Frame) where
  open host use {State}

  abbrev config : Forks
  config = f.config

  abbrev context : Vm State → TxContext
  context c = host.get_tx_context c.world

  abbrev pub op_address : Vm State → Vm State
  op_address c = push f.msg.address c

  -- A pop of an address, the gas, and the word that the host tells of it.
  unfoldable pub of_account : ℕ → (State → ℕ → ℕ) → Vm State → Vm State
  of_account gas tell c = pop c λ a c. consume_gas gas c λ c. push (tell c.world (to_address a)) c

  abbrev pub op_balance : Vm State → Vm State
  op_balance c =
      of_account (if config.istanbul then 700 else if config.eip150 then 400 else 20)
        host.get_balance c

  unfoldable pub since_istanbul : (Vm State → Vm State) → Vm State → Vm State
  since_istanbul op c = elim config.istanbul [ false ↦ exit op_code_not_found c | true ↦ op c ]

  abbrev pub op_self_balance : Vm State → Vm State
  op_self_balance c = since_istanbul (λ c. push (host.get_balance c.world f.msg.address) c) c

  abbrev pub op_chain_id : Vm State → Vm State
  op_chain_id c = since_istanbul (λ c. push (context c).chain_id c) c

  abbrev pub op_origin : Vm State → Vm State
  op_origin c = push (context c).origin c

  abbrev pub op_caller : Vm State → Vm State
  op_caller c = push f.msg.caller c

  abbrev or_zero : Option ℕ → ℕ
  or_zero none = 0
  or_zero (some v) = v

  abbrev pub op_call_value : Vm State → Vm State
  op_call_value c = push (or_zero f.msg.value) c

  unfoldable pub op_call_data_load : Vm State → Vm State
  op_call_data_load c = unary (λ offset. value_of 0 (window f.msg.input 32 offset)) c

  abbrev pub op_call_data_size : Vm State → Vm State
  op_call_data_size c = push (length f.msg.input) c

  abbrev pub op_code_size : Vm State → Vm State
  op_code_size c = push (length f.code) c

  abbrev pub op_ext_code_size : Vm State → Vm State
  op_ext_code_size c =
      of_account (if config.eip150 then 700 else 20) (λ s a. length (host.get_code s a)) c

  abbrev pub op_gas_price : Vm State → Vm State
  op_gas_price c = push (context c).gas_price c

  unfoldable pub op_return_data_size : Vm State → Vm State
  op_return_data_size c = elim config.byzantium [
    | false ↦ exit op_code_not_found c
    | true ↦ push (length c.return_data) c
  ]

  abbrev pub op_ext_code_hash : Vm State → Vm State
  op_ext_code_hash c =
      since_constantinople config
        (of_account (if config.istanbul then 700 else 400)
          (λ s a. if host.is_empty s a then 0 else host.get_code_hash s a))
        c

  abbrev pub op_pc : Vm State → Vm State
  op_pc c = push c.ip c

  abbrev pub op_m_size : Vm State → Vm State
  op_m_size c = push (length c.memory) c

  abbrev pub op_gas : Vm State → Vm State
  op_gas c = push c.gas c

  -- The hashes of the 256 blocks before this one.
  unfoldable pub op_block_hash : Vm State → Vm State
  op_block_hash c = pop c λ n c.
      let last = (context c).number in
      push
        (if ltb n (2 ^ 63) && ltb last (n + 257) && ltb n last
          then host.get_block_hash c.world n
          else 0)
        c

  abbrev pub op_coinbase : Vm State → Vm State
  op_coinbase c = push (context c).coinbase c

  abbrev pub op_timestamp : Vm State → Vm State
  op_timestamp c = push (context c).timestamp c

  abbrev pub op_number : Vm State → Vm State
  op_number c = push (context c).number c

  abbrev pub op_difficulty : Vm State → Vm State
  op_difficulty c = push (context c).difficulty c

  abbrev pub op_gas_limit : Vm State → Vm State
  op_gas_limit c = push (context c).gas_limit c
