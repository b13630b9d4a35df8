-- ===== src/Evm/Safety/Memory.antt =====
-- state/runtime/evm/instructions.go: what the instructions pop that use the memory or read the host.
use mainnet.Evm.{Frame, Host, Vm}
use mainnet.Evm.Machine.{words, to_address}
use mainnet.Evm.Safety.{
  clean, kept, SafeWith, branch-NoNil, pop-Safe, consume_gas-Safe, allocate_memory-Safe, get2-Safe,
}
use mainnet.Evm.Safety.Plain.{unary-Safe, since_constantinople-Safe}
use mainnet.Evm.Instructions.Context.{
  of_account, op_balance, since_istanbul, op_call_data_load, op_ext_code_size, op_return_data_size,
  op_ext_code_hash, op_block_hash, op_self_balance, op_chain_id,
}
use mainnet.Evm.Instructions.Copying.{
  op_mload, op_mstore, op_mstore8, op_sha3, copy_window, op_ext_code_copy, op_copy, copy_to,
  return_data_copy, op_return_data_copy, op_return, op_revert,
}
use mainnet.Common.{ℕ, ◌+◌, ◌*◌, ◌%◌, ◌^◌, refl, ◌||◌, List, ltb, leb, ◌==◌, if◌then◌else◌, length}

module _ (host : Host) (f : Frame) where
  open host use {State}

  of_account-Safe : (gas : ℕ) (tell : State → ℕ → ℕ) → SafeWith 1 (of_account host f gas tell)
  unfolding of_account
  of_account-Safe gas tell = pop-Safe 0 _ λ a. consume_gas-Safe 0 gas _ λ c l e. kept e refl

  since_istanbul-Safe :
      (op : Vm State → Vm State) → SafeWith 0 op → SafeWith 0 (since_istanbul host f op)
  unfolding since_istanbul
  since_istanbul-Safe op h c l e = branch-NoNil f.config.istanbul (h c l e) (clean refl)

  pub op_balance-Safe : SafeWith 1 (op_balance host f)
  op_balance-Safe = of_account-Safe _ _

  pub op_ext_code_size-Safe : SafeWith 1 (op_ext_code_size host f)
  op_ext_code_size-Safe = of_account-Safe _ _

  pub op_ext_code_hash-Safe : SafeWith 1 (op_ext_code_hash host f)
  op_ext_code_hash-Safe = since_constantinople-Safe 1 f.config _ (of_account-Safe _ _)

  pub op_self_balance-Safe : SafeWith 0 (op_self_balance host f)
  op_self_balance-Safe = since_istanbul-Safe _ λ c l e. kept e refl

  pub op_chain_id-Safe : SafeWith 0 (op_chain_id host f)
  op_chain_id-Safe = since_istanbul-Safe _ λ c l e. kept e refl

  pub op_call_data_load-Safe : SafeWith 1 (op_call_data_load host f)
  unfolding op_call_data_load
  op_call_data_load-Safe = unary-Safe _

  pub op_return_data_size-Safe : SafeWith 0 (op_return_data_size host f)
  unfolding op_return_data_size
  op_return_data_size-Safe c l e = branch-NoNil f.config.byzantium (kept e refl) (clean refl)

  pub op_block_hash-Safe : SafeWith 1 (op_block_hash host f)
  unfolding op_block_hash
  op_block_hash-Safe = pop-Safe 0 _ λ n c l e. kept e refl

  pub op_mload-Safe : SafeWith 1 (op_mload host f)
  unfolding op_mload
  op_mload-Safe = pop-Safe 0 _ λ offset. get2-Safe 0 offset 32 _ λ bytes c l e. kept e refl

  pub op_mstore-Safe : SafeWith 2 (op_mstore host f)
  unfolding op_mstore
  op_mstore-Safe =
      pop-Safe 1 _
        λ offset. pop-Safe 0 _ λ val. allocate_memory-Safe 0 offset 32 _ λ c l e. kept e refl

  pub op_mstore8-Safe : SafeWith 2 (op_mstore8 host f)
  unfolding op_mstore8
  op_mstore8-Safe =
      pop-Safe 1 _
        λ offset. pop-Safe 0 _ λ val. allocate_memory-Safe 0 offset 1 _ λ c l e. kept e refl

  pub op_sha3-Safe : SafeWith 2 (op_sha3 host f)
  unfolding op_sha3
  op_sha3-Safe = pop-Safe 1 _ λ offset. pop-Safe 0 _ λ size.
      get2-Safe 0 offset size _
        λ bytes. consume_gas-Safe 0 (words (size % 2 ^ 64) * 6) _ λ c l e. kept e refl

  copy_window-Safe :
      (source : List ℕ) (m d size : ℕ) → SafeWith 0 (copy_window host f source m d size)
  unfolding copy_window
  copy_window-Safe source m d size c l e = branch-NoNil (size == 0) e (kept e refl)

  pub op_copy-Safe : (source : List ℕ) → SafeWith 3 (op_copy host f source)
  unfolding op_copy
  op_copy-Safe source = pop-Safe 2 _ λ m. pop-Safe 1 _ λ d. pop-Safe 0 _ λ size.
      allocate_memory-Safe 0 m size _
        (consume_gas-Safe 0 (words size * 3) _ (copy_window-Safe source m d size))

  pub op_ext_code_copy-Safe : SafeWith 4 (op_ext_code_copy host f)
  unfolding op_ext_code_copy
  op_ext_code_copy-Safe = pop-Safe 3 _ λ address. pop-Safe 2 _ λ m. pop-Safe 1 _ λ d.
      pop-Safe 0 _ λ size. allocate_memory-Safe 0 m size _ (
        consume_gas-Safe 0 (words size * 3) _ (
          consume_gas-Safe 0 (if f.config.eip150 then 700 else 20) _
            λ c. copy_window-Safe (host.get_code c.world (to_address address)) m d size c))

  copy_to-Safe : (offset : ℕ) (bytes : List ℕ) → SafeWith 0 (copy_to host f offset bytes)
  unfolding copy_to
  copy_to-Safe offset bytes c l e =
      branch-NoNil (ltb (length c.memory) offset) (clean refl) (kept e refl)

  return_data_copy-Safe : (m d size : ℕ) → SafeWith 0 (return_data_copy host f m d size)
  unfolding return_data_copy
  return_data_copy-Safe m d size c l e =
      branch-NoNil (leb (2 ^ 64) (d + size) || ltb (length c.return_data) (d + size)) (clean refl)
        (copy_to-Safe m _ c l e)

  pub op_return_data_copy-Safe : SafeWith 3 (op_return_data_copy host f)
  unfolding op_return_data_copy
  op_return_data_copy-Safe c l e =
      branch-NoNil f.config.byzantium
        (pop-Safe 2 _
          (λ m. pop-Safe 1 _ λ d. pop-Safe 0 _ λ size. allocate_memory-Safe 0 m size _ λ c l e.
            branch-NoNil (leb (2 ^ 64) d) (clean refl)
              (consume_gas-Safe 0 (words size * 3) _ (return_data_copy-Safe m d size) c l e))
          c l e)
        (clean refl)

  pub op_return-Safe : SafeWith 2 (op_return host f)
  unfolding op_return
  op_return-Safe =
      pop-Safe 1 _
        λ offset. pop-Safe 0 _ λ size. get2-Safe 0 offset size _ λ bytes c l e. kept e refl

  pub op_revert-Safe : SafeWith 2 (op_revert host f)
  unfolding op_revert
  op_revert-Safe c l e =
      branch-NoNil f.config.byzantium
        (pop-Safe 1 _
          (λ offset. pop-Safe 0 _ λ size. get2-Safe 0 offset size _ λ bytes c l e. clean refl) c l
          e)
        (clean refl)
