-- ===== src/Evm/Gas/Memory.antt =====
-- state/runtime/evm/instructions.go: what the instructions take that use the memory, the message or the block.
use mainnet.Evm.{Frame, Host, Vm}
use mainnet.Evm.Machine.{words, to_address}
use mainnet.Evm.Gas.{
  if-positive, branch-Paid, Paid, Pays, keeps, stops, pop-Pays, consume_gas-Paid, consume_gas-Pays,
  allocate_memory-Pays, get2-Pays, Paid-weaken,
}
use mainnet.Evm.Gas.Plain.{unary-Pays, since_constantinople-Pays}
use mainnet.Evm.Instructions.Context.{
  of_account, op_balance, since_istanbul, op_call_data_load, op_ext_code_size, op_return_data_size,
  op_ext_code_hash, op_block_hash, op_self_balance, op_chain_id,
}
use mainnet.Evm.Instructions.Copying.{
  op_mload, op_mstore, op_mstore8, op_sha3, copy_window, op_ext_code_copy, op_copy, copy_to,
  return_data_copy, op_return_data_copy, op_return, op_revert,
}
use mainnet.Common.{
  ℕ, ◌+◌, ◌*◌, ◌%◌, ◌^◌, ◌≤◌, refl, ◌||◌, List, arith, ltb, leb, ◌==◌, if◌then◌else◌, length,
}

module _ (host : Host) (f : Frame) where
  open host use {State}

  pub of_account-Pays :
      (gas : ℕ) (tell : State → ℕ → ℕ) (c : Vm State)
      → 1 ≤ gas
      → Paid 1 c.gas (of_account host f gas tell c)
  unfolding of_account
  of_account-Pays gas tell c h = pop-Pays 1 c _ λ a c.
      Paid-weaken 1 (gas + 0) c.gas _ (omega (arith, h))
        (consume_gas-Pays 0 gas c _ λ c. keeps c _ refl)

  pub since_istanbul-Pays :
      (n : ℕ) (op : Vm State → Vm State) → Pays n op → Pays n (since_istanbul host f op)
  unfolding since_istanbul
  since_istanbul-Pays n op h c = branch-Paid f.config.istanbul (h c) (stops n c _ refl refl)

  pub op_balance-Pays : (c : Vm State) → Paid 1 c.gas (op_balance host f c)
  op_balance-Pays c = of_account-Pays _ host.get_balance c (
      if-positive f.config.istanbul _ _ (omega arith)
        (if-positive f.config.eip150 400 20 (omega arith) (omega arith)))

  pub op_ext_code_size-Pays : (c : Vm State) → Paid 1 c.gas (op_ext_code_size host f c)
  op_ext_code_size-Pays c =
      of_account-Pays _ _ c (if-positive f.config.eip150 700 20 (omega arith) (omega arith))

  pub op_ext_code_hash-Pays : (c : Vm State) → Paid 1 c.gas (op_ext_code_hash host f c)
  op_ext_code_hash-Pays c =
      since_constantinople-Pays 1 f.config _
        (λ c.
          of_account-Pays _ _ c (if-positive f.config.istanbul 700 400 (omega arith) (omega arith)))
        c

  pub op_self_balance-Pays : (c : Vm State) → Paid 0 c.gas (op_self_balance host f c)
  op_self_balance-Pays c = since_istanbul-Pays 0 _ (λ c. keeps c _ refl) c

  pub op_chain_id-Pays : (c : Vm State) → Paid 0 c.gas (op_chain_id host f c)
  op_chain_id-Pays c = since_istanbul-Pays 0 _ (λ c. keeps c _ refl) c

  pub op_call_data_load-Pays : (c : Vm State) → Paid 0 c.gas (op_call_data_load host f c)
  unfolding op_call_data_load
  op_call_data_load-Pays c = unary-Pays _ c

  pub op_return_data_size-Pays : (c : Vm State) → Paid 0 c.gas (op_return_data_size host f c)
  unfolding op_return_data_size
  op_return_data_size-Pays c =
      branch-Paid f.config.byzantium (keeps c _ refl) (stops 0 c _ refl refl)

  pub op_block_hash-Pays : (c : Vm State) → Paid 0 c.gas (op_block_hash host f c)
  unfolding op_block_hash
  op_block_hash-Pays c = pop-Pays 0 c _ λ n c. keeps c _ refl

  pub op_mload-Pays : (c : Vm State) → Paid 0 c.gas (op_mload host f c)
  unfolding op_mload
  op_mload-Pays c = pop-Pays 0 c _ λ offset c. get2-Pays 0 offset 32 c _ λ bytes c. keeps c _ refl

  pub op_mstore-Pays : (c : Vm State) → Paid 0 c.gas (op_mstore host f c)
  unfolding op_mstore
  op_mstore-Pays c =
      pop-Pays 0 c _
        λ offset c. pop-Pays 0 c _ λ val c. allocate_memory-Pays 0 offset 32 c _ λ c. keeps c _ refl

  pub op_mstore8-Pays : (c : Vm State) → Paid 0 c.gas (op_mstore8 host f c)
  unfolding op_mstore8
  op_mstore8-Pays c =
      pop-Pays 0 c _
        λ offset c. pop-Pays 0 c _ λ val c. allocate_memory-Pays 0 offset 1 c _ λ c. keeps c _ refl

  pub op_sha3-Pays : (c : Vm State) → Paid 0 c.gas (op_sha3 host f c)
  unfolding op_sha3
  op_sha3-Pays c = pop-Pays 0 c _ λ offset c. pop-Pays 0 c _ λ size c.
      get2-Pays 0 offset size c _
        λ bytes c. consume_gas-Paid 0 (words (size % 2 ^ 64) * 6) c _ λ c. keeps c _ refl

  copy_window-Pays :
      (source : List ℕ) (mem_offset data_offset size : ℕ) (c : Vm State)
      → Paid 0 c.gas (copy_window host f source mem_offset data_offset size c)
  unfolding copy_window
  copy_window-Pays source mem_offset data_offset size c =
      branch-Paid (size == 0) (keeps c _ refl) (keeps c _ refl)

  pub op_copy-Pays : (source : List ℕ) (c : Vm State) → Paid 0 c.gas (op_copy host f source c)
  unfolding op_copy
  op_copy-Pays source c = pop-Pays 0 c _ λ m c. pop-Pays 0 c _ λ d c. pop-Pays 0 c _ λ size c.
      allocate_memory-Pays 0 m size c _
        λ c. consume_gas-Paid 0 (words size * 3) c _ λ c. copy_window-Pays source m d size c

  pub op_ext_code_copy-Pays : (c : Vm State) → Paid 1 c.gas (op_ext_code_copy host f c)
  unfolding op_ext_code_copy
  op_ext_code_copy-Pays c = pop-Pays 1 c _ λ address c. pop-Pays 1 c _ λ m c. pop-Pays 1 c _ λ d c.
      pop-Pays 1 c _ λ size c. allocate_memory-Pays 1 m size c _ λ c.
        consume_gas-Paid 1 (words size * 3) c _ λ c.
          Paid-weaken 1 ((if f.config.eip150 then 700 else 20) + 0) c.gas _
            (omega (arith, if-positive f.config.eip150 700 20 (omega arith) (omega arith)))
            (consume_gas-Pays 0 (if f.config.eip150 then 700 else 20) c _
              λ c. copy_window-Pays (host.get_code c.world (to_address address)) m d size c)

  copy_to-Pays :
      (offset : ℕ) (bytes : List ℕ) (c : Vm State) → Paid 0 c.gas (copy_to host f offset bytes c)
  unfolding copy_to
  copy_to-Pays offset bytes c =
      branch-Paid (ltb (length c.memory) offset) (stops 0 c _ refl refl) (keeps c _ refl)

  return_data_copy-Pays :
      (m d size : ℕ) (c : Vm State) → Paid 0 c.gas (return_data_copy host f m d size c)
  unfolding return_data_copy
  return_data_copy-Pays m d size c =
      branch-Paid (leb (2 ^ 64) (d + size) || ltb (length c.return_data) (d + size))
        (stops 0 c _ refl refl) (copy_to-Pays m _ c)

  pub op_return_data_copy-Pays : (c : Vm State) → Paid 0 c.gas (op_return_data_copy host f c)
  unfolding op_return_data_copy
  op_return_data_copy-Pays c =
      branch-Paid f.config.byzantium
        (pop-Pays 0 c _ λ m c. pop-Pays 0 c _ λ d c. pop-Pays 0 c _ λ size c.
          allocate_memory-Pays 0 m size c _ λ c.
            branch-Paid (leb (2 ^ 64) d) (stops 0 c _ refl refl)
              (consume_gas-Paid 0 (words size * 3) c _ λ c. return_data_copy-Pays m d size c))
        (stops 0 c _ refl refl)

  pub op_return-Pays : (c : Vm State) → Paid 1 c.gas (op_return host f c)
  unfolding op_return
  op_return-Pays c = pop-Pays 1 c _ λ offset c.
      pop-Pays 1 c _ λ size c. get2-Pays 1 offset size c _ λ bytes c. stops 1 c _ refl refl

  pub op_revert-Pays : (c : Vm State) → Paid 1 c.gas (op_revert host f c)
  unfolding op_revert
  op_revert-Pays c =
      branch-Paid f.config.byzantium
        (pop-Pays 1 c _ λ offset c.
          pop-Pays 1 c _ λ size c. get2-Pays 1 offset size c _ λ bytes c. stops 1 c _ refl refl)
        (stops 1 c _ refl refl)
