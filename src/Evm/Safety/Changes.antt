-- ===== src/Evm/Safety/Changes.antt =====
-- state/runtime/evm/instructions.go: what the instructions pop that change the state of the host.
use mainnet.Evm.{
  CallType, call, call_code, delegate_call, static_call, create, create2, Frame, Host, Vm,
  ExecutionResult, succeeded, is_revert,
}
use mainnet.Evm.Machine.{push, words, to_address, take}
use mainnet.Evm.Safety.{
  NoNil, clean, kept, SafeWith, branch-NoNil, if-NoNil, option-NoNil, pop-Safe, consume_gas-Safe,
  allocate_memory-Safe, get2-Safe,
}
use mainnet.Evm.Instructions.Effects.{
  op_sload, store, op_sstore, selfdestruct_cost, op_selfdestruct, log_to, op_log,
}
use mainnet.Evm.Instructions.Calls.{
  all_but_64th, call_cost, has_value, is_some_value, handed_on, value_below, send_call, receive,
  after_call, build_call, pop_value, sends_value, is_missing_call, op_call,
}
use mainnet.Evm.Instructions.Creation.{after_create, pay_create, build_create, op_create}
use mainnet.Common.{
  ℕ, suc, ◌+◌, ◌*◌, ◌%◌, ◌^◌, ◌≤◌, refl, inl, inr, Bool, true, false, not, ◌&&◌, ◌||◌, Option, none,
  some, List, [], arith, ltb, leb, ◌==◌, if◌then◌else◌, Bool-cases, length, drop,
}

module _ (host : Host) (f : Frame) where
  open host use {State}

  pub op_sload-Safe : SafeWith 1 (op_sload host f)
  unfolding op_sload
  op_sload-Safe = pop-Safe 0 _ λ loc c l e.
      consume_gas-Safe 1 _ _ (pop-Safe 0 _ λ loc c l e. kept e refl) (push loc c) (omega arith)
        (kept e refl)

  store-Safe : (key val : ℕ) → SafeWith 0 (store host f key val)
  unfolding store
  store-Safe key val c l e = consume_gas-Safe 0 _ _ (λ c l e. e) _ l (kept e refl)

  pub op_sstore-Safe : SafeWith 2 (op_sstore host f)
  unfolding op_sstore
  op_sstore-Safe c l e = branch-NoNil f.msg.static (clean refl) (
      branch-NoNil (f.config.istanbul && leb c.gas 2300) (clean refl)
        (pop-Safe 1 _ (λ key. pop-Safe 0 _ λ val. store-Safe key val) c l e))

  pub op_selfdestruct-Safe : SafeWith 1 (op_selfdestruct host f)
  unfolding op_selfdestruct
  op_selfdestruct-Safe c l e = branch-NoNil f.msg.static (clean refl) (
      pop-Safe 0 _
        (λ a c l e.
          consume_gas-Safe 0 (selfdestruct_cost host f (to_address a) c) _ (λ c l e. kept e refl) c
            l e)
        c l e)

  log_to-Safe :
      (size : ℕ) (topics : List ℕ) (m_size : ℕ) (bytes : List ℕ)
      → SafeWith 0 (log_to host f size topics m_size bytes)
  unfolding log_to
  log_to-Safe size topics m_size bytes c l e =
      consume_gas-Safe 0 (size * 375) _
        (consume_gas-Safe 0 (m_size % 2 ^ 64 * 8 % 2 ^ 64) _ λ c l e. e) _ l (kept e refl)

  -- The instruction itself asks for the words that it pops.
  pub op_log-Safe : (size : ℕ) → SafeWith 0 (op_log host f size)
  unfolding op_log
  op_log-Safe size c l e =
      branch-NoNil f.msg.static (clean refl) (elim (Bool-cases (leb (2 + size) (length c.stack))) [
        | inl b ↦ rw b (
            pop-Safe 1 _
              (λ m_start. pop-Safe 0 _ λ m_size c l e.
                get2-Safe 0 m_start m_size _
                  (λ bytes. log_to-Safe size (take size c.stack) m_size bytes)
                  (record c { stack = drop size c.stack }) (omega arith) (kept e refl))
              c (ground (arith, b)) e)
        | inr b ↦ rw b (clean refl)
      ])

  after_create-Safe :
      (is_create2 : Bool) (address : ℕ) (result : ExecutionResult)
      → SafeWith 0 (after_create host f is_create2 address result)
  unfolding after_create
  after_create-Safe is_create2 address result c l e =
      if-NoNil (is_revert result.error) (kept e refl) (kept e refl)

  pay_create-Safe :
      (is_create2 : Bool) (value size salt : ℕ) (input : List ℕ)
      → SafeWith 0 (pay_create host f is_create2 value size salt input)
  unfolding pay_create
  pay_create-Safe is_create2 value size salt input =
      consume_gas-Safe 0 (if is_create2 then words (size % 2 ^ 64) * 6 else 0) _ λ c l e.
        consume_gas-Safe 0 (if f.config.eip150 || is_create2 then all_but_64th c.gas else c.gas) _
          (λ c l e. after_create-Safe is_create2 _ _ _ (omega arith) (kept e refl)) c l e

  build_create-Safe :
      (is_create2 : Bool) (value offset size salt : ℕ)
      → SafeWith 0 (build_create host f is_create2 value offset size salt)
  unfolding build_create
  build_create-Safe is_create2 value offset size salt = get2-Safe 0 offset size _ λ input.
      consume_gas-Safe 0 0 _ λ c l e.
        branch-NoNil (not (value == 0) && ltb (host.get_balance c.world f.msg.address) value)
          (kept e refl) (pay_create-Safe is_create2 value size salt input c l e)

  -- The salt is a fourth word.
  abbrev words_of_create : Bool → ℕ
  words_of_create true = 4
  words_of_create false = 3

  pub op_create-Safe :
      (is_create2 : Bool) → SafeWith (words_of_create is_create2) (op_create host f is_create2)
  unfolding op_create
  op_create-Safe true c l e = branch-NoNil f.msg.static (clean refl) (
      branch-NoNil (not f.config.constantinople) (clean refl) (
        pop-Safe 3 _
          (λ value. pop-Safe 2 _ λ offset.
            pop-Safe 1 _ λ size. pop-Safe 0 _ λ salt. build_create-Safe true value offset size salt)
          (record c { return_data = [] }) l (kept e refl)))
  op_create-Safe false c l e = branch-NoNil f.msg.static (clean refl) (
      pop-Safe 2 _
        (λ value.
          pop-Safe 1 _ λ offset. pop-Safe 0 _ λ size. build_create-Safe false value offset size 0)
        (record c { return_data = [] }) l (kept e refl))

  receive-Safe : (offset size : ℕ) (value : List ℕ) → SafeWith 0 (receive host f offset size value)
  unfolding receive
  receive-Safe offset size value c l e =
      branch-NoNil (length value == 0) e
        (branch-NoNil (ltb (length c.memory) (offset + size)) (clean refl) (kept e refl))

  after_call-Safe :
      (offset size : ℕ) (result : ExecutionResult)
      → SafeWith 0 (after_call host f offset size result)
  unfolding after_call
  after_call-Safe offset size result c l e =
      kept
        (if-NoNil (succeeded result || is_revert result.error)
          (receive-Safe offset size result.return_value (push (if succeeded result then 1 else 0) c)
            (omega arith) (kept e refl))
          (kept {d = push (if succeeded result then 1 else 0) c} e refl))
        refl

  build_call-Safe :
      (type : CallType) (initial addr : ℕ) (value : Option ℕ)
      → SafeWith 4 (build_call host f type initial addr value)
  unfolding build_call send_call
  build_call-Safe type initial addr value = pop-Safe 3 _ λ in_offset. pop-Safe 2 _ λ in_size.
      pop-Safe 1 _ λ ret_offset. pop-Safe 0 _ λ ret_size. get2-Safe 0 in_offset in_size _ λ args.
        allocate_memory-Safe 0 ret_offset ret_size _ λ c l e.
          let transfers_value = has_value type && is_some_value value in
          option-NoNil
            (handed_on host f c.gas (call_cost host f type addr transfers_value c) initial)
            (clean refl)
            λ gas.
              consume_gas-Safe 0 _ _
                (λ c l e.
                  branch-NoNil
                    (transfers_value
                      && value_below host f value (host.get_balance c.world f.msg.address))
                    (kept e refl)
                    (after_call-Safe ret_offset ret_size _ _ (omega arith) (kept e refl)))
                c l e

  -- The words behind the gas and the address: CALL and CALLCODE have a value.
  abbrev pub rest_of_call : CallType → ℕ
  rest_of_call call = 5
  rest_of_call call_code = 5
  rest_of_call _ = 4

  with_value :
      (type : CallType) (initial addr : ℕ) (c : Vm State)
      → rest_of_call type ≤ length c.stack
      → NoNil c
      → NoNil (pop_value host f type c λ value c. build_call host f type initial addr value c)
  with_value call initial addr c l e =
      pop-Safe 4 _ (λ v. build_call-Safe call initial addr (some v)) c l e
  with_value call_code initial addr c l e =
      pop-Safe 4 _ (λ v. build_call-Safe call_code initial addr (some v)) c l e
  with_value delegate_call initial addr c l e =
      build_call-Safe delegate_call initial addr none c l e
  with_value static_call initial addr c l e = build_call-Safe static_call initial addr none c l e
  with_value create initial addr c l e = build_call-Safe create initial addr none c l e
  with_value create2 initial addr c l e = build_call-Safe create2 initial addr none c l e

  pub op_call-Safe :
      (type : CallType) → SafeWith (suc (suc (rest_of_call type))) (op_call host f type)
  unfolding op_call
  op_call-Safe type start l e =
      let c = record start { return_data = [] } in
      branch-NoNil (sends_value host f type c) (clean refl) (
        branch-NoNil (is_missing_call host f type) (clean refl) (
          pop-Safe (suc (rest_of_call type)) _
            (λ initial_gas.
              pop-Safe (rest_of_call type) _ λ addr. with_value type initial_gas (to_address addr))
            c l (kept e refl)))
