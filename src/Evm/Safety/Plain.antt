-- ===== src/Evm/Safety/Plain.antt =====
-- state/runtime/evm/instructions.go: what the instructions pop that only use the stack.
use mainnet.Evm.{Forks, Frame, Vm}
use mainnet.Evm.Machine.{push}
use mainnet.Evm.Safety.{
  clean, kept, SafeWith, branch-NoNil, option-NoNil, list-NoNil, pop-Safe, consume_gas-Safe,
}
use mainnet.Evm.Words.{byte_len}
use mainnet.Evm.Instructions.Arithmetic.{
  binary, unary, ternary, op_exp, op_sign_extension, since_constantinople, valid_jumpdest, jump_to,
  op_jump, op_jumpi, op_push, op_dup, op_swap, op_pop,
}
use mainnet.Common.{ℕ, ◌-◌, ◌*◌, refl, arith, ◌==◌, if◌then◌else◌, get_elem?}

module _ {World : Type 0} where
  pub since_constantinople-Safe :
      (n : ℕ) (config : Forks) (op : Vm World → Vm World)
      → SafeWith n op
      → SafeWith n (since_constantinople config op)
  unfolding since_constantinople
  since_constantinople-Safe n config op h c l e =
      branch-NoNil config.constantinople (h c l e) (clean refl)

  pub binary-Safe : (op : ℕ → ℕ → ℕ) → SafeWith {World = World} 2 (binary op)
  unfolding binary
  binary-Safe op = pop-Safe 1 _ λ a. pop-Safe 0 _ λ b c l e. kept e refl

  pub unary-Safe : (op : ℕ → ℕ) → SafeWith {World = World} 1 (unary op)
  unfolding unary
  unary-Safe op = pop-Safe 0 _ λ a c l e. kept e refl

  pub ternary-Safe : (op : ℕ → ℕ → ℕ → ℕ) → SafeWith {World = World} 3 (ternary op)
  unfolding ternary
  ternary-Safe op = pop-Safe 2 _ λ a. pop-Safe 1 _ λ b. pop-Safe 0 _ λ z c l e. kept e refl

  pub op_exp-Safe : (config : Forks) → SafeWith {World = World} 2 (op_exp config)
  unfolding op_exp
  op_exp-Safe config = pop-Safe 1 _ λ x. pop-Safe 0 _ λ y c l e.
      consume_gas-Safe 1 (byte_len y * (if config.eip158 then 50 else 10)) _
        (pop-Safe 0 _ λ y c l e. kept e refl) (push y c) (omega arith) (kept e refl)

  pub op_sign_extension-Safe : SafeWith {World = World} 1 op_sign_extension
  unfolding op_sign_extension
  op_sign_extension-Safe =
      pop-Safe 0 _ λ ext c l e. list-NoNil c.stack (kept e refl) λ x rest. kept e refl

  jump_to-Safe : (f : Frame) (dest : ℕ) → SafeWith {World = World} 0 (jump_to f dest)
  unfolding jump_to
  jump_to-Safe f dest c l e = branch-NoNil (valid_jumpdest f dest) (kept e refl) (clean refl)

  pub op_jump-Safe : (f : Frame) → SafeWith {World = World} 1 (op_jump f)
  op_jump-Safe f = pop-Safe 0 _ λ dest. jump_to-Safe f dest

  pub op_jumpi-Safe : (f : Frame) → SafeWith {World = World} 2 (op_jumpi f)
  op_jumpi-Safe f = pop-Safe 1 _ λ dest.
      pop-Safe 0 _ λ cond c l e. branch-NoNil (cond == 0) (kept e refl) (jump_to-Safe f dest c l e)

  pub op_push-Safe : (f : Frame) (n : ℕ) → SafeWith {World = World} 0 (op_push f n)
  unfolding op_push
  op_push-Safe f n c l e = kept e refl

  pub op_dup-Safe : (n : ℕ) → SafeWith {World = World} 0 (op_dup n)
  unfolding op_dup
  op_dup-Safe n c l e = option-NoNil (get_elem? c.stack (n - 1)) (clean refl) λ v. kept e refl

  pub op_swap-Safe : (n : ℕ) → SafeWith {World = World} 0 (op_swap n)
  unfolding op_swap
  op_swap-Safe n c l e =
      list-NoNil c.stack (clean refl)
        λ top rest. option-NoNil (get_elem? rest (n - 1)) (clean refl) λ v. kept e refl

  pub op_pop-Safe : SafeWith {World = World} 1 op_pop
  op_pop-Safe = pop-Safe 0 _ λ a c l e. kept e refl
