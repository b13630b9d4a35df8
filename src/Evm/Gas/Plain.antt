-- ===== src/Evm/Gas/Plain.antt =====
-- state/runtime/evm/instructions.go: what the instructions take that only use the stack.
use mainnet.Evm.{Forks, Frame, Vm}
use mainnet.Evm.Machine.{push}
use mainnet.Evm.Gas.{
  branch-Paid, option-Paid, list-Paid, Paid, Pays, keeps, stops, pop-Pays, consume_gas-Paid,
}
use mainnet.Evm.Words.{byte_len}
use mainnet.Evm.Instructions.Arithmetic.{
  binary, unary, ternary, op_exp, op_sign_extension, since_constantinople, valid_jumpdest, jump_to,
  op_jump, op_jumpi, op_push, op_dup, op_swap, op_pop,
}
use mainnet.Common.{ℕ, ◌-◌, ◌*◌, refl, ◌==◌, if◌then◌else◌, get_elem?}

module _ {World : Type 0} where
  pub binary-Pays : (op : ℕ → ℕ → ℕ) (c : Vm World) → Paid 0 c.gas (binary op c)
  unfolding binary
  binary-Pays op c = pop-Pays 0 c _ λ a c. pop-Pays 0 c _ λ b c. keeps c _ refl

  pub unary-Pays : (op : ℕ → ℕ) (c : Vm World) → Paid 0 c.gas (unary op c)
  unfolding unary
  unary-Pays op c = pop-Pays 0 c _ λ a c. keeps c _ refl

  pub ternary-Pays : (op : ℕ → ℕ → ℕ → ℕ) (c : Vm World) → Paid 0 c.gas (ternary op c)
  unfolding ternary
  ternary-Pays op c =
      pop-Pays 0 c _ λ a c. pop-Pays 0 c _ λ b c. pop-Pays 0 c _ λ z c. keeps c _ refl

  pub op_exp-Pays : (config : Forks) (c : Vm World) → Paid 0 c.gas (op_exp config c)
  unfolding op_exp
  op_exp-Pays config c = pop-Pays 0 c _ λ x c. pop-Pays 0 c _ λ y c.
      consume_gas-Paid 0 (byte_len y * (if config.eip158 then 50 else 10)) (push y c) _
        λ c. pop-Pays 0 c _ λ y c. keeps c _ refl

  pub op_sign_extension-Pays : (c : Vm World) → Paid 0 c.gas (op_sign_extension c)
  unfolding op_sign_extension
  op_sign_extension-Pays c =
      pop-Pays 0 c _ λ ext c. list-Paid c.stack (keeps c _ refl) λ x rest. keeps c _ refl

  pub since_constantinople-Pays :
      (n : ℕ) (config : Forks) (op : Vm World → Vm World)
      → Pays n op
      → Pays n (since_constantinople config op)
  unfolding since_constantinople
  since_constantinople-Pays n config op h c =
      branch-Paid config.constantinople (h c) (stops n c _ refl refl)

  pub jump_to-Pays : (f : Frame) (dest : ℕ) (c : Vm World) → Paid 0 c.gas (jump_to f dest c)
  unfolding jump_to
  jump_to-Pays f dest c =
      branch-Paid (valid_jumpdest f dest) (keeps c _ refl) (stops 0 c _ refl refl)

  pub op_jump-Pays : (f : Frame) (c : Vm World) → Paid 0 c.gas (op_jump f c)
  op_jump-Pays f c = pop-Pays 0 c _ λ dest c. jump_to-Pays f dest c

  pub op_jumpi-Pays : (f : Frame) (c : Vm World) → Paid 0 c.gas (op_jumpi f c)
  op_jumpi-Pays f c = pop-Pays 0 c _ λ dest c.
      pop-Pays 0 c _ λ cond c. branch-Paid (cond == 0) (keeps c _ refl) (jump_to-Pays f dest c)

  pub op_push-Pays : (f : Frame) (n : ℕ) (c : Vm World) → Paid 0 c.gas (op_push f n c)
  unfolding op_push
  op_push-Pays f n c = keeps c _ refl

  pub op_dup-Pays : (n : ℕ) (c : Vm World) → Paid 0 c.gas (op_dup n c)
  unfolding op_dup
  op_dup-Pays n c =
      option-Paid (get_elem? c.stack (n - 1)) (stops 0 c _ refl refl) λ v. keeps c _ refl

  pub op_swap-Pays : (n : ℕ) (c : Vm World) → Paid 0 c.gas (op_swap n c)
  unfolding op_swap
  op_swap-Pays n c =
      list-Paid c.stack (stops 0 c _ refl refl)
        λ top rest. option-Paid (get_elem? rest (n - 1)) (stops 0 c _ refl refl) λ v. keeps c _ refl

  pub op_pop-Pays : (c : Vm World) → Paid 0 c.gas (op_pop c)
  op_pop-Pays c = pop-Pays 0 c _ λ a c. keeps c _ refl
