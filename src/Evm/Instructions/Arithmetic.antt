-- ===== src/Evm/Instructions/Arithmetic.antt =====
-- state/runtime/evm/instructions.go: arithmetic, the stack and jumps.
use Prim.Native.Nat.{bit_and, bit_or, bit_xor}
use mainnet.Evm.{op_code_not_found, stack_underflow, invalid_jump, Forks, Frame, Vm}
use mainnet.Evm.Words
use mainnet.Evm.Words.{bit_of, byte_len}
use mainnet.Evm.Machine.{halt, exit, consume_gas, push, pop, zeros, slice, value_of}
use mainnet.Common.{
  ℕ, ◌+◌, ◌-◌, ◌*◌, ◌/◌, ◌%◌, ◌^◌, Bool, true, false, ◌||◌, none, some, List, [], ◌∷◌, ◌++◌, ltb,
  leb, ◌==◌, if◌then◌else◌, length, get_elem?, set, drop,
}

-- The bit of a code position in the bytes of the bitmap.
unfoldable pub is_set : List ℕ → ℕ → Bool
is_set bitmap i = elim (get_elem? bitmap (i / 8)) [
  | none ↦ false
  | some b ↦ b / 2 ^ (i % 8) % 2 == 1
]

unfoldable pub valid_jumpdest : Frame → ℕ → Bool
valid_jumpdest f dest =
    if leb (2 ^ 62) dest || leb (length f.code) dest then false else is_set f.bitmap dest

module _ {World : Type 0} where
  -- a pop, and a new top in the place of the second word.
  unfoldable pub binary : (ℕ → ℕ → ℕ) → Vm World → Vm World
  binary op c = pop c λ a c. pop c λ b c. push (op a b) c

  unfoldable pub unary : (ℕ → ℕ) → Vm World → Vm World
  unary op c = pop c λ a c. push (op a) c

  unfoldable pub ternary : (ℕ → ℕ → ℕ → ℕ) → Vm World → Vm World
  ternary op c = pop c λ a c. pop c λ b c. pop c λ z c. push (op a b z) c

  abbrev pub op_add : Vm World → Vm World
  op_add c = binary Words.add c

  abbrev pub op_mul : Vm World → Vm World
  op_mul c = binary Words.mul c

  abbrev pub op_sub : Vm World → Vm World
  op_sub c = binary Words.sub c

  abbrev pub op_div : Vm World → Vm World
  op_div c = binary Words.div c

  abbrev pub op_sdiv : Vm World → Vm World
  op_sdiv c = binary Words.sdiv c

  abbrev pub op_mod : Vm World → Vm World
  op_mod c = binary Words.mod_word c

  abbrev pub op_smod : Vm World → Vm World
  op_smod c = binary Words.smod c

  unfoldable pub op_exp : Forks → Vm World → Vm World
  op_exp config c = pop c λ x c. pop c λ y c.
      let gas = if config.eip158 then 50 else 10 in
      consume_gas (byte_len y * gas) (push y c) λ c. pop c λ y c. push (Words.exp x y) c

  abbrev pub op_add_mod : Vm World → Vm World
  op_add_mod c = ternary Words.addmod c

  abbrev pub op_mul_mod : Vm World → Vm World
  op_mul_mod c = ternary Words.mulmod c

  abbrev pub op_and : Vm World → Vm World
  op_and c = binary bit_and c

  abbrev pub op_or : Vm World → Vm World
  op_or c = binary bit_or c

  abbrev pub op_xor : Vm World → Vm World
  op_xor c = binary bit_xor c

  abbrev pub op_byte : Vm World → Vm World
  op_byte c = binary Words.byte c

  abbrev pub op_not : Vm World → Vm World
  op_not c = unary Words.not_word c

  abbrev pub op_is_zero : Vm World → Vm World
  op_is_zero c = unary (λ a. bit_of (a == 0)) c

  abbrev pub op_eq : Vm World → Vm World
  op_eq c = binary (λ a b. bit_of (a == b)) c

  abbrev pub op_lt : Vm World → Vm World
  op_lt c = binary (λ a b. bit_of (ltb a b)) c

  abbrev pub op_gt : Vm World → Vm World
  op_gt c = binary (λ a b. bit_of (ltb b a)) c

  abbrev pub op_slt : Vm World → Vm World
  op_slt c = binary Words.slt c

  abbrev pub op_sgt : Vm World → Vm World
  op_sgt c = binary Words.sgt c

  -- With one word on the stack it is popped, and nothing else happens.
  unfoldable pub op_sign_extension : Vm World → Vm World
  op_sign_extension c = pop c λ ext c. elim c.stack [
    | [] ↦ c
    | x ∷ rest ↦ record c { stack = Words.sign_extend ext x ∷ rest }
  ]

  unfoldable pub since_constantinople : Forks → (Vm World → Vm World) → Vm World → Vm World
  since_constantinople config op c = elim config.constantinople [
    | false ↦ exit op_code_not_found c
    | true ↦ op c
  ]

  abbrev pub op_shl : Forks → Vm World → Vm World
  op_shl config c = since_constantinople config (binary Words.shl) c

  abbrev pub op_shr : Forks → Vm World → Vm World
  op_shr config c = since_constantinople config (binary Words.shr) c

  abbrev pub op_sar : Forks → Vm World → Vm World
  op_sar config c = since_constantinople config (binary Words.sar) c

  abbrev pub op_pop : Vm World → Vm World
  op_pop c = pop c λ a c. c

  -- Minus one, which the end of the round adds again; 0 wraps around.
  unfoldable pub jump_to : Frame → ℕ → Vm World → Vm World
  jump_to f dest c = elim (valid_jumpdest f dest) [
    | true ↦ record c { ip = (dest + 2 ^ 64 - 1) % 2 ^ 64 }
    | false ↦ exit invalid_jump c
  ]

  abbrev pub op_jump : Frame → Vm World → Vm World
  op_jump f c = pop c λ dest c. jump_to f dest c

  abbrev pub op_jumpi : Frame → Vm World → Vm World
  op_jumpi f c =
      pop c λ dest c. pop c λ cond c. elim (cond == 0) [ true ↦ c | false ↦ jump_to f dest c ]

  -- Where the code ends within the constant, n zeros are put behind what is left of it.
  unfoldable pub op_push : Frame → ℕ → Vm World → Vm World
  op_push f n c =
      let ip = c.ip in
      let bytes =
        if ltb (length f.code) (ip + 1 + n)
        then drop (ip + 1) f.code ++ zeros n
        else slice (ip + 1) n f.code in
      record (push (value_of 0 bytes) c) { ip = ip + n }

  unfoldable pub op_dup : ℕ → Vm World → Vm World
  op_dup n c = elim (get_elem? c.stack (n - 1)) [
    | none ↦ exit stack_underflow c
    | some val ↦ push val c
  ]

  unfoldable pub op_swap : ℕ → Vm World → Vm World
  op_swap n c = elim c.stack [
    | [] ↦ exit stack_underflow c
    | top ∷ rest ↦ elim (get_elem? rest (n - 1)) [
      | none ↦ exit stack_underflow c
      | some val ↦ record c { stack = val ∷ set rest (n - 1) top }
    ]
  ]

  abbrev pub op_stop : Vm World → Vm World
  op_stop c = halt c
