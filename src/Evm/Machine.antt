-- ===== src/Evm/Machine.antt =====
-- state/runtime/evm/state.go: the gas, the stack and the memory of the machine.
-- What the source does after a call that may stop the machine is the continuation `next`.
use mainnet.Evm.{Error, out_of_gas, gas_uint_overflow, nil_dereference, Vm}
use mainnet.Common.{
  ℕ, zero, suc, ◌+◌, ◌-◌, ◌*◌, ◌/◌, ◌%◌, ◌^◌, true, false, ◌||◌, some, List, [], ◌∷◌, ◌++◌, ltb,
  leb, ◌==◌, if◌then◌else◌, length, drop,
}

abbrev pub take : {A : Type 0} → ℕ → List A → List A
take zero xs = []
take (suc n) [] = []
take (suc n) (x ∷ xs) = x ∷ take n xs

unfoldable pub zeros : ℕ → List ℕ
zeros zero = []
zeros (suc n) = 0 ∷ zeros n

-- dst[o:o+l]
abbrev pub slice : ℕ → ℕ → List ℕ → List ℕ
slice o l bytes = take l (drop o bytes)

-- copy(dst[o:], src)
unfoldable pub overwrite : ℕ → List ℕ → List ℕ → List ℕ
overwrite o src [] = []
overwrite zero [] (b ∷ dst) = b ∷ dst
overwrite zero (s ∷ src) (b ∷ dst) = s ∷ overwrite zero src dst
overwrite (suc o) src (b ∷ dst) = b ∷ overwrite o src dst

-- The bytes of a word, the most significant first.
unfoldable pub bytes_of : ℕ → ℕ → List ℕ
bytes_of zero v = []
bytes_of (suc n) v = bytes_of n (v / 256) ++ v % 256 ∷ []

-- SetBytes
unfoldable pub value_of : ℕ → List ℕ → ℕ
value_of acc [] = acc
value_of acc (b ∷ bytes) = value_of (acc * 256 + b) bytes

-- What setBytes copies: bytes of the input from an offset on, and zeros behind its end.
unfoldable pub window : List ℕ → ℕ → ℕ → List ℕ
window input size offset =
    let begin = if ltb offset (length input) then offset else length input in
    let rest = length input - begin in
    let copied = if ltb size rest then size else rest in
    if leb (2 ^ 64) offset then zeros size else slice begin copied input ++ zeros (size - copied)

-- popAddr and popHash
abbrev pub to_address : ℕ → ℕ
to_address v = v % 2 ^ 160

-- The cost of a memory of some words, in a uint64.
abbrev pub memory_cost : ℕ → ℕ
memory_cost w = (3 * w + w * w % 2 ^ 64 / 512) % 2 ^ 64

abbrev pub words : ℕ → ℕ
words size = (size + 31) / 32

module _ {World : Type 0} where
  abbrev pub halt : Vm World → Vm World
  halt c = record c { stopped = true }

  abbrev pub exit : Error → Vm World → Vm World
  exit e c = record c { stopped = true; error = some e }

  unfoldable pub consume_gas : ℕ → Vm World → (Vm World → Vm World) → Vm World
  consume_gas amount c next =
      let metered = record c { consumed = (c.consumed + amount) % 2 ^ 64 } in
      elim (ltb c.gas amount) [
        | true ↦ exit out_of_gas metered
        | false ↦ next (record metered { gas = c.gas - amount })
      ]

  abbrev pub push : ℕ → Vm World → Vm World
  push v c = record c { stack = v ∷ c.stack }

  -- A pop from an empty stack is nil, which panics where it is used.
  unfoldable pub pop : Vm World → (ℕ → Vm World → Vm World) → Vm World
  pop c next = elim c.stack [
    | [] ↦ exit nil_dereference c
    | v ∷ rest ↦ next v (record c { stack = rest })
  ]

  abbrev pub resized : ℕ → Vm World → Vm World
  resized size c = record c { memory = c.memory ++ zeros (size - length c.memory) }

  unfoldable pub grow : ℕ → Vm World → (Vm World → Vm World) → Vm World
  grow new_size c next = elim (ltb (length c.memory) new_size) [
    | false ↦ next c
    | true ↦
        let new_cost = memory_cost (words new_size) in
        let cost = (new_cost + 2 ^ 64 - c.last_gas_cost) % 2 ^ 64 in
        consume_gas cost (record c { last_gas_cost = new_cost })
          λ c. next (resized (words new_size * 32) c)
  ]

  unfoldable pub allocate_memory : ℕ → ℕ → Vm World → (Vm World → Vm World) → Vm World
  allocate_memory offset size c next = elim (leb (2 ^ 64) offset || leb (2 ^ 64) size) [
    | true ↦ exit gas_uint_overflow c
    | false ↦ elim (size == 0) [
      | true ↦ next c
      | false ↦ elim (ltb 0xffffffffe0 offset || ltb 0xffffffffe0 size) [
        | true ↦ exit gas_uint_overflow c
        | false ↦ grow (offset + size) c next
      ]
    ]
  ]

  unfoldable pub get2 : ℕ → ℕ → Vm World → (List ℕ → Vm World → Vm World) → Vm World
  get2 offset size c next = elim (size == 0) [
    | true ↦ next [] c
    | false ↦ allocate_memory offset size c λ c. next (slice offset size c.memory) c
  ]

  -- setBytes into the memory, which is large enough.
  abbrev pub write : ℕ → List ℕ → Vm World → Vm World
  write offset bytes c = record c { memory = overwrite offset bytes c.memory }
