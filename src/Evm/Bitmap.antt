-- ===== src/Evm/Bitmap.antt =====
-- state/runtime/evm/bitmap.go: a bit for each jump destination of the code.
use Prim.Native.Nat.{bit_or}
use mainnet.Evm.Machine.{zeros}
use mainnet.Common.{
  ℕ, zero, suc, ◌+◌, ◌-◌, ◌/◌, ◌%◌, ◌^◌, Bool, true, false, none, some, List, ◌==◌, if◌then◌else◌,
  length, get_elem?, set,
}

-- i>>5 == 3
unfoldable pub is_push_op : ℕ → Bool
is_push_op c = c / 32 == 3

abbrev pub byte_at : List ℕ → ℕ → ℕ
byte_at bytes i = elim (get_elem? bytes i) [ none ↦ 0 | some b ↦ b ]

-- buf[i/8] |= 1 << (i%8)
unfoldable pub set_bit : List ℕ → ℕ → List ℕ
set_bit buf i = set buf (i / 8) (bit_or (byte_at buf (i / 8)) (2 ^ (i % 8)))

-- The loop over the code: a constant is skipped with its instruction.
unfoldable pub set_code_loop : ℕ → List ℕ → ℕ → List ℕ → List ℕ
set_code_loop zero code i buf = buf
set_code_loop (suc fuel) code i buf = elim (get_elem? code i) [
  | none ↦ buf
  | some c ↦ elim (is_push_op c) [
    | true ↦ set_code_loop fuel code (i + (c - 0x60 + 2)) buf
    | false ↦ set_code_loop fuel code (i + 1) (if c == 0x5b then set_bit buf i else buf)
  ]
]

-- setCode on a buffer that was reset.
unfoldable pub set_code : List ℕ → List ℕ
set_code code = set_code_loop (length code) code 0 (zeros (length code / 8 + 1))
