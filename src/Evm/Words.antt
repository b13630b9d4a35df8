-- ===== src/Evm/Words.antt =====
-- state/runtime/evm/instructions.go: arithmetic on words, without the stack.
use mainnet.Common.{
  ℕ, zero, suc, ◌+◌, ◌-◌, ◌*◌, ◌/◌, ◌%◌, ◌^◌, Bool, true, false, not, ◌&&◌, ltb, leb, ◌==◌,
  if◌then◌else◌, same,
}

-- A big.Int: `negative n` is -n, for n above 0.
pub data Big : Type 0 where
  nonneg negative : ℕ → Big

-- toU256: the low 256 bits, in two's complement.
unfoldable pub to_u256 : Big → ℕ
to_u256 (nonneg n) = n % 2 ^ 256
to_u256 (negative n) = (2 ^ 256 - n % 2 ^ 256) % 2 ^ 256

-- to256: the number that a word stands for in two's complement.
unfoldable pub to_256 : ℕ → Big
to_256 x = if ltb x (2 ^ 255) then nonneg x else negative (2 ^ 256 - x)

abbrev pub minus : ℕ → ℕ → Big
minus a b = if ltb a b then negative (b - a) else nonneg (a - b)

abbrev pub abs : Big → ℕ
abs (nonneg n) = n
abs (negative n) = n

-- Sign() < 0
abbrev pub is_negative : Big → Bool
is_negative (nonneg n) = false
is_negative (negative n) = true

abbrev pub negate_if : Bool → ℕ → Big
negate_if true (suc n) = negative (suc n)
negate_if _ n = nonneg n

-- Sign() of two numbers is the same.
abbrev pub same_sign : Big → Big → Bool
same_sign (nonneg m) (nonneg n) = same (m == 0) (n == 0)
same_sign (negative m) (negative n) = true
same_sign _ _ = false

-- Cmp() < 0
abbrev pub less : Big → Big → Bool
less (nonneg m) (nonneg n) = ltb m n
less (nonneg m) (negative n) = false
less (negative m) (nonneg n) = true
less (negative m) (negative n) = ltb n m

abbrev pub bit_of : Bool → ℕ
bit_of true = 1
bit_of false = 0

-- The number of digits to a base: bytes and machine words of a number.
unfoldable pub digit_count : ℕ → ℕ → ℕ → ℕ
digit_count base zero n = 0
digit_count base (suc fuel) n =
    let rest = digit_count base fuel (n / base) in if n == 0 then 0 else suc rest

-- (y.BitLen() + 7) / 8
abbrev pub byte_len : ℕ → ℕ
byte_len n = digit_count 256 32 n

unfoldable pub add : ℕ → ℕ → ℕ
add a b = to_u256 (nonneg (a + b))

unfoldable pub mul : ℕ → ℕ → ℕ
mul a b = to_u256 (nonneg (a * b))

unfoldable pub sub : ℕ → ℕ → ℕ
sub a b = to_u256 (minus a b)

unfoldable pub div : ℕ → ℕ → ℕ
div a b = if b == 0 then 0 else to_u256 (nonneg (a / b))

unfoldable pub sdiv : ℕ → ℕ → ℕ
sdiv a b =
    let x = to_256 a in
    let y = to_256 b in
    if b == 0 then 0 else to_u256 (negate_if (not (same_sign x y)) (abs x / abs y))

unfoldable pub mod_word : ℕ → ℕ → ℕ
mod_word a b = if b == 0 then 0 else to_u256 (nonneg (a % b))

unfoldable pub smod : ℕ → ℕ → ℕ
smod a b =
    let x = to_256 a in
    let y = to_256 b in if b == 0 then 0 else to_u256 (negate_if (is_negative x) (abs x % abs y))

-- The loop over the bits of the exponent, the lowest first.
unfoldable pub exp_loop : ℕ → ℕ → ℕ → ℕ → ℕ
exp_loop zero x z y = z
exp_loop (suc rounds) x z y = exp_loop rounds (mul x x) (if y % 2 == 1 then mul z x else z) (y / 2)

-- The machine words of the exponent have 64 bits each.
unfoldable pub exp : ℕ → ℕ → ℕ
exp x y = exp_loop (64 * digit_count (2 ^ 64) 4 y) x 1 y

unfoldable pub addmod : ℕ → ℕ → ℕ → ℕ
addmod a b z = if z == 0 then 0 else to_u256 (nonneg ((a + b) % z))

unfoldable pub mulmod : ℕ → ℕ → ℕ → ℕ
mulmod a b z = if z == 0 then 0 else to_u256 (nonneg (a * b % z))

-- Rsh of a word, which leaves nothing of it from 256 bits on.
abbrev pub rsh : ℕ → ℕ → ℕ
rsh y n = if leb 256 n then 0 else y / 2 ^ n

-- The index is x.Int64(), the low 64 bits with a sign, and the shift is computed in an int.
unfoldable pub byte : ℕ → ℕ → ℕ
byte x y =
    let index = x % 2 ^ 64 in
    if ltb index (2 ^ 63) && ltb 31 index
    then 0
    else rsh y ((31 + 2 ^ 64 - index) * 8 % 2 ^ 64) % 256

unfoldable pub not_word : ℕ → ℕ
not_word a = to_u256 (negative (a + 1))

unfoldable pub slt : ℕ → ℕ → ℕ
slt a b = bit_of (less (to_256 a) (to_256 b))

unfoldable pub sgt : ℕ → ℕ → ℕ
sgt a b = bit_of (less (to_256 b) (to_256 a))

-- With mask = 2^bit - 1: x & mask is the remainder by 2^bit, and x | ^mask that remainder less 2^bit.
unfoldable pub sign_extend : ℕ → ℕ → ℕ
sign_extend ext x =
    let bit = ext * 8 + 7 in
    if ltb 32 ext
    then x
    else if x / 2 ^ bit % 2 == 1
    then to_u256 (negative (2 ^ bit - x % 2 ^ bit))
    else to_u256 (nonneg (x % 2 ^ bit))

-- equalOrOverflowsUint256: more than 8 bits.
abbrev pub overflows_shift : ℕ → Bool
overflows_shift n = leb 256 n

unfoldable pub shl : ℕ → ℕ → ℕ
shl n x = if overflows_shift n then 0 else to_u256 (nonneg (x * 2 ^ n))

unfoldable pub shr : ℕ → ℕ → ℕ
shr n x = if overflows_shift n then 0 else to_u256 (nonneg (x / 2 ^ n))

-- Rsh of a big.Int rounds down.
abbrev pub rsh_big : Big → ℕ → Big
rsh_big (nonneg m) n = nonneg (m / 2 ^ n)
rsh_big (negative m) n = negative ((m - 1) / 2 ^ n + 1)

unfoldable pub sar : ℕ → ℕ → ℕ
sar n x =
    if overflows_shift n
    then (if is_negative (to_256 x) then 2 ^ 256 - 1 else 0)
    else to_u256 (rsh_big (to_256 x) n)
