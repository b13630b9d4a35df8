-- ===== src/Evm/Powers.antt =====
-- state/runtime/evm/instructions.go: EXP, by squares, is the power that it stands for.
use native.Mathlib.Nat.{
  one-mul, pow-zero, add-mul-mod_self_left, mod-add-div, pow-suc, mod-mod, mod-eq_of_lt,
}
use mainnet.Evm.Words.{to_u256, mul, exp_loop, digit_count, exp}
use mainnet.Common.{
  ℕ, zero, suc, ◌+◌, ◌*◌, ◌/◌, ◌%◌, ◌^◌, ◌<◌, ◌≡◌, refl, sym, ap, ◌∙◌, inl, inr, true, false, arith,
  ◌==◌, if◌then◌else◌, Bool-cases,
}

mul-mod_left : (m a b : ℕ) → a % m * b % m ≡ a * b % m
mul-mod_left m a b =
    sym (add-mul-mod_self_left (a % m * b) m (a / m * b))
    ∙ ap (λ x. x % m) (split (a % m) (a / m) a (mod-add-div a m))
  where
    split : (r q x : ℕ) → r + m * q ≡ x → r * b + m * (q * b) ≡ x * b
    split r q x h = omega (arith, ap (λ y. y * b) h)

mul-mod_right : (m a b : ℕ) → a * (b % m) % m ≡ a * b % m
mul-mod_right m a b =
    ap (λ x. x % m) (swap a (b % m)) ∙ mul-mod_left m b a ∙ ap (λ x. x % m) (swap b a)
  where
    swap : (a b : ℕ) → a * b ≡ b * a
    swap a b = omega arith

pow-mod : (m a n : ℕ) → (a % m) ^ n % m ≡ a ^ n % m
pow-mod m a zero = ap (λ x. x % m) (pow-zero (a % m) ∙ sym (pow-zero a))
pow-mod m a (suc n) =
    ap (λ x. x % m) (pow-suc (a % m) n)
    ∙ mul-mod_right m ((a % m) ^ n) a
    ∙ sym (mul-mod_left m ((a % m) ^ n) a)
    ∙ ap (λ x. x * a % m) (pow-mod m a n)
    ∙ mul-mod_left m (a ^ n) a
    ∙ ap (λ x. x % m) (sym (pow-suc a n))

pow-square : (x h : ℕ) → (x * x) ^ h ≡ x ^ (2 * h)
pow-square x zero = pow-zero (x * x) ∙ sym (pow-zero x)
pow-square x (suc h) =
    pow-suc (x * x) h
    ∙ ap (λ p. p * (x * x)) (pow-square x h)
    ∙ regroup (x ^ (2 * h))
    ∙ ap (λ p. p * x) (sym (pow-suc x (2 * h)))
    ∙ sym (pow-suc x (suc (2 * h)))
    ∙ ap (λ k. x ^ k) (twice h)
  where
    twice : (h : ℕ) → suc (suc (2 * h)) ≡ 2 * suc h
    twice h = omega arith

    regroup : (p : ℕ) → p * (x * x) ≡ p * x * x
    regroup p = omega arith

mul-mod : (a b : ℕ) → mul a b ≡ a * b % 2 ^ 256
unfolding mul to_u256
mul-mod a b = refl

-- One bit of the exponent.
with_bit : (x y : ℕ) → (x * x) ^ (y / 2) * (if y % 2 == 1 then x else 1) ≡ x ^ y
with_bit x y = elim (Bool-cases (y % 2 == 1)) [
  | inl e ↦ rw e (
      ap (λ p. p * x) (pow-square x (y / 2))
      ∙ sym (pow-suc x (2 * (y / 2)))
      ∙ ap (λ k. x ^ k) (odd e))
  | inr e ↦ rw e (one (x * x) ∙ pow-square x (y / 2) ∙ ap (λ k. x ^ k) (even e))
]
  where
    odd : (y % 2 == 1) ≡ true → suc (2 * (y / 2)) ≡ y
    odd e = ground (arith, e)

    even : (y % 2 == 1) ≡ false → 2 * (y / 2) ≡ y
    even e = ground (arith, e)

    one : (a : ℕ) → a ^ (y / 2) * 1 ≡ a ^ (y / 2)
    one a = omega arith

-- What the loop multiplies in at a bit.
chosen : ℕ → ℕ → ℕ → ℕ
chosen x z y = if y % 2 == 1 then mul z x else z

chosen-mod : (x z y : ℕ) → chosen x z y % 2 ^ 256 ≡ z * (if y % 2 == 1 then x else 1) % 2 ^ 256
unfolding chosen
chosen-mod x z y = elim (Bool-cases (y % 2 == 1)) [
  | inl e ↦ rw e (ap (λ a. a % 2 ^ 256) (mul-mod z x) ∙ mod-mod (z * x) (2 ^ 256))
  | inr e ↦ rw e (ap (λ a. a % 2 ^ 256) (one z))
]
  where
    one : (z : ℕ) → z ≡ z * 1
    one z = omega arith

times_one : (z : ℕ) → z ≡ z * 1
times_one z = omega arith

nothing_below : (y : ℕ) → y < 2 ^ 0 → y ≡ 0
nothing_below y l = omega (arith, l)

-- The loop multiplies the power into z.
exp_loop-mod :
    (rounds x z y : ℕ) → y < 2 ^ rounds → exp_loop rounds x z y % 2 ^ 256 ≡ z * x ^ y % 2 ^ 256
unfolding exp_loop chosen
exp_loop-mod zero x z y l =
    ap (λ a. a % 2 ^ 256)
      (times_one z ∙ ap (λ p. z * p) (sym (ap (λ k. x ^ k) (nothing_below y l) ∙ pow-zero x)))
exp_loop-mod (suc rounds) x z y l =
    exp_loop-mod rounds (mul x x) (chosen x z y) (y / 2) (half_below l)
    ∙ sym (mul-mod_left M (chosen x z y) (mul x x ^ (y / 2)))
    ∙ ap (λ a. a * mul x x ^ (y / 2) % M) (chosen-mod x z y)
    ∙ mul-mod_left M (z * b) (mul x x ^ (y / 2))
    ∙ sym (mul-mod_right M (z * b) (mul x x ^ (y / 2)))
    ∙ ap (λ a. z * b * a % M) (ap (λ a. a ^ (y / 2) % M) (mul-mod x x) ∙ pow-mod M (x * x) (y / 2))
    ∙ mul-mod_right M (z * b) ((x * x) ^ (y / 2))
    ∙ ap (λ a. a % M) (regroup z b ((x * x) ^ (y / 2)))
    ∙ ap (λ a. z * a % M) (with_bit x y)
  where
    M : ℕ
    M = 2 ^ 256

    b : ℕ
    b = if y % 2 == 1 then x else 1

    half_below : y < 2 ^ suc rounds → y / 2 < 2 ^ rounds
    half_below l = omega (arith, l, pow-suc 2 rounds)

    regroup : (z b p : ℕ) → z * b * p ≡ z * (p * b)
    regroup z b p = omega arith

mul-Word : (a b : ℕ) → mul a b < 2 ^ 256
unfolding mul to_u256
mul-Word a b = omega arith

exp_loop-Word : (rounds x z y : ℕ) → z < 2 ^ 256 → exp_loop rounds x z y < 2 ^ 256
unfolding exp_loop
exp_loop-Word zero x z y h = h
exp_loop-Word (suc rounds) x z y h = elim (Bool-cases (y % 2 == 1)) [
  | inl e ↦ rw e (exp_loop-Word rounds (mul x x) (mul z x) (y / 2) (mul-Word z x))
  | inr e ↦ rw e (exp_loop-Word rounds (mul x x) z (y / 2) h)
]

pow-add : (m n : ℕ) → 2 ^ (m + n) ≡ 2 ^ m * 2 ^ n
pow-add zero n =
    ap (λ k. 2 ^ k) (nothing n) ∙ sym (one-mul (2 ^ n)) ∙ ap (λ p. p * 2 ^ n) (sym (pow-zero 2))
  where
    nothing : (n : ℕ) → 0 + n ≡ n
    nothing n = omega arith
pow-add (suc m) n =
    ap (λ k. 2 ^ k) (more m n)
    ∙ pow-suc 2 (m + n)
    ∙ ap (λ p. p * 2) (pow-add m n)
    ∙ swap (2 ^ m) (2 ^ n)
    ∙ ap (λ p. p * 2 ^ n) (sym (pow-suc 2 m))
  where
    more : (m n : ℕ) → suc m + n ≡ suc (m + n)
    more m n = omega arith

    swap : (p q : ℕ) → p * q * 2 ≡ p * 2 * q
    swap p q = omega arith

pow-next : (k : ℕ) → 2 ^ (64 * suc k) ≡ 2 ^ (64 * k) * 2 ^ 64
pow-next k = ap (λ j. 2 ^ j) (more k) ∙ pow-add (64 * k) 64
  where
    more : (k : ℕ) → 64 * suc k ≡ 64 * k + 64
    more k = omega arith

-- The machine words of a number have enough bits for it.
digit_count-bits : (fuel y : ℕ) → y < 2 ^ (64 * fuel) → y < 2 ^ (64 * digit_count (2 ^ 64) fuel y)
unfolding digit_count
digit_count-bits zero y l = l
digit_count-bits (suc fuel) y l = elim (Bool-cases (y == 0)) [
  | inl e ↦ rw e (ground (arith, e))
  | inr e ↦ rw e (
      omega (
        arith,
        pow-next (digit_count (2 ^ 64) fuel (y / 2 ^ 64)),
        digit_count-bits fuel (y / 2 ^ 64) (omega (arith, l, pow-next fuel)),
      ))
]

-- For an exponent that is a word, EXP is the power, modulo 2 ^ 256.
pub exp-power : (x y : ℕ) → y < 2 ^ 256 → exp x y ≡ x ^ y % 2 ^ 256
unfolding exp
exp-power x y l =
    let rounds = 64 * digit_count (2 ^ 64) 4 y in
    sym (mod-eq_of_lt (exp_loop-Word rounds x 1 y (omega arith)))
    ∙ exp_loop-mod rounds x 1 y (digit_count-bits 4 y l)
    ∙ ap (λ a. a % 2 ^ 256) (one-mul (x ^ y))
