-- ===== src/Nibbles/Packing.antt =====
-- state/immutable-trie/encoding.go: packing nibbles into bytes and taking them apart.
use mainnet.Nibbles.{has_terminator, without_last, pair_up, pack, nibbles_of}
use mainnet.Common.{
  all_below, all_below-holds, ℕ, ◌+◌, ◌*◌, ◌/◌, ◌%◌, ◌<◌, ◌≡◌, refl, ap, subst, true, false, List,
  [], ◌∷◌, ◌++◌, arith, ◌==◌, ==_iff, length, All,
}

abbrev pub AreNibbles : List ℕ → Type 0
AreNibbles hex = All (λ x. x < 16) hex

-- Every byte, from its two nibbles.
pair_table : all_below 256 (λ x. pair_up (x / 16) (x % 16) == x) ≡ true
unfolding all_below
pair_table = refl

pair_of_byte : (x : ℕ) → x < 256 → pair_up (x / 16) (x % 16) ≡ x
pair_of_byte x l =
    (==_iff _ x).0 (all_below-holds 256 (λ y. pair_up (y / 16) (y % 16) == y) x pair_table l)

pair_up-sum : (a b : ℕ) → a < 16 → b < 16 → pair_up a b ≡ 16 * a + b
pair_up-sum a b l m =
    let up : (16 * a + b) / 16 ≡ a = omega (arith, l, m) in
    let low : (16 * a + b) % 16 ≡ b = omega (arith, l, m) in
    subst (λ k. pair_up k b ≡ 16 * a + b) up
      (subst (λ k. pair_up ((16 * a + b) / 16) k ≡ 16 * a + b) low
        (pair_of_byte (16 * a + b) (omega (arith, l, m))))

-- Of an even number of nibbles, the bytes have the same nibbles.
pub nibbles_of-pack :
    (hex : List ℕ) → AreNibbles hex → length hex % 2 ≡ 0 → nibbles_of (pack hex) ≡ hex
unfolding nibbles_of pack
nibbles_of-pack [] n e = refl
nibbles_of-pack (x ∷ []) n e = absurd (omega (arith, e))
nibbles_of-pack (x ∷ y ∷ hex) n e =
    let up : (16 * x + y) / 16 ≡ x = omega (arith, n.0, n.1.0) in
    let low : (16 * x + y) % 16 ≡ y = omega (arith, n.0, n.1.0) in
    let rest = nibbles_of-pack hex n.1.1 (omega (arith, e)) in
    rw (pair_up-sum x y n.0 n.1.0, up, low, rest) refl

pub without_last-append : (hex : List ℕ) (x : ℕ) → without_last (hex ++ x ∷ []) ≡ hex
unfolding without_last
without_last-append [] x = refl
without_last-append (y ∷ []) x = refl
without_last-append (y ∷ z ∷ hex) x = ap (λ (l : List ℕ). y ∷ l) (without_last-append (z ∷ hex) x)

pub has_terminator-append : (hex : List ℕ) → has_terminator (hex ++ 16 ∷ []) ≡ true
unfolding has_terminator
has_terminator-append [] = refl
has_terminator-append (y ∷ []) = refl
has_terminator-append (y ∷ z ∷ hex) = has_terminator-append (z ∷ hex)

pub has_terminator-none : (hex : List ℕ) → AreNibbles hex → has_terminator hex ≡ false
unfolding has_terminator
has_terminator-none [] n = refl
has_terminator-none (x ∷ []) n = ground (arith, n.0)
has_terminator-none (x ∷ y ∷ hex) n = has_terminator-none (y ∷ hex) n.1
