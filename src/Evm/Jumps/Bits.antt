-- ===== src/Evm/Jumps/Bits.antt =====
-- state/runtime/evm/bitmap.go: the bits of the bytes of the bitmap.
use Prim.Native.Nat.{bit_or}
use mainnet.Evm.Machine.{zeros}
use mainnet.Evm.Bitmap.{byte_at, set_bit}
use mainnet.Evm.Instructions.Arithmetic.{is_set}
use mainnet.Common.{
  ℕ, zero, suc, ◌/◌, ◌%◌, ◌^◌, ◌<◌, ◌≡◌, refl, sym, ap, ◌∙◌, subst, ◌≢◌, ◌↔◌, ◌⊎◌, inl, inr, Bool,
  true, false, not, ◌&&◌, ◌||◌, List, [], ◌∷◌, arith, ltb, ◌==◌, if◌then◌else◌, ==_iff, Bool-cases,
  Option-cases, same, same_iff, length, get_elem?, set, All, all_below, all_below-holds,
  get_elem?-set, get_elem?-set_other, length-set, All-set,
}

abbrev pub Bytes : List ℕ → Type 0
Bytes bytes = All (λ b. b < 256) bytes

abbrev bit : ℕ → ℕ → Bool
bit b j = b / 2 ^ j % 2 == 1

-- Setting one bit, at every byte and every pair of bits.
abbrev sets_one : ℕ → ℕ → ℕ → Bool
sets_one b i j = same (bit (bit_or b (2 ^ i)) j) (i == j || bit b j) && ltb (bit_or b (2 ^ i)) 256

sets_one_table : all_below 256 (λ b. all_below 8 (λ i. all_below 8 (λ j. sets_one b i j))) ≡ true
unfolding all_below
sets_one_table = refl

sets_one_table-holds : (b i j : ℕ) → b < 256 → i < 8 → j < 8 → sets_one b i j ≡ true
sets_one_table-holds b i j h k l =
    all_below-holds 8 (λ j. sets_one b i j) j
      (all_below-holds 8 (λ i. all_below 8 (λ j. sets_one b i j)) i
        (all_below-holds 256 (λ b. all_below 8 (λ i. all_below 8 (λ j. sets_one b i j))) b
          sets_one_table h)
        k)
      l

bit_or-bit : (b i j : ℕ) → b < 256 → i < 8 → j < 8 → bit (bit_or b (2 ^ i)) j ≡ (i == j || bit b j)
bit_or-bit b i j h k l = (same_iff _ _).0 (ground (arith, sets_one_table-holds b i j h k l))

bit_or-byte : (b i : ℕ) → b < 256 → i < 8 → bit_or b (2 ^ i) < 256
bit_or-byte b i h k = ground (arith, sets_one_table-holds b i 0 h k (omega arith))

byte_at-byte : (buf : List ℕ) (i : ℕ) → Bytes buf → byte_at buf i < 256
byte_at-byte [] i h = omega arith
byte_at-byte (b ∷ buf) zero h = h.0
byte_at-byte (b ∷ buf) (suc i) h = byte_at-byte buf i h.1

pub set_bit-kept :
    (buf : List ℕ) (i : ℕ)
    → Bytes buf
    → Bytes (set_bit buf i) × (length (set_bit buf i) ≡ length buf)
unfolding set_bit
set_bit-kept buf i h = (
  All-set (λ b. b < 256) buf (i / 8) _ h
      (bit_or-byte (byte_at buf (i / 8)) (i % 8) (byte_at-byte buf (i / 8) h) (omega arith)),
  length-set buf (i / 8) _,
)

zero_bits : all_below 8 (λ j. not (bit 0 j)) ≡ true
unfolding all_below
zero_bits = refl

zero_bit : (j : ℕ) → j < 8 → false ≡ bit 0 j
zero_bit j l = ground (arith, all_below-holds 8 (λ j. not (bit 0 j)) j zero_bits l)

is_set-byte_at : (buf : List ℕ) (j : ℕ) → is_set buf j ≡ bit (byte_at buf (j / 8)) (j % 8)
unfolding is_set
is_set-byte_at buf j = elim (Option-cases (get_elem? buf (j / 8))) [
  | inl e ↦ rw (e, is_set, byte_at) (zero_bit (j % 8) (omega arith))
  | inr (b, e) ↦ rw (e, is_set, byte_at) refl
]

byte_at-set : (buf : List ℕ) (i j v : ℕ) → i < length buf → i ≡ j → byte_at (set buf i v) j ≡ v
byte_at-set buf i j v l e =
    subst (λ k. byte_at (set buf i v) k ≡ v) e (rw (get_elem?-set buf i v l, byte_at) refl)

byte_at-set_other : (buf : List ℕ) (i j v : ℕ) → i ≢ j → byte_at (set buf i v) j ≡ byte_at buf j
byte_at-set_other buf i j v n = rw (get_elem?-set_other buf i j v n, byte_at) refl

same_place : (i j : ℕ) → i / 8 ≡ j / 8 → (i % 8 == j % 8) ≡ (i == j)
same_place i j k = ground (arith, k)

either-bit : {a b c d : Bool} → a ≡ b → c ≡ d → (a || c) ≡ (b || d)
either-bit e f = rw (e, f) refl

pub is_set-set_bit :
    (buf : List ℕ) (i j : ℕ)
    → Bytes buf
    → i / 8 < length buf
    → is_set (set_bit buf i) j ≡ (i == j || is_set buf j)
unfolding set_bit
is_set-set_bit buf i j h l = elim (Bool-cases (i / 8 == j / 8)) [
  | inl e ↦
      let k : i / 8 ≡ j / 8 = (==_iff _ _).0 e in
      is_set-byte_at (set buf (i / 8) v) j
      ∙ ap (λ x. bit x (j % 8)) (byte_at-set buf (i / 8) (j / 8) v l k)
      ∙ bit_or-bit (byte_at buf (i / 8)) (i % 8) (j % 8) (byte_at-byte buf (i / 8) h) (omega arith)
          (omega arith)
      ∙ either-bit (same_place i j k)
          (ap (λ x. bit (byte_at buf x) (j % 8)) k ∙ sym (is_set-byte_at buf j))
  | inr e ↦
      is_set-byte_at (set buf (i / 8) v) j
      ∙ ap (λ x. bit x (j % 8)) (byte_at-set_other buf (i / 8) (j / 8) v (ground (arith, e)))
      ∙ sym (is_set-byte_at buf j)
      ∙ ap (λ b. b || is_set buf j) {x = false} {y = i == j} (ground (arith, e))
]
  where
    v : ℕ
    v = bit_or (byte_at buf (i / 8)) (2 ^ (i % 8))

-- What the loop does at a byte that is no PUSH.
abbrev pub mark : ℕ → ℕ → List ℕ → List ℕ
mark c i buf = if c == 0x5b then set_bit buf i else buf

pub mark-kept :
    (c i : ℕ) (buf : List ℕ)
    → Bytes buf
    → Bytes (mark c i buf) × (length (mark c i buf) ≡ length buf)
mark-kept c i buf h = elim (Bool-cases (c == 0x5b)) [
  | inl e ↦ rw e (set_bit-kept buf i h)
  | inr e ↦ rw e (h, refl)
]

pub is_set-mark :
    (c i dest : ℕ) (buf : List ℕ)
    → Bytes buf
    → i / 8 < length buf
    → (is_set (mark c i buf) dest ≡ true) ↔ ((is_set buf dest ≡ true) ⊎ ((i ≡ dest) × (c ≡ 0x5b)))
is_set-mark c i dest buf h l = elim (Bool-cases (c == 0x5b)) [
  | inl e ↦ rw e (ground (arith, is_set-set_bit buf i dest h l, e))
  | inr e ↦ rw e (ground (arith, e))
]

pub zeros-Bytes : (n : ℕ) → Bytes (zeros n)
unfolding zeros
zeros-Bytes zero = tt
zeros-Bytes (suc n) = (omega arith, zeros-Bytes n)

pub length-zeros : (n : ℕ) → length (zeros n) ≡ n
unfolding zeros
length-zeros zero = refl
length-zeros (suc n) = omega (arith, length-zeros n)

byte_at-zeros : (n i : ℕ) → byte_at (zeros n) i ≡ 0
unfolding zeros
byte_at-zeros zero i = refl
byte_at-zeros (suc n) zero = refl
byte_at-zeros (suc n) (suc i) = byte_at-zeros n i

pub is_set-zeros : (n dest : ℕ) → is_set (zeros n) dest ≡ false
is_set-zeros n dest =
    is_set-byte_at (zeros n) dest
    ∙ ap (λ b. bit b (dest % 8)) (byte_at-zeros n (dest / 8))
    ∙ sym (zero_bit (dest % 8) (omega arith))
