-- ===== src/Access/Texts.antt =====
-- types/types.go: the texts of addresses, and when they differ.
use mainnet.Access.{hex_digit, lower_hex, is_decimal, to_upper, mixed, checksum_encode}
use mainnet.Common.{
  ℕ, ◌+◌, ◌*◌, ◌/◌, ◌%◌, ◌≤◌, ◌<◌, ◌≡◌, refl, sym, ap, ◌∙◌, ◌≢◌, ◌⊎◌, inl, inr, Bool, true, false,
  not, ◌&&◌, ◌||◌, List, [], ◌∷◌, arith, ltb, leb, if◌then◌else◌, Bool-cases, length, map, All,
}

-- Whether checksumEncode writes a capital somewhere.
unfoldable pub has_capital : List ℕ → List ℕ → Bool
has_capital [] hash = false
has_capital (ch ∷ text) [] = false
has_capital (ch ∷ text) (h ∷ hash) =
    let rest = has_capital text hash in
    leb 97 ch && leb ch 122 && not (leb 48 h && leb h 55) || rest

-- A text in small letters.
abbrev pub to_lower : ℕ → ℕ
to_lower ch = if leb 65 ch && leb ch 90 then ch + 32 else ch

head : List ℕ → ℕ
head [] = 0
head (x ∷ xs) = x

unfoldable pub tail : List ℕ → List ℕ
tail [] = []
tail (x ∷ xs) = xs

capital_differs : (text hash : List ℕ) → has_capital text hash ≡ true → mixed text hash ≢ text
unfolding has_capital mixed head tail
capital_differs [] hash h e = absurd (ground (arith, h))
capital_differs (ch ∷ text) [] h e = absurd (ground (arith, h))
capital_differs (ch ∷ text) (d ∷ hash) h e =
    elim (Bool-cases (leb 97 ch && leb ch 122 && not (leb 48 d && leb d 55))) [
      | inl f ↦ absurd (raised ch (leb 48 d && leb d 55) f (ap head e))
      | inr f ↦ capital_differs text hash (later (has_capital text hash) f h) (ap tail e)
    ]
  where
    raised :
        (c : ℕ) (low : Bool)
        → (leb 97 c && leb c 122 && not low) ≡ true
        → (if is_decimal c || low then c else to_upper c) ≡ c
        → ⊥
    raised c low f g = ground (arith, f, g)

    later : {b : Bool} (r : Bool) → b ≡ false → (b || r) ≡ true → r ≡ true
    later r f g = ground (arith, f, g)

abbrev pub IsDigit : ℕ → Type 0
IsDigit c = ((48 ≤ c) × (c ≤ 57)) ⊎ ((97 ≤ c) × (c ≤ 102))

hex_digit-IsDigit : (n : ℕ) → n < 16 → IsDigit (hex_digit n)
hex_digit-IsDigit n l = elim (Bool-cases (ltb n 10)) [
  | inl e ↦ rw e (inl (omega arith, ground (arith, e)))
  | inr e ↦ rw e (inr (ground (arith, e), omega (arith, l)))
]

small_again :
    (c : ℕ) (b : Bool) → IsDigit c → to_lower (if is_decimal c || b then c else to_upper c) ≡ c
small_again c b (inl (l, m)) = ground (arith, l, m)
small_again c b (inr (l, m)) = ground (arith, l, m)

-- In small letters the mixed digits are the digits.
map-mixed :
    (text hash : List ℕ)
    → All IsDigit text
    → length text ≤ length hash
    → map to_lower (mixed text hash) ≡ text
unfolding mixed
map-mixed [] hash d l = refl
map-mixed (c ∷ text) [] d l = absurd (omega (arith, l))
map-mixed (c ∷ text) (h ∷ hash) (d, ds) l =
    ap (λ (x : ℕ). x ∷ map to_lower (mixed text hash)) (small_again c (leb 48 h && leb h 55) d)
    ∙ ap (λ (xs : List ℕ). c ∷ xs) (map-mixed text hash ds (omega (arith, l)))

small_digits : (text : List ℕ) → All IsDigit text → map to_lower text ≡ text
small_digits [] d = refl
small_digits (c ∷ text) (inl (l, m), ds) = ground (arith, l, m, small_digits text ds)
small_digits (c ∷ text) (inr (l, m), ds) = ground (arith, l, m, small_digits text ds)

abbrev pub AreBytes : List ℕ → Type 0
AreBytes bytes = All (λ b. b < 256) bytes

lower_hex-All : (bytes : List ℕ) → AreBytes bytes → All IsDigit (lower_hex bytes)
unfolding lower_hex
lower_hex-All [] h = tt
lower_hex-All (b ∷ bytes) (l, h) = (
  hex_digit-IsDigit (b / 16) (omega (arith, l)),
  (hex_digit-IsDigit (b % 16) (omega arith), lower_hex-All bytes h),
)

length-lower_hex : (bytes : List ℕ) → length (lower_hex bytes) ≡ 2 * length bytes
unfolding lower_hex
length-lower_hex [] = omega arith
length-lower_hex (b ∷ bytes) = omega (arith, length-lower_hex bytes)

hex_digit_injective : (m n : ℕ) → m < 16 → n < 16 → hex_digit m ≡ hex_digit n → m ≡ n
hex_digit_injective m n l k e = ground (arith, l, k, e)

-- Different bytes have different digits.
pub lower_hex_injective :
    (xs ys : List ℕ) → AreBytes xs → AreBytes ys → lower_hex xs ≡ lower_hex ys → xs ≡ ys
unfolding lower_hex head tail
lower_hex_injective [] [] h k e = refl
lower_hex_injective [] (y ∷ ys) h k e = absurd (omega (arith, ap length e))
lower_hex_injective (x ∷ xs) [] h k e = absurd (omega (arith, ap length e))
lower_hex_injective (x ∷ xs) (y ∷ ys) (l, h) (m, k) e =
    let high =
      hex_digit_injective (x / 16) (y / 16) (omega (arith, l)) (omega (arith, m)) (ap head e) in
    let low =
      hex_digit_injective (x % 16) (y % 16) (omega arith) (omega arith)
        (ap (λ s. head (tail s)) e) in
    ap (λ (a : ℕ). a ∷ xs) (omega (arith, high, low))
    ∙ ap (λ (s : List ℕ). y ∷ s) (lower_hex_injective xs ys h k (ap (λ s. tail (tail s)) e))

abbrev pub IsAddress : List ℕ → Type 0
IsAddress a = (length a ≡ 20) × All (λ b. b < 256) a

module _ (keccak : List ℕ → List ℕ) where
  -- Whether String() of an address has a capital.
  abbrev pub is_capitalized : List ℕ → Bool
  is_capitalized a = has_capital (lower_hex a) (lower_hex (keccak (lower_hex a)))

  -- What follows the prefix 0x.
  pub digits : List ℕ → List ℕ
  digits text = tail (tail text)

  pub checksum_encode_small :
      (a : List ℕ)
      → ((text : List ℕ) → length (keccak text) ≡ 32)
      → IsAddress a
      → map to_lower (digits (checksum_encode keccak a)) ≡ lower_hex a
  unfolding checksum_encode digits tail
  checksum_encode_small a size (l, h) =
      let text = lower_hex a in
      map-mixed text (lower_hex (keccak text)) (lower_hex-All a h)
        (omega (arith, l, length-lower_hex a, length-lower_hex (keccak text), size text))

  -- Two addresses have different texts.
  pub checksum_encode_injective :
      (a b : List ℕ)
      → ((text : List ℕ) → length (keccak text) ≡ 32)
      → IsAddress a
      → IsAddress b
      → checksum_encode keccak a ≡ checksum_encode keccak b
      → a ≡ b
  checksum_encode_injective a b size h k e = lower_hex_injective a b h.1 k.1 (
      sym (checksum_encode_small a size h)
      ∙ ap (λ t. map to_lower (digits t)) e
      ∙ checksum_encode_small b size k)

  pub small_differs :
      (a b : List ℕ)
      → ((text : List ℕ) → length (keccak text) ≡ 32)
      → IsAddress a
      → IsAddress b
      → checksum_encode keccak a ≡ 48 ∷ 120 ∷ lower_hex b
      → a ≡ b
  unfolding digits tail
  small_differs a b size h k e = lower_hex_injective a b h.1 k.1 (
      sym (checksum_encode_small a size h)
      ∙ ap (λ t. map to_lower (digits t)) e
      ∙ small_digits (lower_hex b) (lower_hex-All b k.1))

  pub capital_splits :
      (a : List ℕ) → is_capitalized a ≡ true → checksum_encode keccak a ≢ 48 ∷ 120 ∷ lower_hex a
  unfolding checksum_encode digits tail
  capital_splits a h e =
      capital_differs (lower_hex a) (lower_hex (keccak (lower_hex a))) h (ap digits e)
