-- ===== src/Evm/Jumps.antt =====
-- state/runtime/evm/bitmap.go and validJumpdest: the bits that a code has set are its jump destinations.
pub mod Bits
use mainnet.Evm.{Contract, Forks}
use mainnet.Evm.Run.{frame}
use mainnet.Evm.Machine.{zeros}
use mainnet.Evm.Bitmap.{is_push_op, set_bit, set_code_loop, set_code}
use mainnet.Evm.Instructions.Arithmetic.{is_set, valid_jumpdest}
use mathlib.Core.Bool.{true≢false}
use Bits.{Bytes, mark, mark-kept, is_set-mark, zeros-Bytes, length-zeros, is_set-zeros}
use mainnet.Common.{
  ℕ, zero, suc, ◌+◌, ◌-◌, ◌*◌, ◌/◌, ◌%◌, ◌^◌, ◌≤◌, ◌<◌, ◌≡◌, refl, sym, ap, ◌∙◌, subst, ◌≢◌, ◌↔◌,
  ◌⊎◌, inl, inr, Bool, true, false, not, ◌&&◌, ◌||◌, Option, none, some, List, [], ◌∷◌, ◌++◌, map,
  arith, ltb, leb, ◌==◌, if◌then◌else◌, ==_iff, ==_refl, Bool-cases, Option-cases, same, same_iff,
  bytes_equal, bytes_equal_refl, eq_of_bytes_equal, length, get_elem?, set, drop, erase_at,
  length-append, length-erase_at, keep, count_if, All, length-keep, count_if-append, count_if-nil,
  get_elem?-total, count_if-keep, All-keep, All-map, All-append, All-drop, All-get_elem?, Result,
  ok, err, ◌>>=◌, ◌>>◌, ensure, or_fail, Result-cases, bind-ok, ensure-ok, or_fail-ok, all_below,
  all_below-holds, get_elem?-set, get_elem?-set_other, length-set, All-set,
}

-- The positions from which a reader of instructions comes to a position: a constant is read with its
-- instruction.
pub data Reads (code : List ℕ) (dest : ℕ) : ℕ → Type 0 where
  here : Reads code dest dest
  plain :
      {i c : ℕ}
      → get_elem? code i ≡ some c
      → is_push_op c ≡ false
      → Reads code dest (i + 1)
      → Reads code dest i
  constant :
      {i c : ℕ}
      → get_elem? code i ≡ some c
      → is_push_op c ≡ true
      → Reads code dest (i + (c - 0x60 + 2))
      → Reads code dest i

-- An instruction JUMPDEST, which is no byte of a constant.
abbrev pub IsDestination : List ℕ → ℕ → ℕ → Type 0
IsDestination code i dest = Reads code dest i × (get_elem? code dest ≡ some 0x5b)

within : (code : List ℕ) (i c : ℕ) → get_elem? code i ≡ some c → i < length code
within [] i c h = absurd (ground (arith, h))
within (b ∷ code) zero c h = omega arith
within (b ∷ code) (suc i) c h = omega (arith, within code i c h)

-- Only from a byte of the code a destination is read.
Reads-within :
    (code : List ℕ) (dest i : ℕ)
    → Reads code dest i
    → get_elem? code dest ≡ some 0x5b
    → i < length code
Reads-within code dest i here e = within code dest 0x5b e
Reads-within code dest i (plain g p r) e = within code i _ g
Reads-within code dest i (constant g p r) e = within code i _ g

some_injective : {a b : ℕ} → some a ≡ some b → a ≡ b
some_injective e = ground (arith, e)

-- What a reader does at a byte of the code.
Reads-cases :
    (code : List ℕ) (dest i c : ℕ)
    → get_elem? code i ≡ some c
    → Reads code dest i
    → (i ≡ dest)
      ⊎ ((is_push_op c ≡ false) × Reads code dest (i + 1))
      ⊎ ((is_push_op c ≡ true) × Reads code dest (i + (c - 0x60 + 2)))
Reads-cases code dest i c e here = inl refl
Reads-cases code dest i c e (plain {c = b} g p r) =
    inr (inl (subst (λ x. is_push_op x ≡ false) (some_injective (sym g ∙ e)) p, r))
Reads-cases code dest i c e (constant {c = b} g p r) = inr (
    inr (
      subst (λ x. (is_push_op x ≡ true) × Reads code dest (i + (x - 0x60 + 2)))
        (some_injective (sym g ∙ e)) (p, r)))

module _ (code : List ℕ) (dest : ℕ) where
  loop_at_end :
      (fuel i : ℕ) (buf : List ℕ)
      → get_elem? code i ≡ none
      → set_code_loop (suc fuel) code i buf ≡ buf
  unfolding set_code_loop
  loop_at_end fuel i buf e = rw (e, set_code_loop) refl

  loop_at_push :
      (fuel i c : ℕ) (buf : List ℕ)
      → get_elem? code i ≡ some c
      → is_push_op c ≡ true
      → set_code_loop (suc fuel) code i buf ≡ set_code_loop fuel code (i + (c - 0x60 + 2)) buf
  unfolding set_code_loop
  loop_at_push fuel i c buf e p = rw (e, p, set_code_loop) refl

  loop_at_plain :
      (fuel i c : ℕ) (buf : List ℕ)
      → get_elem? code i ≡ some c
      → is_push_op c ≡ false
      → set_code_loop (suc fuel) code i buf ≡ set_code_loop fuel code (i + 1) (mark c i buf)
  unfolding set_code_loop
  loop_at_plain fuel i c buf e p = rw (e, p, set_code_loop) refl

  -- The bitmap has a bit for each byte of the code.
  abbrev Fits : List ℕ → Type 0
  Fits buf = Bytes buf × (length code < length buf * 8)

  mark-Fits : (c i : ℕ) (buf : List ℕ) → Fits buf → Fits (mark c i buf)
  mark-Fits c i buf (h, l) =
      let (k, e) = mark-kept c i buf h in (k, subst (λ n. length code < n * 8) (sym e) l)

  in_buffer : (i c : ℕ) (buf : List ℕ) → get_elem? code i ≡ some c → Fits buf → i / 8 < length buf
  in_buffer i c buf e (h, l) = omega (arith, within code i c e, l)

  at-IsDestination :
      (i c : ℕ) → get_elem? code i ≡ some c → i ≡ dest → c ≡ 0x5b → IsDestination code i dest
  at-IsDestination i c e k x = (
    subst (λ j. Reads code dest j) (sym k) here,
    subst (λ j. get_elem? code j ≡ some 0x5b) k (e ∙ ap some x),
  )

  -- Every bit that the loop sets is the bit of a destination.
  loop_sound :
      (fuel i : ℕ) (buf : List ℕ)
      → Fits buf
      → is_set (set_code_loop fuel code i buf) dest ≡ true
      → (is_set buf dest ≡ true) ⊎ IsDestination code i dest
  unfolding set_code_loop
  loop_sound zero i buf fits h = inl h
  loop_sound (suc fuel) i buf fits h = elim (Option-cases (get_elem? code i)) [
    | inl e ↦ inl (subst (λ b. is_set b dest ≡ true) (loop_at_end fuel i buf e) h)
    | inr (c, e) ↦ elim (Bool-cases (is_push_op c)) [
      | inl p ↦
          elim (loop_sound fuel (i + (c - 0x60 + 2)) buf fits
            (subst (λ b. is_set b dest ≡ true) (loop_at_push fuel i c buf e p) h)) [
              | inl g ↦ inl g
              | inr (r, x) ↦ inr (constant e p r, x)
            ]
      | inr p ↦
          elim (loop_sound fuel (i + 1) (mark c i buf) (mark-Fits c i buf fits)
            (subst (λ b. is_set b dest ≡ true) (loop_at_plain fuel i c buf e p) h)) [
              | inr (r, x) ↦ inr (plain e p r, x)
              | inl g ↦ elim ((is_set-mark c i dest buf fits.0 (in_buffer i c buf e fits)).0 g) [
                | inl k ↦ inl k
                | inr (k, x) ↦ inr (at-IsDestination i c e k x)
              ]
            ]
    ]
  ]

  kept_at_end :
      (i : ℕ) (buf : List ℕ)
      → get_elem? code i ≡ none
      → (is_set buf dest ≡ true) ⊎ IsDestination code i dest
      → is_set buf dest ≡ true
  kept_at_end i buf e (inl h) = h
  kept_at_end i buf e (inr (r, x)) =
      let (c, g) = get_elem?-total code i (Reads-within code dest i r x) in
      absurd (ground (arith, e, g))

  after_push :
      (i c : ℕ) (buf : List ℕ)
      → get_elem? code i ≡ some c
      → is_push_op c ≡ true
      → (is_set buf dest ≡ true) ⊎ IsDestination code i dest
      → (is_set buf dest ≡ true) ⊎ IsDestination code (i + (c - 0x60 + 2)) dest
  unfolding is_push_op
  after_push i c buf e p (inl h) = inl h
  after_push i c buf e p (inr (r, x)) = elim (Reads-cases code dest i c e r) [
    | inl k ↦
        absurd
          (is_no_push c (some_injective (sym (subst (λ j. get_elem? code j ≡ some c) k e) ∙ x)) p)
    | inr (inl (q, s)) ↦ absurd (true≢false (sym p ∙ q))
    | inr (inr (q, s)) ↦ inr (s, x)
  ]
    where
      is_no_push : (c : ℕ) → c ≡ 0x5b → (c / 32 == 3) ≡ true → ⊥
      is_no_push c h p = ground (arith, h, p)

  after_plain :
      (i c : ℕ) (buf : List ℕ)
      → get_elem? code i ≡ some c
      → is_push_op c ≡ false
      → Fits buf
      → (is_set buf dest ≡ true) ⊎ IsDestination code i dest
      → (is_set (mark c i buf) dest ≡ true) ⊎ IsDestination code (i + 1) dest
  after_plain i c buf e p fits h =
      let marked = (is_set-mark c i dest buf fits.0 (in_buffer i c buf e fits)).1 in
      elim h [
        | inl g ↦ inl (marked (inl g))
        | inr (r, x) ↦ elim (Reads-cases code dest i c e r) [
          | inl k ↦ inl (
              marked
                (inr (k, some_injective (sym (subst (λ j. get_elem? code j ≡ some c) k e) ∙ x))))
          | inr (inl (q, s)) ↦ inr (s, x)
          | inr (inr (q, s)) ↦ absurd (true≢false (sym q ∙ p))
        ]
      ]

  -- The loop keeps the bits and sets the bit of every destination.
  loop_complete :
      (fuel i : ℕ) (buf : List ℕ)
      → Fits buf
      → length code ≤ i + fuel
      → (is_set buf dest ≡ true) ⊎ IsDestination code i dest
      → is_set (set_code_loop fuel code i buf) dest ≡ true
  unfolding set_code_loop
  loop_complete zero i buf fits l (inl h) = h
  loop_complete zero i buf fits l (inr (r, x)) =
      absurd (omega (arith, Reads-within code dest i r x))
  loop_complete (suc fuel) i buf fits l h = elim (Option-cases (get_elem? code i)) [
    | inl e ↦
        subst (λ b. is_set b dest ≡ true) (sym (loop_at_end fuel i buf e)) (kept_at_end i buf e h)
    | inr (c, e) ↦ elim (Bool-cases (is_push_op c)) [
      | inl p ↦
          subst (λ b. is_set b dest ≡ true) (sym (loop_at_push fuel i c buf e p))
            (loop_complete fuel (i + (c - 0x60 + 2)) buf fits (omega (arith, l))
              (after_push i c buf e p h))
      | inr p ↦
          subst (λ b. is_set b dest ≡ true) (sym (loop_at_plain fuel i c buf e p))
            (loop_complete fuel (i + 1) (mark c i buf) (mark-Fits c i buf fits) (omega (arith, l))
              (after_plain i c buf e p fits h))
    ]
  ]

abbrev buffer : List ℕ → List ℕ
buffer code = zeros (length code / 8 + 1)

buffer-Fits : (code : List ℕ) (dest : ℕ) → Fits code dest (buffer code)
buffer-Fits code dest =
    (zeros-Bytes (length code / 8 + 1), omega (arith, length-zeros (length code / 8 + 1)))

set_code_sound :
    (code : List ℕ) (dest : ℕ) → is_set (set_code code) dest ≡ true → IsDestination code 0 dest
unfolding set_code
set_code_sound code dest h =
    elim (loop_sound code dest (length code) 0 (buffer code) (buffer-Fits code dest) h) [
      | inl g ↦ absurd (true≢false (sym g ∙ is_set-zeros (length code / 8 + 1) dest))
      | inr d ↦ d
    ]

set_code_complete :
    (code : List ℕ) (dest : ℕ) → IsDestination code 0 dest → is_set (set_code code) dest ≡ true
unfolding set_code
set_code_complete code dest d =
    loop_complete code dest (length code) 0 (buffer code) (buffer-Fits code dest) (omega arith)
      (inr d)

-- In a code of less than 2 ^ 62 bytes, a jump is allowed exactly to the instructions JUMPDEST that a reader
-- of the code comes to: the byte 0x5b within a constant is no destination.
pub valid_jumpdest_iff :
    (c : Contract) (config : Forks) (dest : ℕ)
    → length c.code < 2 ^ 62
    → (valid_jumpdest (frame c config) dest ≡ true) ↔ IsDestination c.code 0 dest
unfolding valid_jumpdest
valid_jumpdest_iff c config dest l =
    elim (Bool-cases (leb (2 ^ 62) dest || leb (length c.code) dest)) [
      | inl e ↦
          rw (e, valid_jumpdest)
            (
              λ h. absurd (true≢false (sym h)),
              λ d. absurd (ground (arith, e, l, within c.code dest 0x5b d.1)),
            )
      | inr e ↦ rw (e, valid_jumpdest) (set_code_sound c.code dest, set_code_complete c.code dest)
    ]
