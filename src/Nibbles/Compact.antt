-- ===== src/Nibbles/Compact.antt =====
-- state/immutable-trie/encoding.go: the compact form of a key, and back.
use mainnet.Nibbles.{
  pack, prefixed, encode_compact, bytes_to_hex_nibbles, without_prefix, decode_compact,
}
use mainnet.Nibbles.Packing.{
  AreNibbles, nibbles_of-pack, without_last-append, has_terminator-append, has_terminator-none,
}
use mainnet.Common.{
  ℕ, ◌+◌, ◌*◌, ◌%◌, ◌≤◌, ◌<◌, ◌≡◌, refl, inl, inr, Bool, true, false, some, List, [], ◌∷◌, ◌++◌,
  arith, leb, ◌==◌, ==_iff, Bool-cases, length,
}

-- A key: its nibbles, and behind them the terminator or not.
abbrev pub terminated : Bool → List ℕ → List ℕ
terminated true hex = hex ++ 16 ∷ []
terminated false hex = hex

abbrev pub bit : Bool → ℕ
bit true = 1
bit false = 0

prefixed-AreNibbles :
    (b : Bool) (hex : List ℕ)
    → AreNibbles hex
    → AreNibbles (prefixed (bit b) hex) × (length (prefixed (bit b) hex) % 2 ≡ 0)
unfolding prefixed
prefixed-AreNibbles b hex n = elim (Bool-cases (length hex % 2 == 1)) [
  | inl e ↦ rw e ((flag_small b, n), omega (arith, (==_iff (length hex % 2) 1).0 e))
  | inr e ↦ rw e ((flag_small b, (omega arith, n)), ground (arith, e))
]
  where
    flag_small : (b : Bool) → 2 * bit b + length hex % 2 < 16
    flag_small true = omega arith
    flag_small false = omega arith

-- The compact form of a key packs its flag and its nibbles.
encode_compact-pack :
    (b : Bool) (hex : List ℕ)
    → AreNibbles hex
    → encode_compact (terminated b hex) ≡ pack (prefixed (bit b) hex)
unfolding encode_compact
encode_compact-pack true hex n = rw (has_terminator-append hex, without_last-append hex 16) refl
encode_compact-pack false hex n = rw (has_terminator-none hex n) refl

short_enough : (n : ℕ) (xs : List ℕ) → n ≤ length xs → leb n (length xs) ≡ true
short_enough n xs h = ground (arith, h)

-- Behind a prefix and with a terminator, the key is what the flag says.
without_prefix-prefixed :
    (b : Bool) (hex : List ℕ)
    → without_prefix (prefixed (bit b) hex ++ 16 ∷ []) ≡ some (terminated b hex)
unfolding without_prefix prefixed
without_prefix-prefixed b hex = elim (Bool-cases (length hex % 2 == 1)) [
  | inl e ↦ odd b ((==_iff (length hex % 2) 1).0 e)
  | inr e ↦ even b (ground (arith, e))
]
  where
    odd :
        (b : Bool)
        → length hex % 2 ≡ 1
        → without_prefix (prefixed (bit b) hex ++ 16 ∷ []) ≡ some (terminated b hex)
    odd true e = rw (e, short_enough 1 (3 ∷ hex ++ 16 ∷ []) (omega arith)) refl
    odd false e =
        rw (e, without_last-append (1 ∷ hex) 16, short_enough 1 (1 ∷ hex) (omega arith)) refl

    even :
        (b : Bool)
        → length hex % 2 ≡ 0
        → without_prefix (prefixed (bit b) hex ++ 16 ∷ []) ≡ some (terminated b hex)
    even true e = rw (e, short_enough 2 (2 ∷ 0 ∷ hex ++ 16 ∷ []) (omega arith)) refl
    even false e =
        rw (e, without_last-append (0 ∷ 0 ∷ hex) 16, short_enough 2 (0 ∷ 0 ∷ hex) (omega arith))
          refl

-- decodeCompact gives back the key that encodeCompact was given, nibbles with a terminator behind them or
-- without one, and does not panic.
pub decode_compact-encode_compact :
    (b : Bool) (hex : List ℕ)
    → AreNibbles hex
    → decode_compact (encode_compact (terminated b hex)) ≡ some (terminated b hex)
unfolding decode_compact bytes_to_hex_nibbles
decode_compact-encode_compact b hex n =
    let (small, even) = prefixed-AreNibbles b hex n in
    rw (encode_compact-pack b hex n, nibbles_of-pack (prefixed (bit b) hex) small even)
      (without_prefix-prefixed b hex)
