-- ===== src/Nibbles/Tests.antt =====
-- The round trip of trie keys at a concrete key.
use mainnet.Nibbles.{encode_compact, decode_compact}
use mainnet.Nibbles.Compact.{terminated, decode_compact-encode_compact}
use mainnet.Common.{◌≡◌, true, some, [], ◌∷◌, arith}

-- An odd number of nibbles, with the terminator.
decode_compact-encode_compact_example :
    decode_compact (encode_compact (terminated true (15 ∷ 1 ∷ 12 ∷ [])))
    ≡ some (15 ∷ 1 ∷ 12 ∷ 16 ∷ [])
decode_compact-encode_compact_example =
    decode_compact-encode_compact true (15 ∷ 1 ∷ 12 ∷ [])
      (omega arith, (omega arith, (omega arith, tt)))
