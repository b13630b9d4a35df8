-- ===== src/Nibbles.antt =====
-- state/immutable-trie/encoding.go: the keys of the trie as nibbles and in compact form.
-- A byte is a number, which the code keeps below 256 by its type.
pub mod Packing
pub mod Compact
mod Tests
use Prim.Native.Nat.{bit_or, bit_and}
use mainnet.Common.{
  ℕ, zero, suc, ◌+◌, ◌-◌, ◌*◌, ◌/◌, ◌%◌, ◌^◌, ◌≤◌, ◌<◌, ◌≡◌, refl, sym, ap, ◌∙◌, subst, ◌≢◌, ◌↔◌,
  ◌⊎◌, inl, inr, Bool, true, false, not, ◌&&◌, ◌||◌, Option, none, some, List, [], ◌∷◌, ◌++◌, map,
  arith, ltb, leb, ◌==◌, if◌then◌else◌, ==_iff, ==_refl, Bool-cases, Option-cases, same, same_iff,
  bytes_equal, bytes_equal_refl, eq_of_bytes_equal, length, get_elem?, set, drop, erase_at,
  length-append, length-erase_at, keep, count_if, All, length-keep, count_if-append, count_if-nil,
  get_elem?-total, count_if-keep, All-keep, All-map, All-append, All-drop, All-get_elem?, Result,
  ok, err, ◌>>=◌, ◌>>◌, ensure, or_fail, Result-cases, bind-ok, ensure-ok, or_fail-ok,
}

-- hex[len(hex)-1] == 16
unfoldable pub has_terminator : List ℕ → Bool
has_terminator [] = false
has_terminator (x ∷ []) = x == 16
has_terminator (x ∷ y ∷ hex) = has_terminator (y ∷ hex)

-- hex[:len(hex)-1]
unfoldable pub without_last : List ℕ → List ℕ
without_last [] = []
without_last (x ∷ []) = []
without_last (x ∷ y ∷ hex) = x ∷ without_last (y ∷ hex)

-- a<<4 | b on bytes.
abbrev pub pair_up : ℕ → ℕ → ℕ
pair_up a b = bit_or (a * 16 % 256) b

-- The loop that packs two nibbles at a time. A single one at the end has no place in the result.
unfoldable pub pack : List ℕ → List ℕ
pack [] = []
pack (x ∷ []) = []
pack (x ∷ y ∷ hex) = pair_up x y ∷ pack hex

-- The flag and, where the length is even, a zero.
unfoldable pub prefixed : ℕ → List ℕ → List ℕ
prefixed terminator hex =
    let odd_len = length hex % 2 in
    let flag = 2 * terminator + odd_len in if odd_len == 1 then flag ∷ hex else flag ∷ 0 ∷ hex

unfoldable pub encode_compact : List ℕ → List ℕ
encode_compact hex =
    if has_terminator hex then pack (prefixed 1 (without_last hex)) else pack (prefixed 0 hex)

unfoldable pub nibbles_of : List ℕ → List ℕ
nibbles_of [] = []
nibbles_of (b ∷ bytes) = b / 16 ∷ b % 16 ∷ nibbles_of bytes

-- The nibbles with the terminator behind them.
unfoldable pub bytes_to_hex_nibbles : List ℕ → List ℕ
bytes_to_hex_nibbles bytes = nibbles_of bytes ++ 16 ∷ []

-- hex[n:], which panics behind the end.
abbrev pub from_index : ℕ → List ℕ → Option (List ℕ)
from_index n hex = if leb n (length hex) then some (drop n hex) else none

-- base without the terminator, where its first nibble says so.
abbrev pub by_flag : ℕ → List ℕ → List ℕ
by_flag flag base = if ltb flag 2 then without_last base else base

unfoldable pub without_prefix : List ℕ → Option (List ℕ)
without_prefix [] = none
without_prefix (flag ∷ base) =
    let rest = by_flag flag (flag ∷ base) in
    if bit_and flag 1 == 1 then from_index 1 rest else from_index 2 rest

-- `none` is a panic.
unfoldable pub decode_compact : List ℕ → Option (List ℕ)
decode_compact compact = without_prefix (bytes_to_hex_nibbles compact)
