-- ===== src/Access.antt =====
-- executor.go: the state keys that a transaction will read and write, from its fields and its input.
-- An address is the list of its 20 bytes. Keccak256, which makes 32 bytes of a text, is an argument. The sender is what GetSender gives, whose error the code drops. A key is the
-- format that the code prints it with, and the strings in it. The value is a natural number: a nil value
-- is a panic in Go.
pub mod Texts
pub mod Balances
mod Tests
use mainnet.Common.{
  ℕ, zero, suc, ◌+◌, ◌-◌, ◌*◌, ◌/◌, ◌%◌, ◌^◌, ◌≤◌, ◌<◌, ◌≡◌, refl, sym, ap, ◌∙◌, subst, ◌≢◌, ◌↔◌,
  ◌⊎◌, inl, inr, Bool, true, false, not, ◌&&◌, ◌||◌, Option, none, some, List, [], ◌∷◌, ◌++◌, map,
  arith, ltb, leb, ◌==◌, if◌then◌else◌, ==_iff, ==_refl, Bool-cases, Option-cases, same, same_iff,
  bytes_equal, bytes_equal_refl, eq_of_bytes_equal, length, get_elem?, set, drop, erase_at,
  length-append, length-erase_at, keep, count_if, All, length-keep, count_if-append, count_if-nil,
  get_elem?-total, count_if-keep, All-keep, All-map, All-append, All-drop, All-get_elem?, Result,
  ok, err, ◌>>=◌, ◌>>◌, ensure, or_fail, Result-cases, bind-ok, ensure-ok, or_fail-ok,
}

pub record Call : Type 0 where
  pub sender : List ℕ
  pub to : Option (List ℕ)
  pub value : ℕ
  pub input : List ℕ

pub data Key : Type 0 where
  account : List ℕ → Key
  balance : List ℕ → Key
  allowance : List ℕ → List ℕ → Key
  supply : List ℕ → Key

abbrev pub take : ℕ → List ℕ → List ℕ
take zero xs = []
take (suc n) [] = []
take (suc n) (x ∷ xs) = x ∷ take n xs

-- %x
abbrev pub hex_digit : ℕ → ℕ
hex_digit n = if ltb n 10 then 48 + n else 87 + n

unfoldable pub lower_hex : List ℕ → List ℕ
lower_hex [] = []
lower_hex (b ∷ bytes) = hex_digit (b / 16) ∷ hex_digit (b % 16) ∷ lower_hex bytes

-- The last 20 bytes of a parameter of 32, with the prefix 0x.
unfoldable pub extract_address_from_input : List ℕ → ℕ → List ℕ
extract_address_from_input input offset =
    if ltb (length input) (offset + 32)
    then []
    else 48 ∷ 120 ∷ lower_hex (take 20 (drop (offset + 12) input))

abbrev pub is_method : ℕ → ℕ → ℕ → ℕ → List ℕ → Bool
is_method a b c d input = bytes_equal (take 4 input) (a ∷ b ∷ c ∷ d ∷ [])

abbrev pub is_transfer_method : List ℕ → Bool
is_transfer_method input = is_method 169 5 156 187 input

abbrev pub is_approve_method : List ℕ → Bool
is_approve_method input = is_method 9 94 167 179 input

abbrev pub is_transfer_from_method : List ℕ → Bool
is_transfer_from_method input = is_method 35 184 114 221 input

abbrev pub is_balance_of_method : List ℕ → Bool
is_balance_of_method input = is_method 112 160 130 49 input

abbrev pub is_allowance_method : List ℕ → Bool
is_allowance_method input = is_method 221 98 237 62 input

abbrev pub is_total_supply_method : List ℕ → Bool
is_total_supply_method input = is_method 24 22 13 221 input

abbrev pub is_mint_method : List ℕ → Bool
is_mint_method input = is_method 64 193 15 25 input

abbrev pub is_burn_method : List ℕ → Bool
is_burn_method input = is_method 66 150 108 104 input

abbrev pub is_decimal : ℕ → Bool
is_decimal ch = leb 48 ch && leb ch 57

-- unicode.ToUpper on hexadecimal digits.
abbrev pub to_upper : ℕ → ℕ
to_upper ch = if leb 97 ch && leb ch 122 then ch - 32 else ch

-- The loop of checksumEncode over the digits of the address and those of their hash. The hash is the longer.
unfoldable pub mixed : List ℕ → List ℕ → List ℕ
mixed [] hash = []
mixed (ch ∷ text) [] = []
mixed (ch ∷ text) (h ∷ hash) =
    let rest = mixed text hash in
    (if is_decimal ch || leb 48 h && leb h 55 then ch else to_upper ch) ∷ rest

module _ (keccak : List ℕ → List ℕ) where
  -- String() of an address: its digits with capitals where the hash of the digits says so.
  unfoldable pub checksum_encode : List ℕ → List ℕ
  checksum_encode a = 48 ∷ 120 ∷ mixed (lower_hex a) (lower_hex (keccak (lower_hex a)))

  abbrev pub string_of : List ℕ → List ℕ
  string_of a = checksum_encode a

  abbrev pub recipient_key : (List ℕ → Key) → Option (List ℕ) → List Key
  recipient_key key none = []
  recipient_key key (some to) = key (string_of to) ∷ []

  -- The keys that a method reads beside the accounts.
  unfoldable pub method_reads : Call → List Key
  method_reads t =
      let argument = extract_address_from_input t.input 4 in
      let other = extract_address_from_input t.input 36 in
      if is_balance_of_method t.input
      then (if leb 36 (length t.input) then balance argument ∷ [] else [])
      else if is_allowance_method t.input
      then (if leb 68 (length t.input) then allowance argument other ∷ [] else [])
      else if is_total_supply_method t.input
      then recipient_key supply t.to
      else []

  unfoldable pub extract_read_set : Option Call → List Key
  extract_read_set none = []
  extract_read_set (some t) =
      account (string_of t.sender) ∷ recipient_key account t.to
      ++ (if leb 4 (length t.input) then method_reads t else [])

  -- mint and burn write the supply of the contract that they call.
  abbrev pub balance_and_supply : List ℕ → Option (List ℕ) → List Key
  balance_and_supply holder none = []
  balance_and_supply holder (some to) = balance holder ∷ supply (string_of to) ∷ []

  -- The keys that a method writes beside the accounts.
  unfoldable pub method_writes : Call → List Key
  method_writes t =
      let sender = string_of t.sender in
      let argument = extract_address_from_input t.input 4 in
      let other = extract_address_from_input t.input 36 in
      if is_transfer_method t.input
      then (if leb 36 (length t.input) then balance sender ∷ balance argument ∷ [] else [])
      else if is_approve_method t.input
      then (if leb 36 (length t.input) then allowance sender argument ∷ [] else [])
      else if is_transfer_from_method t.input
      then (if leb 68 (length t.input)
          then balance argument ∷ balance other ∷ allowance argument sender ∷ []
          else [])
      else if is_mint_method t.input || is_burn_method t.input
      then (if leb 36 (length t.input) then balance_and_supply argument t.to else [])
      else []

  unfoldable pub extract_write_set : Option Call → List Key
  extract_write_set none = []
  extract_write_set (some t) =
      account (string_of t.sender) ∷ (if ltb 0 t.value then recipient_key account t.to else [])
      ++ (if leb 4 (length t.input) then method_writes t else [])
