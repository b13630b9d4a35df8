-- ===== src/Access/Tests.antt =====
-- The theorem on access sets at a concrete input.
use mainnet.Access.{Call, Key, balance, lower_hex, checksum_encode, extract_write_set}
use mainnet.Access.Texts.{has_capital}
use mainnet.Access.Balances.{Has, extract_write_set-splits}
use mainnet.Common.{ℕ, zero, suc, refl, ap, ◌≢◌, some, List, [], ◌∷◌, ◌++◌, arith, bytes_equal}

abbrev repeat : ℕ → ℕ → List ℕ
repeat zero b = []
repeat (suc n) b = b ∷ repeat n b

-- An address of digits alone and two of letters. The hash is here the byte 136 throughout, whose digits are 8.
abbrev alice : List ℕ
alice = repeat 20 17

abbrev bob : List ℕ
bob = repeat 20 171

abbrev carol : List ℕ
carol = repeat 20 205

abbrev hash : List ℕ → List ℕ
hash text = repeat 32 136

abbrev transfer_to : List ℕ → List ℕ → Call
transfer_to sender to = record {
  sender = sender;
  to = some (repeat 20 153);
  value = 0;
  input = 169 ∷ 5 ∷ 156 ∷ 187 ∷ repeat 12 0 ++ to ++ repeat 32 1;
}

first : List ℕ → ℕ
first [] = 0
first (x ∷ xs) = x

numbers_differ : (m n : ℕ) (xs ys : List ℕ) → m ≢ n → ◌≢◌ {A = List ℕ} (m ∷ xs) (n ∷ ys)
unfolding first
numbers_differ m n xs ys d e = d (ap first e)

extract_write_set-splits_example :
    ((k : Key)
      → Has (extract_write_set hash (some (transfer_to alice bob))) k
      → Has (extract_write_set hash (some (transfer_to bob carol))) k
      → ⊥)
    × Has
        (extract_write_set hash (some (transfer_to alice bob)))
        (balance (48 ∷ 120 ∷ lower_hex bob))
    × Has
        (extract_write_set hash (some (transfer_to bob carol)))
        (balance (checksum_encode hash bob))
unfolding bytes_equal has_capital lower_hex
extract_write_set-splits_example =
    extract_write_set-splits hash (transfer_to alice bob) (transfer_to bob carol) (λ text. refl)
      (refl, omega arith, refl) (refl, omega arith, refl) (refl, omega arith) (refl, omega arith)
      (refl, omega arith) refl (numbers_differ 17 171 _ _ (λ e. omega (arith, e)))
      (numbers_differ 17 205 _ _ (λ e. omega (arith, e)))
      (numbers_differ 171 205 _ _ (λ e. omega (arith, e))) refl
