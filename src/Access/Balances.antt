-- ===== src/Access/Balances.antt =====
-- executor.go: the balances that an ACC-20 transfer writes.
use mainnet.Access.{
  Call, Key, account, balance, take, lower_hex, extract_address_from_input, is_transfer_method,
  extract_write_set, method_writes, checksum_encode,
}
use mainnet.Access.Texts.{
  tail, lower_hex_injective, IsAddress, is_capitalized, checksum_encode_injective, small_differs,
  capital_splits,
}
use mainnet.Common.{
  ℕ, ◌≤◌, ◌≡◌, refl, sym, ap, ◌∙◌, ◌≢◌, ◌⊎◌, inl, inr, true, false, some, List, [], ◌∷◌, arith, ltb,
  leb, length, drop,
}

abbrev pub Has : List Key → Key → Type 0
Has [] key = ⊥
Has (k ∷ keys) key = (k ≡ key) ⊎ Has keys key

-- The address that a transfer pays to.
abbrev pub payee : Call → List ℕ
payee t = take 20 (drop 16 t.input)

-- A transfer of tokens, without a payment in the coin of the chain.
abbrev pub IsTransfer : Call → Type 0
IsTransfer t = (is_transfer_method t.input ≡ true) × (36 ≤ length t.input) × (t.value ≡ 0)

text_of : Key → List ℕ
text_of (account a) = a
text_of (balance a) = a
text_of _ = []

zero_one : ◌≡◌ {A = ℕ} 0 1 → ⊥
zero_one e = omega (arith, e)

kind : Key → ℕ
kind (account a) = 0
kind _ = 1

module _ (keccak : List ℕ → List ℕ) where
  transfer_writes :
      (t : Call)
      → IsTransfer t
      → extract_write_set keccak (some t)
        ≡ account (checksum_encode keccak t.sender)
          ∷ balance (checksum_encode keccak t.sender)
          ∷ balance (48 ∷ 120 ∷ lower_hex (payee t))
          ∷ []
  unfolding extract_write_set method_writes extract_address_from_input
  transfer_writes t (m, l, v) =
      let enough : ltb (length t.input) 36 ≡ false = ground (arith, l) in
      let two : leb 36 (length t.input) ≡ true = ground (arith, l) in
      let long : leb 4 (length t.input) ≡ true = ground (arith, l) in
      let no_value : ltb 0 t.value ≡ false = ground (arith, v) in
      rw (m, two, enough, long, no_value) refl

  -- Of two ACC-20 transfers, the second spends what the first pays: its sender is the payee of the first.
  -- Let three accounts take part, and String() of the one in the middle have a capital. Then the two transfers
  -- write no key in common, although both write the balance of that account: once under the digits in small
  -- letters, and once under String().
  pub extract_write_set-splits :
      (t u : Call)
      → ((text : List ℕ) → length (keccak text) ≡ 32)
      → IsTransfer t
      → IsTransfer u
      → IsAddress t.sender
      → IsAddress u.sender
      → IsAddress (payee u)
      → payee t ≡ u.sender
      → t.sender ≢ u.sender
      → t.sender ≢ payee u
      → u.sender ≢ payee u
      → is_capitalized keccak u.sender ≡ true
      → ((k : Key)
          → Has (extract_write_set keccak (some t)) k
          → Has (extract_write_set keccak (some u)) k
          → ⊥)
        × Has (extract_write_set keccak (some t)) (balance (48 ∷ 120 ∷ lower_hex u.sender))
        × Has (extract_write_set keccak (some u)) (balance (checksum_encode keccak u.sender))
  unfolding text_of kind tail
  extract_write_set-splits t u size m n h i j paid d₁ d₂ d₃ capital =
      rw (transfer_writes t m, transfer_writes u n)
        (
          apart,
          inr (inr (inl (ap (λ (a : List ℕ). balance (48 ∷ 120 ∷ lower_hex a)) paid))),
          inr (inl refl),
        )
    where
      st : List ℕ
      st = checksum_encode keccak t.sender

      su : List ℕ
      su = checksum_encode keccak u.sender

      text : List ℕ → List ℕ
      text a = 48 ∷ 120 ∷ lower_hex a

      other_kind : {a b : List ℕ} → account a ≡ balance b → ⊥
      other_kind e = absurd (zero_one (ap kind e))

      apart :
          (k : Key)
          → Has (account st ∷ balance st ∷ balance (text (payee t)) ∷ []) k
          → Has (account su ∷ balance su ∷ balance (text (payee u)) ∷ []) k
          → ⊥
      apart k (inl x) (inl y) =
          d₁ (checksum_encode_injective keccak t.sender u.sender size h i (ap text_of (x ∙ sym y)))
      apart k (inl x) (inr (inl y)) = other_kind (x ∙ sym y)
      apart k (inl x) (inr (inr (inl y))) = other_kind (x ∙ sym y)
      apart k (inr (inl x)) (inl y) = other_kind (y ∙ sym x)
      apart k (inr (inl x)) (inr (inl y)) =
          d₁ (checksum_encode_injective keccak t.sender u.sender size h i (ap text_of (x ∙ sym y)))
      apart k (inr (inl x)) (inr (inr (inl y))) =
          d₂ (small_differs keccak t.sender (payee u) size h j (ap text_of (x ∙ sym y)))
      apart k (inr (inr (inl x))) (inl y) = other_kind (y ∙ sym x)
      apart k (inr (inr (inl x))) (inr (inl y)) =
          capital_splits keccak u.sender capital (ap text_of (y ∙ sym x) ∙ ap text paid)
      apart k (inr (inr (inl x))) (inr (inr (inl y))) = d₃ (
          lower_hex_injective u.sender (payee u) i.1 j.1
            (ap lower_hex (sym paid) ∙ ap (λ l. tail (tail (text_of l))) (x ∙ sym y)))
      apart k (inl x) (inr (inr (inr y))) = elim y [ ]
      apart k (inr (inl x)) (inr (inr (inr y))) = elim y [ ]
      apart k (inr (inr (inl x))) (inr (inr (inr y))) = elim y [ ]
      apart k (inr (inr (inr x))) y = elim x [ ]
