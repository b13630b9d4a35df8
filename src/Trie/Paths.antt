-- ===== src/Trie/Paths.antt =====
-- state/immutable-trie/trie.go: keys with their terminator.
use mainnet.Nibbles.{bytes_to_hex_nibbles, nibbles_of}
use mainnet.Trie.{begins_with}
use mainnet.Trie.Prefixes.{begins_with-tail}
use mainnet.Common.{
  ℕ, ◌/◌, ◌%◌, ◌<◌, ◌≡◌, refl, sym, ap, ◌∙◌, ◌≢◌, ◌⊎◌, inl, inr, true, List, [], ◌∷◌, ◌++◌, arith,
  All,
}

-- A key with its terminator: 16 stands at its end and nowhere else.
abbrev pub IsPath : List ℕ → Type 0
IsPath [] = ⊥
IsPath (x ∷ key) = ((x ≡ 16) × (key ≡ [])) ⊎ ((x ≢ 16) × IsPath key)

abbrev pub IsInner : List ℕ → Type 0
IsInner key = All (λ x. x ≢ 16) key

pub paths_equal : (r part : List ℕ) → begins_with r part ≡ true → IsPath part → IsPath r → r ≡ part
paths_equal r [] h p q = absurd p
paths_equal [] (y ∷ part) h p q = absurd q
paths_equal (x ∷ r) (y ∷ part) h (inl (p, d)) (inl (q, e)) =
    ap (λ a. a ∷ r) (q ∙ sym p) ∙ ap (λ s. y ∷ s) (e ∙ sym d)
paths_equal (x ∷ r) (y ∷ part) h (inl (p, d)) (inr (q, e)) =
    absurd (q ((begins_with-tail x y r part h).0 ∙ p))
paths_equal (x ∷ r) (y ∷ part) h (inr (p, d)) (inl (q, e)) =
    absurd (p (sym ((begins_with-tail x y r part h).0) ∙ q))
paths_equal (x ∷ r) (y ∷ part) h (inr (p, d)) (inr (q, e)) =
    let (a, b) = begins_with-tail x y r part h in
    ap (λ c. c ∷ r) a ∙ ap (λ s. y ∷ s) (paths_equal r part b d e)

pub rest-IsPath : (p r : List ℕ) → IsInner p → IsPath (p ++ r) → IsPath r
rest-IsPath [] r i q = q
rest-IsPath (x ∷ p) r (d, i) (inl (e, _)) = absurd (d e)
rest-IsPath (x ∷ p) r (d, i) (inr (_, q)) = rest-IsPath p r i q

-- The key of a short node in a trie whose values stand where keys have ended.
abbrev pub IsPart : List ℕ → Type 0
IsPart part = IsPath part ⊎ IsInner part

pub tail-IsPart :
    (y k : ℕ) (part rest : List ℕ) → part ≡ (k ∷ rest) → IsPart (y ∷ part) → (y ≢ 16) × IsPart part
tail-IsPart y k part rest e (inl (inl (p, z))) = absurd (filled (sym e ∙ z))
  where
    filled : (k ∷ rest) ≡ [] → ⊥
    filled h = ground (arith, h)
tail-IsPart y k part rest e (inl (inr (d, p))) = (d, inl p)
tail-IsPart y k part rest e (inr (d, i)) = (d, inr i)

pub inner_not_path : (part : List ℕ) → IsInner part → IsPath part → ⊥
inner_not_path [] i p = p
inner_not_path (x ∷ part) (d, i) (inl (e, z)) = d e
inner_not_path (x ∷ part) (d, i) (inr (e, p)) = inner_not_path part i p

-- The nibbles of bytes are a path.
pub bytes_to_hex_nibbles-IsPath :
    (key : List ℕ) → All (λ b. b < 256) key → IsPath (bytes_to_hex_nibbles key)
unfolding bytes_to_hex_nibbles nibbles_of
bytes_to_hex_nibbles-IsPath [] h = inl (refl, refl)
bytes_to_hex_nibbles-IsPath (b ∷ key) (l, h) =
    inr (high, inr (low, bytes_to_hex_nibbles-IsPath key h))
  where
    high : b / 16 ≢ 16
    high e = omega (arith, l, e)

    low : b % 16 ≢ 16
    low e = omega (arith, e)

head : List ℕ → ℕ
head [] = 0
head (x ∷ xs) = x

tail : List ℕ → List ℕ
tail [] = []
tail (x ∷ xs) = xs

-- Two keys of bytes have different nibbles.
pub bytes_to_hex_nibbles_injective :
    (key other : List ℕ) → bytes_to_hex_nibbles key ≡ bytes_to_hex_nibbles other → key ≡ other
unfolding bytes_to_hex_nibbles nibbles_of head tail
bytes_to_hex_nibbles_injective [] [] e = refl
bytes_to_hex_nibbles_injective [] (y ∷ other) e = absurd (filled (ap tail e))
  where
    filled : [] ≡ (y % 16 ∷ bytes_to_hex_nibbles other) → ⊥
    filled h = ground (arith, h)
bytes_to_hex_nibbles_injective (x ∷ key) [] e = absurd (filled (ap tail e))
  where
    filled : (x % 16 ∷ bytes_to_hex_nibbles key) ≡ [] → ⊥
    filled h = ground (arith, h)
bytes_to_hex_nibbles_injective (x ∷ key) (y ∷ other) e =
    let low = ap (λ s. head (tail s)) e in
    let high = ap head e in
    ap (λ a. a ∷ key) (same_byte low high)
    ∙ ap (λ s. y ∷ s) (bytes_to_hex_nibbles_injective key other (ap (λ s. tail (tail s)) e))
  where
    same_byte : x % 16 ≡ y % 16 → x / 16 ≡ y / 16 → x ≡ y
    same_byte l h = omega (arith, l, h)
