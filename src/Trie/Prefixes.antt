-- ===== src/Trie/Prefixes.antt =====
-- state/immutable-trie/trie.go: how a key begins with the key of a short node.
use mainnet.Trie.{Node, short_node, prefix_len, first, begins_with, lookup, under}
use mainnet.Common.{
  ℕ, zero, suc, ◌≤◌, ◌≡◌, refl, sym, ap, ◌∙◌, inl, inr, Bool, true, false, ◌&&◌, none, List, [],
  ◌∷◌, ◌++◌, arith, leb, ◌==◌, if◌then◌else◌, ==_iff, ==_refl, Bool-cases, bytes_equal, length,
  drop,
}

pub begins_with-nil : (search : List ℕ) → begins_with search [] ≡ true
unfolding begins_with bytes_equal
begins_with-nil [] = refl
begins_with-nil (x ∷ search) = ground arith

pub begins_with-cons :
    (x y : ℕ) (search part : List ℕ)
    → (x == y) ≡ true
    → begins_with (x ∷ search) (y ∷ part) ≡ begins_with search part
unfolding begins_with bytes_equal
begins_with-cons x y search part e =
    rw e (more (length part) (length search) (bytes_equal (first (length part) search) part))
  where
    more : (a b : ℕ) (c : Bool) → (leb (suc a) (suc b) && c) ≡ (leb a b && c)
    more a b c = ground arith

-- The first nibbles of a key begin it.
begins_with-first :
    (n : ℕ) (search : List ℕ)
    → n ≤ length search
    → (begins_with search (first n search) ≡ true) × (length (first n search) ≡ n)
begins_with-first zero search l = (begins_with-nil search, refl)
begins_with-first (suc n) [] l = absurd (omega (arith, l))
begins_with-first (suc n) (x ∷ search) l =
    let (b, e) = begins_with-first n search (omega (arith, l)) in
    (begins_with-cons x x search (first n search) (==_refl x) ∙ b, ap suc e)

pub prefix_len-equal :
    (x y : ℕ) (search part : List ℕ)
    → (x == y) ≡ true
    → prefix_len (x ∷ search) (y ∷ part) ≡ suc (prefix_len search part)
unfolding prefix_len
prefix_len-equal x y search part e = ap (λ b. if b then suc (prefix_len search part) else 0) e

pub prefix_len-differ :
    (x y : ℕ) (search part : List ℕ) → (x == y) ≡ false → prefix_len (x ∷ search) (y ∷ part) ≡ 0
unfolding prefix_len
prefix_len-differ x y search part e = ap (λ b. if b then suc (prefix_len search part) else 0) e

-- A key of which nothing is left begins the search.
pub begins_with-prefix :
    (search part : List ℕ)
    → drop (prefix_len search part) part ≡ []
    → (begins_with search part ≡ true) × (prefix_len search part ≡ length part)
unfolding prefix_len
begins_with-prefix [] [] h = (begins_with-nil [], refl)
begins_with-prefix [] (y ∷ part) h = absurd (ground (arith, h))
begins_with-prefix (x ∷ search) [] h = (begins_with-nil (x ∷ search), refl)
begins_with-prefix (x ∷ search) (y ∷ part) h = elim (Bool-cases (x == y)) [
  | inl e ↦
      let (b, l) =
        begins_with-prefix search part
          (ap (λ n. drop n (y ∷ part)) (sym (prefix_len-equal x y search part e)) ∙ h) in
      (begins_with-cons x y search part e ∙ b, prefix_len-equal x y search part e ∙ ap suc l)
  | inr e ↦ absurd (
      left_over y part
        (ap (λ n. drop n (y ∷ part)) (sym (prefix_len-differ x y search part e)) ∙ h))
]
  where
    left_over : (y : ℕ) (part : List ℕ) → (y ∷ part) ≡ [] → ⊥
    left_over y part h = ground (arith, h)

pub prefix_len-bound : (search part : List ℕ) → prefix_len search part ≤ length search
unfolding prefix_len
prefix_len-bound [] part = omega arith
prefix_len-bound (x ∷ search) [] = omega arith
prefix_len-bound (x ∷ search) (y ∷ part) = elim (Bool-cases (x == y)) [
  | inl e ↦ omega (arith, prefix_len-equal x y search part e, prefix_len-bound search part)
  | inr e ↦ omega (arith, prefix_len-differ x y search part e)
]

pub length-drop : (n : ℕ) (key : List ℕ) → length (drop n key) ≤ length key
length-drop zero key = omega arith
length-drop (suc n) [] = omega arith
length-drop (suc n) (x ∷ key) = omega (arith, length-drop n key)

pub begins_with-same : (key : List ℕ) → begins_with key key ≡ true
begins_with-same [] = begins_with-nil []
begins_with-same (k ∷ key) = begins_with-cons k k key key (==_refl k) ∙ begins_with-same key

pub drop-all : (key : List ℕ) → drop (length key) key ≡ []
drop-all [] = refl
drop-all (k ∷ key) = drop-all key

begins_with-differ :
    (x y : ℕ) (search part : List ℕ)
    → (x == y) ≡ false
    → begins_with (x ∷ search) (y ∷ part) ≡ false
unfolding begins_with bytes_equal
begins_with-differ x y search part e =
    nothing (leb (suc (length part)) (suc (length search))) (x == y)
      (bytes_equal (first (length part) search) part) e
  where
    nothing : (a b c : Bool) → b ≡ false → (a && (b && c)) ≡ false
    nothing a b c e = ground (arith, e)

begins_with-empty : (y : ℕ) (part : List ℕ) → begins_with [] (y ∷ part) ≡ true → ⊥
unfolding begins_with
begins_with-empty y part h = ground (arith, h)

-- A key that begins with another one begins with its first nibble, and the rest with the rest.
pub begins_with-tail :
    (x y : ℕ) (search part : List ℕ)
    → begins_with (x ∷ search) (y ∷ part) ≡ true
    → (x ≡ y) × (begins_with search part ≡ true)
begins_with-tail x y search part h = elim (Bool-cases (x == y)) [
  | inl e ↦ ((==_iff x y).0 e, sym (begins_with-cons x y search part e) ∙ h)
  | inr e ↦ absurd (ground (arith, h, begins_with-differ x y search part e))
]

-- What begins a key is the beginning of it.
pub begins_split :
    (search part : List ℕ)
    → begins_with search part ≡ true
    → search ≡ (part ++ drop (length part) search)
begins_split search [] h = refl
begins_split [] (y ∷ part) h = absurd (begins_with-empty y part h)
begins_split (x ∷ search) (y ∷ part) h =
    let (e, b) = begins_with-tail x y search part h in
    ap (λ a. a ∷ search) e ∙ ap (λ s. y ∷ s) (begins_split search part b)

pub lookup-short :
    (part search : List ℕ) (child : Node)
    → begins_with search part ≡ true
    → lookup (short_node part child) search ≡ lookup child (drop (length part) search)
unfolding lookup
lookup-short part search child e =
    ap (λ b. if b then lookup child (drop (length part) search) else none) e

pub lookup-short_none :
    (part search : List ℕ) (child : Node)
    → begins_with search part ≡ false
    → lookup (short_node part child) search ≡ none
unfolding lookup
lookup-short_none part search child e =
    ap (λ b. if b then lookup child (drop (length part) search) else none) e

-- A short node is a chain of shorter ones.
pub lookup-short_cons :
    (y : ℕ) (part : List ℕ) (j : ℕ) (search : List ℕ) (child : Node)
    → lookup (short_node (y ∷ part) child) (j ∷ search)
      ≡ (if j == y then lookup (short_node part child) search else none)
lookup-short_cons y part j search child = elim (Bool-cases (j == y)) [
  | inl e ↦ elim (Bool-cases (begins_with search part)) [
    | inl b ↦
        lookup-short (y ∷ part) (j ∷ search) child (begins_with-cons j y search part e ∙ b)
        ∙ sym (lookup-short part search child b)
        ∙ sym (ap (λ t. if t then lookup (short_node part child) search else none) e)
    | inr b ↦
        lookup-short_none (y ∷ part) (j ∷ search) child (begins_with-cons j y search part e ∙ b)
        ∙ sym (lookup-short_none part search child b)
        ∙ sym (ap (λ t. if t then lookup (short_node part child) search else none) e)
  ]
  | inr e ↦
      lookup-short_none (y ∷ part) (j ∷ search) child (begins_with-differ j y search part e)
      ∙ sym (ap (λ t. if t then lookup (short_node part child) search else none) e)
]

pub lookup-short_nil :
    (search : List ℕ) (child : Node) → lookup (short_node [] child) search ≡ lookup child search
lookup-short_nil search child = lookup-short [] search child (begins_with-nil search)

pub lookup-under :
    (search : List ℕ) (plen : ℕ) (n : Node)
    → plen ≤ length search
    → lookup (under (first plen search) n) search ≡ lookup n (drop plen search)
lookup-under search zero n l = refl
lookup-under [] (suc plen) n l = absurd (omega (arith, l))
lookup-under (x ∷ search) (suc plen) n l =
    let (b, e) = begins_with-first (suc plen) (x ∷ search) l in
    lookup-short (x ∷ first plen search) (x ∷ search) n b
    ∙ ap (λ k. lookup n (drop k (x ∷ search))) e

pub lookup-under_short :
    (part : List ℕ) (n : Node) (search : List ℕ)
    → lookup (under part n) search ≡ lookup (short_node part n) search
lookup-under_short [] n search = sym (lookup-short_nil search n)
lookup-under_short (x ∷ part) n search = refl
