-- ===== src/Trie/Leaving.antt =====
-- state/immutable-trie/trie.go: a search that leaves the key of a short node.
use mainnet.Trie.{Node, short_node, prefix_len, first, lookup}
use mainnet.Trie.Prefixes.{prefix_len-equal, prefix_len-differ, lookup-short_cons, lookup-short_nil}
use mainnet.Trie.Paths.{IsPath, IsPart, tail-IsPart}
use mainnet.Common.{
  ℕ, zero, suc, ◌≡◌, refl, sym, ap, ◌∙◌, subst, ◌≢◌, ◌⊎◌, inl, inr, true, false, none, List, [],
  ◌∷◌, arith, ◌==◌, if◌then◌else◌, ==_iff, Bool-cases, drop,
}

-- A node that a search finds as it finds another one.
abbrev pub AgreeAt : Node → Node → List ℕ → Type 0
AgreeAt a b search = lookup a search ≡ lookup b search

-- The search leaves the key of a short node, and below the shared part only the left part matters.
abbrev Leaves : List ℕ → List ℕ → ℕ → ℕ → List ℕ → Type 0
Leaves r part n k left =
    (k1 : ℕ) × ((s : List ℕ) × ((drop n r ≡ (k1 ∷ s))
        × (((k1 == k) ≡ false)
            × (IsPath (k1 ∷ s)
                × ((other : List ℕ) (a child : Node)
                    → IsPath other
                    → r ≢ other
                    → ((j : ℕ) (t : List ℕ)
                        → IsPath (j ∷ t)
                        → (k1 ∷ s) ≢ (j ∷ t)
                        → AgreeAt a (short_node (k ∷ left) child) (j ∷ t))
                    → AgreeAt (short_node (first n r) a) (short_node part child) other)))))

leaving_at_once :
    (x y : ℕ) (r part : List ℕ) (k : ℕ) (left : List ℕ)
    → (x == y) ≡ false
    → (y ∷ part) ≡ (k ∷ left)
    → IsPath (x ∷ r)
    → Leaves (x ∷ r) (y ∷ part) 0 k left
leaving_at_once x y r part k left d e q =
    (x, (r, (refl, (subst (λ c. (x == c) ≡ false) (ap head e) d, (q, agree)))))
  where
    head : List ℕ → ℕ
    head [] = 0
    head (c ∷ cs) = c

    agree :
        (other : List ℕ) (a child : Node)
        → IsPath other
        → (x ∷ r) ≢ other
        → ((j : ℕ) (t : List ℕ)
            → IsPath (j ∷ t)
            → (x ∷ r) ≢ (j ∷ t)
            → AgreeAt a (short_node (k ∷ left) child) (j ∷ t))
        → AgreeAt (short_node [] a) (short_node (y ∷ part) child) other
    agree [] a child o n h = absurd o
    agree (j ∷ t) a child o n h =
        lookup-short_nil (j ∷ t) a
        ∙ h j t o n
        ∙ ap (λ p. lookup (short_node p child) (j ∷ t)) (sym e)

-- Two nodes under the same nibble agree where the nodes below do.
agree_below :
    (x y : ℕ) (r p q : List ℕ) (a b : Node) (other : List ℕ)
    → (x == y) ≡ true
    → x ≢ 16
    → ((t : List ℕ) → IsPath t → r ≢ t → AgreeAt (short_node p a) (short_node q b) t)
    → IsPath other
    → (x ∷ r) ≢ other
    → AgreeAt (short_node (x ∷ p) a) (short_node (y ∷ q) b) other
agree_below x y r p q a b [] e n h o d = absurd o
agree_below x y r p q a b (j ∷ t) e n h o d =
    lookup-short_cons x p j t a
    ∙ inside (Bool-cases (j == x))
    ∙ ap (λ c. if j == c then lookup (short_node q b) t else none) ((==_iff x y).0 e)
    ∙ sym (lookup-short_cons y q j t b)
  where
    inside :
        (((j == x) ≡ true) ⊎ ((j == x) ≡ false))
        → (if j == x then lookup (short_node p a) t else none)
          ≡ (if j == x then lookup (short_node q b) t else none)
    inside (inl f) = elim o [
      | inl (s, w) ↦ absurd (n (sym ((==_iff j x).0 f) ∙ s))
      | inr (s, w) ↦
          ap (λ v. if j == x then v else none)
            (h t w (λ g. d (ap (λ c. c ∷ r) (sym ((==_iff j x).0 f)) ∙ ap (λ u. j ∷ u) g)))
    ]
    inside (inr f) =
        ap (λ c. if c then lookup (short_node p a) t else none) f
        ∙ sym (ap (λ c. if c then lookup (short_node q b) t else none) f)

leaving_later :
    (x y : ℕ) (r part : List ℕ) (n k : ℕ) (left : List ℕ)
    → (x == y) ≡ true
    → x ≢ 16
    → Leaves r part n k left
    → Leaves (x ∷ r) (y ∷ part) (suc n) k left
leaving_later x y r part n k left e d (k1, (s, (f, (g, (q, agree))))) = (
  k1,
  (
    s,
    (
      f,
      (
        g,
        (
          q,
          λ other a child o ne h.
              agree_below x y r (first n r) part a child other e d (λ t w u. agree t a child w u h)
                o ne,
        ),
      ),
    ),
  ),
)

leaving_both :
    (x y : ℕ) (r part : List ℕ) (k : ℕ) (left : List ℕ)
    → (x == y) ≡ true
    → drop (prefix_len r part) part ≡ (k ∷ left)
    → IsPath (x ∷ r)
    → IsPart (y ∷ part)
    → (x ≢ 16) × (IsPath r × IsPart part)
leaving_both x y r part k left e h q p =
    let (m, (rest, f)) = not_empty part (prefix_len r part) h in
    let (d, i) = tail-IsPart y m part rest f p in
    elim q [ inl (s, z) ↦ absurd (d (sym ((==_iff x y).0 e) ∙ s)) | inr (c, w) ↦ (c, (w, i)) ]
  where
    not_empty :
        (xs : List ℕ) (n : ℕ)
        → drop n xs ≡ (k ∷ left)
        → (m : ℕ) × ((rest : List ℕ) × (xs ≡ (m ∷ rest)))
    not_empty [] zero g = absurd (ground (arith, g))
    not_empty [] (suc n) g = absurd (ground (arith, g))
    not_empty (c ∷ xs) n g = (c, (xs, refl))

pub leaving :
    (r part : List ℕ) (k : ℕ) (left : List ℕ)
    → drop (prefix_len r part) part ≡ (k ∷ left)
    → IsPath r
    → IsPart part
    → Leaves r part (prefix_len r part) k left
leaving [] part k left h q p = absurd q
leaving (x ∷ r) [] k left h q p = absurd (left_nothing (prefix_len (x ∷ r) []) h)
  where
    left_nothing : (n : ℕ) → drop n [] ≡ (k ∷ left) → ⊥
    left_nothing zero g = ground (arith, g)
    left_nothing (suc n) g = ground (arith, g)
leaving (x ∷ r) (y ∷ part) k left h q p = elim (Bool-cases (x == y)) [
  | inl e ↦
      let n = prefix_len-equal x y r part e in
      let h' = subst (λ n. drop n (y ∷ part) ≡ (k ∷ left)) n h in
      let (d, (w, i)) = leaving_both x y r part k left e h' q p in
      subst (λ n. Leaves (x ∷ r) (y ∷ part) n k left) (sym n)
        (leaving_later x y r part (prefix_len r part) k left e d (leaving r part k left h' w i))
  | inr e ↦
      let n = prefix_len-differ x y r part e in
      subst (λ n. Leaves (x ∷ r) (y ∷ part) n k left) (sym n)
        (leaving_at_once x y r part k left e (subst (λ n. drop n (y ∷ part) ≡ (k ∷ left)) n h) q)
]
