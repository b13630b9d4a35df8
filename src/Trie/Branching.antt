-- ===== src/Trie/Branching.antt =====
-- state/immutable-trie/trie.go: an insertion into an empty node, a full node and a branch, for other keys.
use mainnet.Trie.{Node, nil, value_node, short_node, full_node, begins_with, lookup, branch, insert}
use mainnet.Trie.Prefixes.{lookup-short_none, lookup-short_cons, lookup-short_nil}
use mainnet.Trie.Paths.{IsPath, paths_equal}
use mainnet.Trie.Leaving.{AgreeAt}
use mainnet.Common.{
  ℕ, zero, suc, ◌≤◌, ◌≡◌, refl, sym, ap, ◌∙◌, ◌≢◌, ◌⊎◌, inl, inr, Bool, true, false, none, List, [],
  ◌∷◌, arith, ◌==◌, if◌then◌else◌, ==_iff, Bool-cases,
}

pub nil_other :
    (fuel : ℕ) (r other value : List ℕ)
    → 2 ≤ fuel
    → IsPath r
    → IsPath other
    → r ≢ other
    → AgreeAt (insert fuel nil r value) nil other
unfolding insert lookup
nil_other zero r other value l q o n = absurd (omega (arith, l))
nil_other (suc zero) r other value l q o n = absurd (omega (arith, l))
nil_other (suc (suc fuel)) [] other value l q o n = absurd q
nil_other (suc (suc fuel)) (k ∷ r) other value l q o n =
    elim (Bool-cases (begins_with other (k ∷ r))) [
      | inl b ↦ absurd (n (sym (paths_equal other (k ∷ r) b q o)))
      | inr b ↦ lookup-short_none (k ∷ r) other (value_node value) b
    ]

pub full_other :
    (fuel : ℕ) (edges : ℕ → Node) (k : ℕ) (s other value : List ℕ)
    → IsPath (k ∷ s)
    → IsPath other
    → (k ∷ s) ≢ other
    → ((t : List ℕ)
        → k ≢ 16
        → IsPath s
        → IsPath t
        → s ≢ t
        → AgreeAt (insert fuel (edges k) s value) (edges k) t)
    → AgreeAt (insert (suc fuel) (full_node edges) (k ∷ s) value) (full_node edges) other
unfolding insert lookup
full_other fuel edges k s [] value q o n h = absurd o
full_other fuel edges k s (j ∷ t) value q o n h = below (Bool-cases (j == k))
  where
    new : Node
    new = insert fuel (edges k) s value

    paths : j ≡ k → (k ≢ 16) × (IsPath s × IsPath t)
    paths e = both q o
      where
        differ : s ≢ t
        differ f = n (ap (λ c. c ∷ s) (sym e) ∙ ap (λ u. j ∷ u) f)

        both :
            (((k ≡ 16) × (s ≡ [])) ⊎ ((k ≢ 16) × IsPath s))
            → (((j ≡ 16) × (t ≡ [])) ⊎ ((j ≢ 16) × IsPath t))
            → (k ≢ 16) × (IsPath s × IsPath t)
        both (inl (a, b)) (inl (c, d)) = absurd (differ (b ∙ sym d))
        both (inl (a, b)) (inr (c, d)) = absurd (c (e ∙ a))
        both (inr (a, b)) (inl (c, d)) = absurd (a (sym e ∙ c))
        both (inr (a, b)) (inr (c, d)) = (a, (b, d))

    below :
        (((j == k) ≡ true) ⊎ ((j == k) ≡ false))
        → lookup (if j == k then new else edges j) t ≡ lookup (edges j) t
    below (inl f) =
        let e = (==_iff j k).0 f in
        let (d, (w, u)) = paths e in
        ap (λ c. lookup (if c then new else edges j) t) f
        ∙ h t d w u (λ g. n (ap (λ c. c ∷ s) (sym e) ∙ ap (λ u. j ∷ u) g))
        ∙ ap (λ i. lookup (edges i) t) (sym e)
    below (inr f) = ap (λ c. lookup (if c then new else edges j) t) f

pub branch-other :
    (k : ℕ) (left : List ℕ) (child : Node) (i : ℕ) → (i == k) ≡ false → branch k left child i ≡ nil
branch-other k [] child i e = ap (λ c. if c then child else nil) e
branch-other k (x ∷ rest) child i e = ap (λ c. if c then short_node (x ∷ rest) child else nil) e

-- The branch finds what the short node found.
pub branch_agree :
    (k : ℕ) (left : List ℕ) (child : Node) (j : ℕ) (t : List ℕ)
    → AgreeAt (full_node (branch k left child)) (short_node (k ∷ left) child) (j ∷ t)
unfolding lookup
branch_agree k [] child j t = edge (j == k) ∙ sym (lookup-short_cons k [] j t child)
  where
    edge :
        (b : Bool)
        → lookup (if b then child else nil) t ≡ (if b then lookup (short_node [] child) t else none)
    edge true = sym (lookup-short_nil t child)
    edge false = refl
branch_agree k (x ∷ rest) child j t = edge (j == k) ∙ sym (lookup-short_cons k (x ∷ rest) j t child)
  where
    edge :
        (b : Bool)
        → lookup (if b then short_node (x ∷ rest) child else nil) t
          ≡ (if b then lookup (short_node (x ∷ rest) child) t else none)
    edge true = refl
    edge false = refl
