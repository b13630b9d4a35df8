-- ===== src/Trie/Others.antt =====
-- state/immutable-trie/trie.go: what an insertion leaves of the other keys.
use mainnet.Nibbles.{bytes_to_hex_nibbles}
use mainnet.Trie.{
  Node, nil, value_node, stored_node, short_node, full_node, prefix_len, first, begins_with, lookup,
  branch, insert, txn_lookup, txn_insert,
}
use mainnet.Trie.Prefixes.{
  begins_with-prefix, length-drop, begins_split, lookup-short, lookup-short_none,
  lookup-under_short,
}
use mainnet.Trie.Paths.{
  bytes_to_hex_nibbles-IsPath, bytes_to_hex_nibbles_injective, IsPath, IsInner, paths_equal,
  rest-IsPath, IsPart, inner_not_path,
}
use mainnet.Trie.Leaving.{AgreeAt, leaving}
use mainnet.Trie.Inserting.{
  Fits, insert_inside, insert_leaving, stored_child, left_or_not, lookup-insert, or_old-found,
}
use mainnet.Trie.Branching.{nil_other, full_other, branch-other, branch_agree}
use mainnet.Common.{
  ℕ, zero, suc, ◌+◌, ◌*◌, ◌≤◌, ◌<◌, ◌≡◌, sym, ap, ◌∙◌, subst, ◌≢◌, ◌⊎◌, inl, inr, true, List, [],
  ◌∷◌, ◌++◌, arith, Bool-cases, length, drop, All,
}

-- No value stands where a key has not ended.
abbrev pub IsTerminated : Node → Type 0
IsTerminated nil = Unit
IsTerminated (value_node buf) = ⊥
IsTerminated (stored_node hash child) = IsTerminated child
IsTerminated (short_node part child) = IsPath part ⊎ (IsInner part × IsTerminated child)
IsTerminated (full_node edges) = (i : ℕ) → i ≢ 16 → IsTerminated (edges i)

inside_agree :
    (part r other : List ℕ) (new child : Node)
    → begins_with r part ≡ true
    → IsPart part
    → IsPath r
    → IsPath other
    → r ≢ other
    → ((t : List ℕ)
        → IsInner part
        → IsPath (drop (length part) r)
        → IsPath t
        → drop (length part) r ≢ t
        → AgreeAt new child t)
    → AgreeAt (short_node part new) (short_node part child) other
inside_agree part r other new child b p q o n h = elim (Bool-cases (begins_with other part)) [
  | inr c ↦ lookup-short_none part other new c ∙ sym (lookup-short_none part other child c)
  | inl c ↦ elim p [
    | inl w ↦ absurd (n (paths_equal r part b w q ∙ sym (paths_equal other part c w o)))
    | inr i ↦
        let rest = λ (s : List ℕ). drop (length part) s in
        let r_split = begins_split r part b in
        let other_split = begins_split other part c in
        lookup-short part other new c
        ∙ h (rest other) i (rest-IsPath part (rest r) i (subst IsPath r_split q))
            (rest-IsPath part (rest other) i (subst IsPath other_split o))
            (λ e. n (r_split ∙ ap (λ s. part ++ s) e ∙ sym other_split))
        ∙ sym (lookup-short part other child c)
  ]
]

leaving_agree :
    (fuel : ℕ) (part r other value : List ℕ) (child : Node) (k : ℕ) (left : List ℕ)
    → 3 ≤ fuel
    → drop (prefix_len r part) part ≡ (k ∷ left)
    → IsPart part
    → IsPath r
    → IsPath other
    → r ≢ other
    → AgreeAt (insert (suc fuel) (short_node part child) r value) (short_node part child) other
leaving_agree zero part r other value child k left l e p q o n = absurd (omega (arith, l))
leaving_agree (suc fuel) part r other value child k left l e p q o n =
    let plen = prefix_len r part in
    let edges = branch k left child in
    let new = insert (suc fuel) (full_node edges) (drop plen r) value in
    let (k1, (s, (f, (g, (w, agree))))) = leaving r part k left e q p in
    ap (λ t. lookup t other) (insert_leaving (suc fuel) part r value child k left e)
    ∙ lookup-under_short (first plen r) new other
    ∙ agree other new child o n (λ j t u d.
      ap (λ a. lookup (insert (suc fuel) (full_node edges) a value) (j ∷ t)) f
      ∙ full_other fuel edges k1 s (j ∷ t) value w u d (λ t' c v v' d'.
        subst (λ m. AgreeAt (insert fuel m s value) m t') (sym (branch-other k left child k1 g))
          (nil_other fuel s t' value (omega (arith, l)) v v' d'))
      ∙ branch_agree k left child j t)

pub IsTerminated-IsPart :
    (part : List ℕ) (child : Node) → IsTerminated (short_node part child) → IsPart part
IsTerminated-IsPart part child (inl p) = inl p
IsTerminated-IsPart part child (inr (i, z)) = inr i

pub child_below :
    (part : List ℕ) (child : Node)
    → IsInner part
    → IsTerminated (short_node part child)
    → IsTerminated child
child_below part child i (inl p) = absurd (inner_not_path part i p)
child_below part child i (inr (j, z)) = z

-- A lookup of another key finds what it found before the insertion.
insert-AgreeAt :
    (fuel : ℕ) (t : Node) (n : ℕ) (r other value : List ℕ)
    → n + 2 * length r + 4 ≤ fuel
    → Fits t n
    → IsTerminated t
    → IsPath r
    → IsPath other
    → r ≢ other
    → AgreeAt (insert fuel t r value) t other
unfolding lookup
insert-AgreeAt zero t n r other value l f z q o d = absurd (omega (arith, l))
insert-AgreeAt (suc fuel) nil n r other value l f z q o d =
    nil_other (suc fuel) r other value (omega (arith, l)) q o d
insert-AgreeAt (suc fuel) (stored_node hash child) n r other value l f z q o d =
    let (e, (m, (b, f'))) = stored_child fuel hash child n r value f in
    ap (λ t. lookup t other) e
    ∙ insert-AgreeAt fuel child m r other value (omega (arith, l, b)) f' z q o d
insert-AgreeAt (suc fuel) (value_node buf) n r other value l f z q o d = absurd z
insert-AgreeAt (suc fuel) (short_node part child) n r other value l (m, (b, f)) z q o d =
    elim (left_or_not (drop (prefix_len r part) part)) [
      | inr (k, (left, e)) ↦
          leaving_agree fuel part r other value child k left (omega (arith, l, b)) e
            (IsTerminated-IsPart part child z) q o d
      | inl e ↦
          let (c, len) = begins_with-prefix r part e in
          let plen = prefix_len r part in
          let shorter = length-drop (length part) r in
          ap (λ t. lookup t other) (insert_inside fuel part r value child e)
          ∙ inside_agree part r other (insert fuel child (drop plen r) value) child c
              (IsTerminated-IsPart part child z) q o d
              (λ t i w u g.
                subst (λ j. AgreeAt (insert fuel child (drop j r) value) child t) (sym len)
                  (insert-AgreeAt fuel child m (drop (length part) r) t value
                    (omega (arith, l, b, shorter)) f (child_below part child i z) w u g))
    ]
insert-AgreeAt (suc fuel) (full_node edges) n [] other value l f z q o d = absurd q
insert-AgreeAt (suc fuel) (full_node edges) n (k ∷ s) other value l (m, (b, f)) z q o d =
    full_other fuel edges k s other value q o d (λ t c w u g.
      insert-AgreeAt fuel (edges k) m s t value (omega (arith, l, b)) (f k) (z k c) w u g)

-- An insertion leaves every other key alone, in a trie of hashed or other keys of bytes: a lookup of one finds
-- what it found before, a value or none. The trie has no missing nodes and no value where a key has not
-- ended, and the fuel is the bound of the trie, twice the nibbles of the key and 4 more.
pub txn_lookup-txn_insert_other :
    (fuel : ℕ) (root : Node) (n : ℕ) (key other value : List ℕ)
    → n + 2 * length (bytes_to_hex_nibbles key) + 4 ≤ fuel
    → Fits root n
    → IsTerminated root
    → All (λ b. b < 256) key
    → All (λ b. b < 256) other
    → key ≢ other
    → txn_lookup (txn_insert fuel root key value) other ≡ txn_lookup root other
unfolding txn_lookup txn_insert
txn_lookup-txn_insert_other fuel root n key other value l f z q o d =
    let path = bytes_to_hex_nibbles key in
    let path' = bytes_to_hex_nibbles other in
    let new = insert fuel root path value in
    ap (λ t. lookup t path')
      (or_old-found root new path value (lookup-insert fuel root n path value l f))
    ∙ insert-AgreeAt fuel root n path path' value l f z (bytes_to_hex_nibbles-IsPath key q)
        (bytes_to_hex_nibbles-IsPath other o) (λ e. d (bytes_to_hex_nibbles_injective key other e))
