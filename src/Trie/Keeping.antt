-- ===== src/Trie/Keeping.antt =====
-- state/immutable-trie/trie.go: an insertion keeps the trie well-formed.
use mainnet.Nibbles.{bytes_to_hex_nibbles}
use mainnet.Trie.{
  Node, nil, value_node, stored_node, short_node, full_node, set_edge, prefix_len, first, branch,
  under, insert, txn_insert,
}
use mainnet.Trie.Prefixes.{begins_with-prefix, begins_split}
use mainnet.Trie.Paths.{IsPath, IsInner, rest-IsPath, bytes_to_hex_nibbles-IsPath}
use mainnet.Trie.Leaving.{leaving}
use mainnet.Trie.Inserting.{
  Fits, insert_inside, insert_leaving, stored_child, left_or_not, or_old-found, lookup-insert,
}
use mainnet.Trie.Growing.{length-first-drop, insert-Fits}
use mainnet.Trie.Branching.{branch-other}
use mainnet.Trie.Others.{IsTerminated, IsTerminated-IsPart, child_below}
use mainnet.Common.{
  ℕ, zero, suc, ◌+◌, ◌*◌, ◌≤◌, ◌<◌, ◌≡◌, sym, ap, ◌∙◌, subst, ◌≢◌, ◌⊎◌, inl, inr, List, [], ◌∷◌,
  arith, ◌==◌, if◌then◌else◌, ==_iff, Bool-cases, length, drop, All, if_both,
}

-- Of a path, what stands before something else has no terminator.
first-IsInner :
    (n : ℕ) (r : List ℕ) (k : ℕ) (s : List ℕ) → IsPath r → drop n r ≡ (k ∷ s) → IsInner (first n r)
first-IsInner zero r k s q e = tt
first-IsInner (suc n) [] k s q e = tt
first-IsInner (suc n) (x ∷ r) k s (inl (a, b)) e = absurd (nothing n (ap (drop n) (sym b) ∙ e))
  where
    nothing : (n : ℕ) → drop n [] ≡ (k ∷ s) → ⊥
    nothing zero g = ground (arith, g)
    nothing (suc n) g = ground (arith, g)
first-IsInner (suc n) (x ∷ r) k s (inr (d, q)) e = (d, first-IsInner n r k s q e)

-- The first nibble of a short node ends its key, or a short node with the others is as good.
short_tail :
    (y : ℕ) (part : List ℕ) (child : Node)
    → IsTerminated (short_node (y ∷ part) child)
    → ((y ≡ 16) × (part ≡ [])) ⊎ ((y ≢ 16) × IsTerminated (short_node part child))
short_tail y part child (inl (inl p)) = inl p
short_tail y part child (inl (inr (d, p))) = inr (d, inl p)
short_tail y part child (inr ((d, i), z)) = inr (d, inr (i, z))

short_left :
    (n : ℕ) (part : List ℕ) (child : Node) (k : ℕ) (left : List ℕ)
    → drop n part ≡ (k ∷ left)
    → IsTerminated (short_node part child)
    → k ≢ 16
    → IsTerminated (short_node left child)
short_left zero part child k left e z d =
    elim (short_tail k left child (subst (λ p. IsTerminated (short_node p child)) e z)) [
      | inl (a, b) ↦ absurd (d a)
      | inr (c, w) ↦ w
    ]
short_left (suc n) [] child k left e z d = absurd (ground (arith, e))
short_left (suc n) (y ∷ part) child k left e z d = elim (short_tail y part child z) [
  | inl (a, b) ↦ absurd (nothing n (ap (drop n) (sym b) ∙ e))
  | inr (c, w) ↦ short_left n part child k left e w d
]
  where
    nothing : (n : ℕ) → drop n [] ≡ (k ∷ left) → ⊥
    nothing zero g = ground (arith, g)
    nothing (suc n) g = ground (arith, g)

nil_IsTerminated :
    (fuel : ℕ) (r value : List ℕ) → 2 ≤ fuel → IsPath r → IsTerminated (insert fuel nil r value)
unfolding insert
nil_IsTerminated zero r value l q = absurd (omega (arith, l))
nil_IsTerminated (suc fuel) [] value l q = absurd q
nil_IsTerminated (suc fuel) (k ∷ r) value l q = inl q

tail-IsPath : (k : ℕ) (s : List ℕ) → IsPath (k ∷ s) → k ≢ 16 → IsPath s
tail-IsPath k s (inl (e, z)) d = absurd (d e)
tail-IsPath k s (inr (c, q)) d = q

-- A full node whose new edge is as good as the others.
edge_IsTerminated :
    (edges : ℕ → Node) (k : ℕ) (new : Node)
    → ((i : ℕ) → i ≢ 16 → IsTerminated (edges i))
    → (k ≢ 16 → IsTerminated new)
    → IsTerminated (full_node (set_edge edges k new))
edge_IsTerminated edges k new z w = λ i d. elim (Bool-cases (i == k)) [
  | inl e ↦
      subst (λ b. IsTerminated (if b then new else edges i)) (sym e)
        (w (λ h. d ((==_iff i k).0 e ∙ h)))
  | inr e ↦ subst (λ b. IsTerminated (if b then new else edges i)) (sym e) (z i d)
]

under-IsTerminated : (p : List ℕ) (t : Node) → IsInner p → IsTerminated t → IsTerminated (under p t)
under-IsTerminated [] t i z = z
under-IsTerminated (x ∷ p) t i z = inr (i, z)

branch-IsTerminated :
    (k : ℕ) (left : List ℕ) (child : Node)
    → (k ≢ 16 → IsTerminated (short_node left child))
    → (i : ℕ) → i ≢ 16
    → IsTerminated (branch k left child i)
branch-IsTerminated k left child z i d = elim (Bool-cases (i == k)) [
  | inr e ↦ subst IsTerminated (sym (branch-other k left child i e)) tt
  | inl e ↦ at_edge left (z (λ h. d ((==_iff i k).0 e ∙ h)))
]
  where
    at_edge :
        (left : List ℕ)
        → IsTerminated (short_node left child)
        → IsTerminated (branch k left child i)
    at_edge [] (inl p) = absurd p
    at_edge [] (inr (j, w)) = if_both IsTerminated (i == k) child nil w tt
    at_edge (x ∷ rest) w = if_both IsTerminated (i == k) (short_node (x ∷ rest) child) nil w tt

leaving_IsTerminated :
    (fuel : ℕ) (part r value : List ℕ) (child : Node) (k : ℕ) (left : List ℕ)
    → 3 ≤ fuel
    → drop (prefix_len r part) part ≡ (k ∷ left)
    → IsTerminated (short_node part child)
    → IsPath r
    → IsTerminated (insert (suc fuel) (short_node part child) r value)
unfolding insert
leaving_IsTerminated zero part r value child k left l e z q = absurd (omega (arith, l))
leaving_IsTerminated (suc fuel) part r value child k left l e z q =
    let plen = prefix_len r part in
    let edges = branch k left child in
    let (k1, (s, (rest, (g, (w, agree))))) =
      leaving r part k left e q (IsTerminated-IsPart part child z) in
    let new = insert fuel nil s value in
    let node = full_node (set_edge edges k1 new) in
    let at =
      insert_leaving (suc fuel) part r value child k left e
      ∙ ap (λ a. under (first plen r) (insert (suc fuel) (full_node edges) a value)) rest
      ∙ ap (λ t. under (first plen r) (full_node (set_edge edges k1 (insert fuel t s value))))
          (branch-other k left child k1 g) in
    subst IsTerminated (sym at) (
      under-IsTerminated (first plen r) node (first-IsInner plen r k1 s q rest) (
        edge_IsTerminated edges k1 new
          (branch-IsTerminated k left child (short_left plen part child k left e z))
          (λ d. nil_IsTerminated fuel s value (omega (arith, l)) (tail-IsPath k1 s w d))))

insert-IsTerminated :
    (fuel : ℕ) (t : Node) (n : ℕ) (r value : List ℕ)
    → n + 2 * length r + 4 ≤ fuel
    → Fits t n
    → IsTerminated t
    → IsPath r
    → IsTerminated (insert fuel t r value)
unfolding insert
insert-IsTerminated zero t n r value l f z q = absurd (omega (arith, l))
insert-IsTerminated (suc fuel) nil n r value l f z q =
    nil_IsTerminated (suc fuel) r value (omega (arith, l)) q
insert-IsTerminated (suc fuel) (stored_node hash child) n r value l f z q =
    let (e, (m, (b, f'))) = stored_child fuel hash child n r value f in
    subst IsTerminated (sym e)
      (insert-IsTerminated fuel child m r value (omega (arith, l, b)) f' z q)
insert-IsTerminated (suc fuel) (value_node buf) n r value l f z q = absurd z
insert-IsTerminated (suc fuel) (full_node edges) n [] value l f z q = absurd q
insert-IsTerminated (suc fuel) (full_node edges) n (k ∷ s) value l (m, (b, f)) z q =
    edge_IsTerminated edges k (insert fuel (edges k) s value) z (λ d.
      insert-IsTerminated fuel (edges k) m s value (omega (arith, l, b)) (f k) (z k d)
        (tail-IsPath k s q d))
insert-IsTerminated (suc fuel) (short_node part child) n r value l (m, (b, f)) z q =
    let plen = prefix_len r part in
    elim (left_or_not (drop plen part)) [
      | inr (k, (left, e)) ↦
          leaving_IsTerminated fuel part r value child k left (omega (arith, l, b)) e z q
      | inl e ↦
          let (c, len) = begins_with-prefix r part e in
          let rest = drop plen r in
          subst IsTerminated (sym (insert_inside fuel part r value child e))
            (elim (IsTerminated-IsPart part child z) [
              | inl p ↦ inl p
              | inr i ↦ inr (
                i,
                insert-IsTerminated fuel child m rest value
                    (omega (arith, l, b, length-first-drop plen r)) f (child_below part child i z)
                    (subst (λ j. IsPath (drop j r)) (sym len)
                      (rest-IsPath part (drop (length part) r) i
                        (subst IsPath (begins_split r part c) q))),
              )
            ])
    ]

-- An insertion keeps a trie fit for the next one: no value comes to stand where a key has not ended, no node is
-- missing, and the bound of the trie grows by at most three times the nibbles of the key and 3. The fuel is the
-- bound of the trie, twice the nibbles of the key and 4 more.
pub txn_insert-IsTerminated :
    (fuel : ℕ) (root : Node) (n : ℕ) (key value : List ℕ)
    → n + 2 * length (bytes_to_hex_nibbles key) + 4 ≤ fuel
    → Fits root n
    → IsTerminated root
    → All (λ b. b < 256) key
    → IsTerminated (txn_insert fuel root key value)
      × Fits (txn_insert fuel root key value) (n + 3 * length (bytes_to_hex_nibbles key) + 3)
unfolding txn_insert
txn_insert-IsTerminated fuel root n key value l f z q =
    let path = bytes_to_hex_nibbles key in
    let new = insert fuel root path value in
    let same_node = or_old-found root new path value (lookup-insert fuel root n path value l f) in
    (
      subst IsTerminated (sym same_node)
          (insert-IsTerminated fuel root n path value l f z (bytes_to_hex_nibbles-IsPath key q)),
      subst (λ t. Fits t (n + 3 * length path + 3)) (sym same_node)
          (insert-Fits fuel root n path value l f),
    )
