-- ===== src/Trie/Growing.antt =====
-- state/immutable-trie/trie.go: how much an insertion adds to a trie.
use mainnet.Trie.{
  Node, nil, value_node, stored_node, short_node, full_node, set_edge, prefix_len, first, branch,
  under, insert,
}
use mainnet.Trie.Prefixes.{begins_with-prefix}
use mainnet.Trie.Inserting.{
  Fits, insert_inside, insert_leaving, branch-Fits, stored_child, left_or_not,
}
use mainnet.Common.{
  ℕ, zero, suc, ◌+◌, ◌*◌, ◌≤◌, ◌≡◌, sym, ap, subst, inl, inr, List, [], ◌∷◌, arith, ◌==◌, length,
  drop, if_both,
}

Fits_more : (t : Node) (n m : ℕ) → n ≤ m → Fits t n → Fits t m
Fits_more nil n m l f = tt
Fits_more (value_node buf) n m l f = tt
Fits_more (stored_node hash nil) n m l f = f
Fits_more (stored_node hash (value_node buf)) n m l (k, (b, f)) = (k, (omega (arith, l, b), f))
Fits_more (stored_node hash (stored_node other t)) n m l (k, (b, f)) = (k, (omega (arith, l, b), f))
Fits_more (stored_node hash (short_node part t)) n m l (k, (b, f)) = (k, (omega (arith, l, b), f))
Fits_more (stored_node hash (full_node edges)) n m l (k, (b, f)) = (k, (omega (arith, l, b), f))
Fits_more (short_node part t) n m l (k, (b, f)) = (k, (omega (arith, l, b), f))
Fits_more (full_node edges) n m l (k, (b, f)) = (k, (omega (arith, l, b), f))

pub length-first-drop : (n : ℕ) (xs : List ℕ) → length (first n xs) + length (drop n xs) ≡ length xs
length-first-drop zero xs = omega arith
length-first-drop (suc n) [] = omega arith
length-first-drop (suc n) (x ∷ xs) = omega (arith, length-first-drop n xs)

length-left :
    (n : ℕ) (xs : List ℕ) (k : ℕ) (left : List ℕ)
    → drop n xs ≡ (k ∷ left)
    → n + length left + 1 ≡ length xs
length-left zero xs k left e = omega (arith, ap length e)
length-left (suc n) [] k left e = absurd (ground (arith, e))
length-left (suc n) (x ∷ xs) k left e = omega (arith, length-left n xs k left e)

under_Fits : (p : List ℕ) (t : Node) (n : ℕ) → Fits t n → Fits (under p t) (n + 3 * length p + 1)
under_Fits [] t n f = Fits_more t n (n + 3 * 0 + 1) (omega arith) f
under_Fits (x ∷ p) t n f = (n, (omega arith, f))

edge_Fits :
    (edges : ℕ → Node) (k : ℕ) (new : Node) (n : ℕ)
    → ((i : ℕ) → Fits (edges i) n)
    → Fits new n
    → Fits (full_node (set_edge edges k new)) (n + 2)
edge_Fits edges k new n f g =
    (n, (omega arith, λ i. if_both (λ t. Fits t n) (i == k) new (edges i) g (f i)))

nil_Fits :
    (fuel : ℕ) (r value : List ℕ) → 2 ≤ fuel → Fits (insert fuel nil r value) (3 * length r + 2)
unfolding insert
nil_Fits zero r value l = absurd (omega (arith, l))
nil_Fits (suc zero) r value l = absurd (omega (arith, l))
nil_Fits (suc (suc fuel)) [] value l = tt
nil_Fits (suc (suc fuel)) (k ∷ r) value l = (0, (omega arith, tt))

-- An insertion adds three times the nibbles of the key and 3 to the bound of a node.
pub insert-Fits :
    (fuel : ℕ) (t : Node) (n : ℕ) (r value : List ℕ)
    → n + 2 * length r + 4 ≤ fuel
    → Fits t n
    → Fits (insert fuel t r value) (n + 3 * length r + 3)
unfolding insert
insert-Fits zero t n r value l f = absurd (omega (arith, l))
insert-Fits (suc fuel) nil n r value l f =
    Fits_more (insert (suc fuel) nil r value) (3 * length r + 2) (n + 3 * length r + 3)
      (omega arith) (nil_Fits (suc fuel) r value (omega (arith, l)))
insert-Fits (suc fuel) (stored_node hash child) n r value l f =
    let (e, (m, (b, f'))) = stored_child fuel hash child n r value f in
    subst (λ t. Fits t (n + 3 * length r + 3)) (sym e)
      (Fits_more (insert fuel child r value) (m + 3 * length r + 3) (n + 3 * length r + 3)
        (omega (arith, b)) (insert-Fits fuel child m r value (omega (arith, l, b)) f'))
insert-Fits (suc fuel) (value_node buf) n [] value l f = tt
insert-Fits (suc zero) (value_node buf) n (k ∷ s) value l f = absurd (omega (arith, l))
insert-Fits (suc (suc fuel)) (value_node buf) n (k ∷ s) value l f =
    let edges = set_edge (λ i. nil) 16 (value_node buf) in
    let each = λ (i : ℕ). if_both (λ t. Fits t 0) (i == 16) (value_node buf) nil tt tt in
    let bound = 0 + 3 * length s + 3 in
    let new = insert fuel (edges k) s value in
    Fits_more (full_node (set_edge edges k new)) (bound + 2) (n + 3 * length (k ∷ s) + 3)
      (omega arith)
      (edge_Fits edges k new bound (λ i. Fits_more (edges i) 0 bound (omega arith) (each i))
        (insert-Fits fuel (edges k) 0 s value (omega (arith, l)) (each k)))
insert-Fits (suc fuel) (full_node edges) n [] value l (m, (b, f)) =
    let bound = m + 3 * 0 + 3 in
    let new = insert fuel (edges 16) [] value in
    Fits_more (full_node (set_edge edges 16 new)) (bound + 2) (n + 3 * 0 + 3) (omega (arith, b)) (
      edge_Fits edges 16 new bound (λ i. Fits_more (edges i) m bound (omega arith) (f i))
        (insert-Fits fuel (edges 16) m [] value (omega (arith, l, b)) (f 16)))
insert-Fits (suc fuel) (full_node edges) n (k ∷ s) value l (m, (b, f)) =
    let bound = m + 3 * length s + 3 in
    let new = insert fuel (edges k) s value in
    Fits_more (full_node (set_edge edges k new)) (bound + 2) (n + 3 * length (k ∷ s) + 3)
      (omega (arith, b))
      (edge_Fits edges k new bound (λ i. Fits_more (edges i) m bound (omega arith) (f i))
        (insert-Fits fuel (edges k) m s value (omega (arith, l, b)) (f k)))
insert-Fits (suc fuel) (short_node part child) n r value l (m, (b, f)) =
    let plen = prefix_len r part in
    let rest = drop plen r in
    let parts = length-first-drop plen r in
    let target = n + 3 * length r + 3 in
    elim (left_or_not (drop plen part)) [
      | inl e ↦
          let new = insert fuel child rest value in
          let (c, len) = begins_with-prefix r part e in
          let bound = m + 3 * length rest + 3 in
          subst (λ t. Fits t target) (sym (insert_inside fuel part r value child e))
            (
              bound,
              (
                omega (arith, b, parts),
                insert-Fits fuel child m rest value (omega (arith, l, b, parts)) f,
              ),
            )
      | inr (k, (left, e)) ↦
          let (n', (c, g)) = branch-Fits k left child m f in
          let node = full_node (branch k left child) in
          let bound = n' + 3 * length rest + 3 in
          let new = insert fuel node rest value in
          let longer = length-left plen part k left e in
          subst (λ t. Fits t target) (sym (insert_leaving fuel part r value child k left e))
            (Fits_more (under (first plen r) new) (bound + 3 * length (first plen r) + 1) target
              (omega (arith, b, c, parts, longer))
              (under_Fits (first plen r) new bound
                (insert-Fits fuel node n' rest value (omega (arith, l, b, c, parts, longer)) g)))
    ]
