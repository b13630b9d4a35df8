-- ===== src/Trie/Inserting.antt =====
-- state/immutable-trie/trie.go: what is inserted under a key is what a lookup of the key finds.
use mainnet.Nibbles.{bytes_to_hex_nibbles}
use mainnet.Trie.{
  Node, nil, value_node, stored_node, short_node, full_node, set_edge, prefix_len, first, lookup,
  branch, under, insert, or_old, txn_lookup, txn_insert,
}
use mainnet.Trie.Prefixes.{
  begins_with-prefix, prefix_len-bound, length-drop, begins_with-same, drop-all, lookup-short,
  lookup-under,
}
use mainnet.Common.{
  ℕ, zero, suc, ◌+◌, ◌*◌, ◌≤◌, ◌≡◌, refl, sym, ap, ◌∙◌, subst, ◌⊎◌, inl, inr, some, List, [], ◌∷◌,
  arith, ◌==◌, if◌then◌else◌, ==_refl, length, drop, if_both,
}

-- Fuel for an insertion: levels, with the nibbles of the short nodes. No stored node is missing.
abbrev pub Fits : Node → ℕ → Type 0
Fits nil n = Unit
Fits (value_node buf) n = Unit
Fits (stored_node hash nil) n = ⊥
Fits (stored_node hash child) n = (m : ℕ) × ((m + 1 ≤ n) × Fits child m)
Fits (short_node part child) n = (m : ℕ) × ((m + 3 * length part + 1 ≤ n) × Fits child m)
Fits (full_node edges) n = (m : ℕ) × ((m + 2 ≤ n) × ((i : ℕ) → Fits (edges i) m))

lookup-edge :
    (edges : ℕ → Node) (k : ℕ) (n : Node) (search : List ℕ)
    → lookup (full_node (set_edge edges k n)) (k ∷ search) ≡ lookup n search
unfolding lookup
lookup-edge edges k n search = ap (λ b. lookup (if b then n else edges k) search) (==_refl k)

insert-nil :
    (fuel : ℕ) (search value : List ℕ)
    → 2 ≤ fuel
    → lookup (insert fuel nil search value) search ≡ some value
unfolding insert lookup
insert-nil zero search value l = absurd (omega (arith, l))
insert-nil (suc fuel) [] value l = refl
insert-nil (suc zero) (k ∷ search) value l = absurd (omega (arith, l))
insert-nil (suc (suc fuel)) (k ∷ search) value l =
    lookup-short (k ∷ search) (k ∷ search) (value_node value) (begins_with-same (k ∷ search))
    ∙ ap (lookup (value_node value)) (drop-all (k ∷ search))

-- An insertion below a full node goes to one of its edges.
full_edge :
    (fuel : ℕ) (edges : ℕ → Node) (k : ℕ) (search value : List ℕ)
    → lookup (insert fuel (edges k) search value) search ≡ some value
    → lookup (insert (suc fuel) (full_node edges) (k ∷ search) value) (k ∷ search) ≡ some value
unfolding insert
full_edge fuel edges k search value h =
    lookup-edge edges k (insert fuel (edges k) search value) search ∙ h

full_value :
    (fuel : ℕ) (edges : ℕ → Node) (value : List ℕ)
    → lookup (insert fuel (edges 16) [] value) [] ≡ some value
    → lookup (insert (suc fuel) (full_node edges) [] value) [] ≡ some value
unfolding insert lookup
full_value fuel edges value h = h

pub insert_inside :
    (fuel : ℕ) (part search value : List ℕ) (child : Node)
    → drop (prefix_len search part) part ≡ []
    → insert (suc fuel) (short_node part child) search value
      ≡ short_node part (insert fuel child (drop (prefix_len search part) search) value)
unfolding insert
insert_inside fuel part search value child e =
    ap
      (λ d. elim d [
        | [] ↦ short_node part (insert fuel child (drop (prefix_len search part) search) value)
        | k ∷ left ↦ under (first (prefix_len search part) search) (
            insert fuel (full_node (branch k left child)) (drop (prefix_len search part) search)
              value)
      ])
      e

pub insert_leaving :
    (fuel : ℕ) (part search value : List ℕ) (child : Node) (k : ℕ) (left : List ℕ)
    → drop (prefix_len search part) part ≡ (k ∷ left)
    → insert (suc fuel) (short_node part child) search value
      ≡ under (first (prefix_len search part) search) (
          insert fuel
            (full_node (branch k left child))
            (drop (prefix_len search part) search)
            value)
unfolding insert
insert_leaving fuel part search value child k left e =
    ap
      (λ d. elim d [
        | [] ↦ short_node part (insert fuel child (drop (prefix_len search part) search) value)
        | k ∷ left ↦ under (first (prefix_len search part) search) (
            insert fuel (full_node (branch k left child)) (drop (prefix_len search part) search)
              value)
      ])
      e

short_inside :
    (fuel : ℕ) (part search value : List ℕ) (child : Node)
    → drop (prefix_len search part) part ≡ []
    → lookup
        (insert fuel child (drop (prefix_len search part) search) value)
        (drop (prefix_len search part) search)
      ≡ some value
    → lookup (insert (suc fuel) (short_node part child) search value) search ≡ some value
short_inside fuel part search value child e h =
    let (b, l) = begins_with-prefix search part e in
    let new = insert fuel child (drop (prefix_len search part) search) value in
    ap (λ t. lookup t search) (insert_inside fuel part search value child e)
    ∙ lookup-short part search new b
    ∙ ap (λ n. lookup new (drop n search)) (sym l)
    ∙ h

short_leaving :
    (fuel : ℕ) (part search value : List ℕ) (child : Node) (k : ℕ) (left : List ℕ)
    → drop (prefix_len search part) part ≡ (k ∷ left)
    → lookup
        (insert fuel (full_node (branch k left child)) (drop (prefix_len search part) search) value)
        (drop (prefix_len search part) search)
      ≡ some value
    → lookup (insert (suc fuel) (short_node part child) search value) search ≡ some value
short_leaving fuel part search value child k left e h =
    let plen = prefix_len search part in
    ap (λ t. lookup t search) (insert_leaving fuel part search value child k left e)
    ∙ lookup-under search plen
        (insert fuel (full_node (branch k left child)) (drop plen search) value)
        (prefix_len-bound search part)
    ∙ h

-- A full node takes an insertion that each of its edges takes.
full_step :
    (fuel : ℕ) (edges : ℕ → Node) (search value : List ℕ)
    → ((i : ℕ) (s : List ℕ)
        → length s ≤ length search
        → lookup (insert fuel (edges i) s value) s ≡ some value)
    → lookup (insert (suc fuel) (full_node edges) search value) search ≡ some value
full_step fuel edges [] value h = full_value fuel edges value (h 16 [] (omega arith))
full_step fuel edges (k ∷ search) value h =
    full_edge fuel edges k search value (h k search (omega arith))

pub stored_child :
    (fuel : ℕ) (hash : List ℕ) (child : Node) (n : ℕ) (search value : List ℕ)
    → Fits (stored_node hash child) n
    → (insert (suc fuel) (stored_node hash child) search value ≡ insert fuel child search value)
      × ((m : ℕ) × ((m + 1 ≤ n) × Fits child m))
unfolding insert
stored_child fuel hash nil n search value f = absurd f
stored_child fuel hash (value_node buf) n search value f = (refl, f)
stored_child fuel hash (stored_node other child) n search value f = (refl, f)
stored_child fuel hash (short_node part child) n search value f = (refl, f)
stored_child fuel hash (full_node edges) n search value f = (refl, f)

-- The node for the branching takes no more fuel than the short node.
pub branch-Fits :
    (k : ℕ) (left : List ℕ) (child : Node) (m : ℕ)
    → Fits child m
    → (n : ℕ) × ((n ≤ m + 3 * length left + 3) × Fits (full_node (branch k left child)) n)
branch-Fits k [] child m f =
    (m + 2, (omega arith, (m, (omega arith, λ i. if_both (λ t. Fits t m) (i == k) child nil f tt))))
branch-Fits k (x ∷ rest) child m f =
    let bound = m + 3 * length (x ∷ rest) + 1 in
    (
      bound + 2,
      (
        omega arith,
        (
          bound,
          (
            omega arith,
            λ i.
                if_both (λ t. Fits t bound) (i == k) (short_node (x ∷ rest) child) nil
                  (m, (omega arith, f)) tt,
          ),
        ),
      ),
    )

pub left_or_not : (xs : List ℕ) → (xs ≡ []) ⊎ ((k : ℕ) × ((left : List ℕ) × (xs ≡ (k ∷ left))))
left_or_not [] = inl refl
left_or_not (k ∷ left) = inr (k, (left, refl))

-- What the lookup of a key finds after an insertion with enough fuel is the inserted value.
pub lookup-insert :
    (fuel : ℕ) (t : Node) (n : ℕ) (search value : List ℕ)
    → n + 2 * length search + 4 ≤ fuel
    → Fits t n
    → lookup (insert fuel t search value) search ≡ some value
unfolding insert lookup
lookup-insert zero t n search value l f = absurd (omega (arith, l))
lookup-insert (suc fuel) nil n search value l f =
    insert-nil (suc fuel) search value (omega (arith, l))
lookup-insert (suc fuel) (stored_node hash child) n search value l f =
    let (e, (m, (b, f'))) = stored_child fuel hash child n search value f in
    ap (λ t. lookup t search) e ∙ lookup-insert fuel child m search value (omega (arith, l, b)) f'
lookup-insert (suc fuel) (value_node buf) n [] value l f = refl
lookup-insert (suc zero) (value_node buf) n (k ∷ search) value l f = absurd (omega (arith, l))
lookup-insert (suc (suc fuel)) (value_node buf) n (k ∷ search) value l f =
    full_edge fuel (set_edge (λ i. nil) 16 (value_node buf)) k search value (
      if_both (λ t. lookup (insert fuel t search value) search ≡ some value) (k == 16)
        (value_node buf) nil
        (lookup-insert fuel (value_node buf) 0 search value (omega (arith, l)) tt)
        (insert-nil fuel search value (omega (arith, l))))
lookup-insert (suc fuel) (short_node part child) n search value l (m, (b, f)) =
    let plen = prefix_len search part in
    let shorter = length-drop plen search in
    elim (left_or_not (drop plen part)) [
      | inl e ↦
          short_inside fuel part search value child e
            (lookup-insert fuel child m (drop plen search) value (omega (arith, l, b, shorter)) f)
      | inr (k, (left, e)) ↦ short_leaving fuel part search value child k left e (
          let (r, (c, g)) = branch-Fits k left child m f in
          let fewer = subst (λ d. length d ≤ length part) e (length-drop plen part) in
          lookup-insert fuel (full_node (branch k left child)) r (drop plen search) value
            (omega (arith, l, b, c, fewer, shorter)) g)
    ]
lookup-insert (suc fuel) (full_node edges) n search value l (m, (b, f)) =
    full_step fuel edges search value
      (λ i s c. lookup-insert fuel (edges i) m s value (omega (arith, l, b, c)) (f i))

pub or_old-found :
    (root n : Node) (key value : List ℕ) → lookup n key ≡ some value → or_old root n ≡ n
unfolding lookup
or_old-found root nil key value h = ground (arith, h)
or_old-found root (value_node buf) key value h = refl
or_old-found root (stored_node hash n) key value h = refl
or_old-found root (short_node part child) key value h = refl
or_old-found root (full_node edges) key value h = refl

-- A transaction of a trie without missing nodes finds under a key what it inserted there, be the key new or
-- not and whatever other keys the trie holds, when the fuel is the bound of the trie, twice the nibbles of the
-- key and 4 more.
pub txn_lookup-txn_insert :
    (fuel : ℕ) (root : Node) (n : ℕ) (key value : List ℕ)
    → n + 2 * length (bytes_to_hex_nibbles key) + 4 ≤ fuel
    → Fits root n
    → txn_lookup (txn_insert fuel root key value) key ≡ some value
unfolding txn_lookup txn_insert
txn_lookup-txn_insert fuel root n key value l f =
    let path = bytes_to_hex_nibbles key in
    let found = lookup-insert fuel root n path value l f in
    ap (λ t. lookup t path) (or_old-found root (insert fuel root path value) path value found)
    ∙ found
