-- ===== src/Trie.antt =====
-- state/immutable-trie/trie.go: lookup, insertion and deletion in the trie of the state.
-- A node is a value: the cached hash and the epoch, which only tell whether a node may be changed in place,
-- are left out. A reference to a stored node is held with the node that the storage has under it, `nil` where
-- it has none; a storage that fails, on which the code panics, is left out. The edges of a full node are a
-- function of the nibble, 16 for its value.
pub mod Prefixes
pub mod Inserting
pub mod Paths
pub mod Leaving
pub mod Branching
pub mod Others
pub mod Growing
pub mod Keeping
mod Tests
use mainnet.Nibbles.{bytes_to_hex_nibbles}
use mainnet.Common.{
  ℕ, zero, suc, ◌+◌, ◌-◌, ◌*◌, ◌/◌, ◌%◌, ◌^◌, ◌≤◌, ◌<◌, ◌≡◌, refl, sym, ap, ◌∙◌, subst, ◌≢◌, ◌↔◌,
  ◌⊎◌, inl, inr, Bool, true, false, not, ◌&&◌, ◌||◌, Option, none, some, List, [], ◌∷◌, ◌++◌, map,
  arith, ltb, leb, ◌==◌, if◌then◌else◌, ==_iff, ==_refl, Bool-cases, Option-cases, same, same_iff,
  bytes_equal, bytes_equal_refl, eq_of_bytes_equal, length, get_elem?, set, drop, erase_at,
  length-append, length-erase_at, keep, count_if, All, length-keep, count_if-append, count_if-nil,
  get_elem?-total, count_if-keep, All-keep, All-map, All-append, All-drop, All-get_elem?, Result,
  ok, err, ◌>>=◌, ◌>>◌, ensure, or_fail, Result-cases, bind-ok, ensure-ok, or_fail-ok, all_below,
  all_below-holds, get_elem?-append, get_elem?-append_last, if_both, get_elem?-set,
  get_elem?-set_other, length-set, All-set,
}

pub data Node : Type 0 where
  nil : Node
  value_node : List ℕ → Node
  stored_node : List ℕ → Node → Node
  short_node : List ℕ → Node → Node
  full_node : (ℕ → Node) → Node

-- setEdge
abbrev pub set_edge : (ℕ → Node) → ℕ → Node → ℕ → Node
set_edge edges k n i = if i == k then n else edges i

unfoldable pub is_nil : Node → Bool
is_nil nil = true
is_nil _ = false

-- How many nibbles two keys share at their beginning.
unfoldable pub prefix_len : List ℕ → List ℕ → ℕ
prefix_len [] k2 = 0
prefix_len (x ∷ k1) [] = 0
prefix_len (x ∷ k1) (y ∷ k2) = let n = prefix_len k1 k2 in if x == y then suc n else 0

abbrev pub first : ℕ → List ℕ → List ℕ
first zero xs = []
first (suc n) [] = []
first (suc n) (x ∷ xs) = x ∷ first n xs

-- plen > len(key) || key[:plen] != n.key
unfoldable pub begins_with : List ℕ → List ℕ → Bool
begins_with key part = leb (length part) (length key) && bytes_equal (first (length part) key) part

-- The value of a key; nil where there is none.
unfoldable pub lookup : Node → List ℕ → Option (List ℕ)
lookup nil key = none
lookup (stored_node hash n) key = lookup n key
lookup (value_node buf) [] = some buf
lookup (value_node buf) (k ∷ key) = none
lookup (short_node part child) key =
    let found = lookup child (drop (length part) key) in
    if begins_with key part then found else none
lookup (full_node edges) [] = lookup (edges 16) []
lookup (full_node edges) (k ∷ key) = lookup (edges k) key

-- The branch for a short node whose key the search leaves: what is left of the key under one edge.
abbrev pub branch : ℕ → List ℕ → Node → ℕ → Node
branch k [] child = set_edge (λ i. nil) k child
branch k (x ∷ rest) child = set_edge (λ i. nil) k (short_node (x ∷ rest) child)

-- A short node around what was inserted below the shared part of the keys.
abbrev pub under : List ℕ → Node → Node
under [] n = n
under (x ∷ part) n = short_node (x ∷ part) n

-- Every call goes to a child, or into a node with fewer levels below.
unfoldable pub insert : ℕ → Node → List ℕ → List ℕ → Node
insert zero n search value = nil
insert (suc fuel) nil [] value = value_node value
insert (suc fuel) nil (k ∷ search) value = short_node (k ∷ search) (insert fuel nil [] value)
insert (suc fuel) (stored_node hash nil) search value = nil
insert (suc fuel) (stored_node hash n) search value = insert fuel n search value
insert (suc fuel) (value_node buf) [] value = value_node value
insert (suc fuel) (value_node buf) (k ∷ search) value =
    insert fuel (full_node (set_edge (λ i. nil) 16 (value_node buf))) (k ∷ search) value
insert (suc fuel) (short_node part child) search value =
    let plen = prefix_len search part in
    let rest = drop plen search in
    elim (drop plen part) [
      | [] ↦ short_node part (insert fuel child rest value)
      | k ∷ left ↦
          under (first plen search) (insert fuel (full_node (branch k left child)) rest value)
    ]
insert (suc fuel) (full_node edges) [] value =
    full_node (set_edge edges 16 (insert fuel (edges 16) [] value))
insert (suc fuel) (full_node edges) (k ∷ search) value =
    full_node (set_edge edges k (insert fuel (edges k) search value))

-- The edges below a bound that hold a node.
unfoldable pub edges_below : ℕ → (ℕ → Node) → List ℕ
edges_below zero edges = []
edges_below (suc n) edges =
    let rest = edges_below n edges in if is_nil (edges n) then rest else rest ++ n ∷ []

abbrev pub lift_node : ℕ → Node → Node
lift_node k (short_node part child) = short_node (k ∷ part) child
lift_node k n = short_node (k ∷ []) n

-- The node under the only edge that is left: a reference is resolved first.
abbrev pub lifted : ℕ → Node → Option Node
lifted k (stored_node hash nil) = none
lifted k (stored_node hash n) = some (lift_node k n)
lifted k n = some (lift_node k n)

-- What is left of a full node after an edge was set.
unfoldable pub shrunk : (ℕ → Node) → Option Node
shrunk edges = elim (edges_below 16 edges) [
  | [] ↦ if is_nil (edges 16) then some nil else some (short_node (16 ∷ []) (edges 16))
  | k ∷ more ↦ elim more [
    | j ∷ others ↦ some (full_node edges)
    | [] ↦ if is_nil (edges 16) then lifted k (edges k) else some (full_node edges)
  ]
]

-- A child of a short node after a deletion below it.
abbrev pub joined : List ℕ → Node → Node
joined part nil = nil
joined part (short_node more child) = short_node (part ++ more) child
joined part n = short_node part n

abbrev pub replaced : (ℕ → Node) → ℕ → Option Node → Option Node
replaced edges k none = none
replaced edges k (some n) = shrunk (set_edge edges k n)

-- `none` where nothing was deleted. The search of a full node is never empty: search[0] would panic.
unfoldable pub delete : Node → List ℕ → Option Node
delete nil search = none
delete (short_node part child) search =
    let plen = prefix_len search part in
    let left = delete child (drop plen search) in
    if plen == length search
    then some nil
    else if plen == 0
    then none
    else elim left [ none ↦ none | some n ↦ some (joined part n) ]
delete (stored_node hash n) search = delete n search
delete (value_node buf) [] = some nil
delete (value_node buf) (k ∷ search) = none
delete (full_node edges) [] = none
delete (full_node edges) (k ∷ search) = replaced edges k (delete (edges k) search)

-- Lookup, Insert and Delete of a transaction, by bytes.
unfoldable pub txn_lookup : Node → List ℕ → Option (List ℕ)
txn_lookup root key = lookup root (bytes_to_hex_nibbles key)

abbrev pub or_old : Node → Node → Node
or_old old nil = old
or_old old n = n

unfoldable pub txn_insert : ℕ → Node → List ℕ → List ℕ → Node
txn_insert fuel root key value = or_old root (insert fuel root (bytes_to_hex_nibbles key) value)

abbrev pub or_kept : Node → Option Node → Node
or_kept root none = root
or_kept root (some n) = n

unfoldable pub txn_delete : Node → List ℕ → Node
txn_delete root key = or_kept root (delete root (bytes_to_hex_nibbles key))

-- TryUpdate: an empty value deletes, and fails where there is nothing to delete.
unfoldable pub try_update : ℕ → Node → List ℕ → List ℕ → Option Node
try_update fuel root key [] = delete root (bytes_to_hex_nibbles key)
try_update fuel root key (b ∷ value) =
    some (insert fuel root (bytes_to_hex_nibbles key) (b ∷ value))
