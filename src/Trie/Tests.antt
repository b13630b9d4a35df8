-- ===== src/Trie/Tests.antt =====
-- Runs of the trie of the state on keys of one and two bytes.
use mainnet.Nibbles.{bytes_to_hex_nibbles, nibbles_of}
use mainnet.Trie.{
  Node, nil, value_node, short_node, lookup, delete, txn_lookup, txn_insert, txn_delete, insert,
  begins_with, prefix_len, shrunk, edges_below, is_nil,
}
use mainnet.Trie.Keeping.{txn_insert-IsTerminated}
use mainnet.Trie.Others.{IsTerminated, txn_lookup-txn_insert_other}
use mainnet.Trie.Inserting.{Fits, txn_lookup-txn_insert}
use mainnet.Common.{
  length, ◌+◌, ◌*◌, List, ℕ, ◌<◌, ◌≢◌, inl, inr, ◌≡◌, refl, some, none, [], ◌∷◌, arith, bytes_equal,
}

abbrev one_key : Node
one_key = short_node (1 ∷ 3 ∷ 16 ∷ []) (value_node (7 ∷ []))

txn_lookup-txn_insert_example :
    txn_lookup (txn_insert 30 one_key (18 ∷ []) (9 ∷ [])) (18 ∷ []) ≡ some (9 ∷ [])
unfolding bytes_to_hex_nibbles nibbles_of
txn_lookup-txn_insert_example =
    txn_lookup-txn_insert 30 one_key 11 (18 ∷ []) (9 ∷ []) (omega arith) (0, (omega arith, tt))

-- The key that was there keeps its value.
other_kept : txn_lookup (txn_insert 30 one_key (18 ∷ []) (9 ∷ [])) (19 ∷ []) ≡ some (7 ∷ [])
unfolding txn_lookup txn_insert insert lookup begins_with prefix_len bytes_to_hex_nibbles nibbles_of
    bytes_equal
other_kept = refl

-- Of two keys one is deleted.
two_keys :
    txn_lookup
      (txn_delete
        (txn_insert 40 (txn_insert 40 nil (18 ∷ 52 ∷ []) (1 ∷ [])) (18 ∷ 53 ∷ []) (2 ∷ []))
        (18 ∷ 53 ∷ []))
      (18 ∷ 52 ∷ [])
    ≡ some (1 ∷ [])
unfolding txn_lookup txn_insert txn_delete delete shrunk edges_below is_nil insert lookup
    begins_with prefix_len bytes_to_hex_nibbles nibbles_of bytes_equal
two_keys = refl

-- The deletion of a key of one byte that is not there deletes one of two bytes.
other_deleted :
    txn_lookup
      (txn_delete
        (txn_insert 40 (txn_insert 40 nil (18 ∷ 52 ∷ []) (1 ∷ [])) (18 ∷ 53 ∷ []) (2 ∷ []))
        (20 ∷ []))
      (18 ∷ 52 ∷ [])
    ≡ none
unfolding txn_lookup txn_insert txn_delete delete shrunk edges_below is_nil insert lookup
    begins_with prefix_len bytes_to_hex_nibbles nibbles_of bytes_equal
other_deleted = refl

not_16 : (n : ℕ) → n < 16 → n ≢ 16
not_16 n l e = omega (arith, l, e)

one_key-IsTerminated : IsTerminated one_key
one_key-IsTerminated =
    inl (inr (not_16 1 (omega arith), inr (not_16 3 (omega arith), inl (refl, refl))))

txn_lookup-txn_insert_other_example :
    txn_lookup (txn_insert 30 one_key (18 ∷ []) (9 ∷ [])) (19 ∷ []) ≡ txn_lookup one_key (19 ∷ [])
unfolding bytes_to_hex_nibbles nibbles_of
txn_lookup-txn_insert_other_example =
    txn_lookup-txn_insert_other 30 one_key 11 (18 ∷ []) (19 ∷ []) (9 ∷ []) (omega arith)
      (0, (omega arith, tt)) one_key-IsTerminated (omega arith, tt) (omega arith, tt) different
  where
    different : ◌≢◌ {A = List ℕ} (18 ∷ []) (19 ∷ [])
    different e = ground (arith, e)

txn_insert-IsTerminated_example :
    IsTerminated (txn_insert 30 one_key (18 ∷ []) (9 ∷ []))
    × Fits
        (txn_insert 30 one_key (18 ∷ []) (9 ∷ []))
        (11 + 3 * length (bytes_to_hex_nibbles (18 ∷ [])) + 3)
unfolding bytes_to_hex_nibbles nibbles_of
txn_insert-IsTerminated_example =
    txn_insert-IsTerminated 30 one_key 11 (18 ∷ []) (9 ∷ []) (omega arith) (0, (omega arith, tt))
      one_key-IsTerminated (omega arith, tt)
