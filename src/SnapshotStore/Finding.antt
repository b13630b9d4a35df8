-- ===== src/SnapshotStore/Finding.antt =====
-- find returns the snapshot in force at a height.
use mainnet.Common.{
  ℕ, ◌+◌, ◌-◌, ◌≤◌, ◌<◌, ◌≡◌, refl, ◌⊎◌, inl, inr, Bool, true, false, List, arith, ltb, leb, ◌==◌,
  Bool-cases, length, get_elem?,
}
use mainnet.Snapshot.{Snapshot}
use mainnet.SnapshotStore.{SnapshotStore, number_at, find, search_first}
use mainnet.SnapshotStore.Search.{Splits, search_first-Splits}
use mainnet.SnapshotStore.{IsSorted}
use mainnet.SnapshotStore.Order.{number_at_mono}

-- The snapshot at index i is the newest one at or below the height; or the height is below all
-- snapshots, and it is the oldest.
pub record IsInForce (ss : List Snapshot) (height i : ℕ) : Type 0 where
  pub in_range : i < length ss
  pub newest :
      ((number_at ss i ≤ height)
        × ((j : ℕ) → j < length ss → number_at ss j ≤ height → number_at ss j ≤ number_at ss i))
      ⊎ ((i ≡ 0) × ((j : ℕ) → j < length ss → height < number_at ss j))

module _ (ss : List Snapshot) (height : ℕ) (sorted : IsSorted ss) where
  abbrev reached : ℕ → Bool
  reached k = leb height (number_at ss k)

  reached_mono : (a b : ℕ) → a ≤ b → b < length ss → reached a ≡ true → reached b ≡ true
  reached_mono a b p l h = ground (arith, number_at_mono ss a b sorted p l)

  pub first_reached : Splits reached 0 (length ss) (search_first (length ss) reached)
  first_reached = search_first-Splits (length ss) reached reached_mono

  last-IsInForce :
      0 < length ss → number_at ss (length ss - 1) < height → IsInForce ss height (length ss - 1)
  last-IsInForce some_snapshot h = record {
    in_range = omega arith;
    newest = inl (
      omega arith,
      λ j l p. number_at_mono ss j (length ss - 1) sorted (omega arith) (omega arith),
    );
  }

  oldest-IsInForce : 0 < length ss → height ≤ number_at ss 0 → IsInForce ss height 0
  oldest-IsInForce some_snapshot h = elim (Bool-cases (number_at ss 0 == height)) [
    | inl e ↦ record {
      in_range = some_snapshot;
      newest = inl (ground arith, λ j l p. ground arith);
    }
    | inr e ↦ record {
      in_range = some_snapshot;
      newest = inr (refl, λ j l. ground (arith, number_at_mono ss 0 j sorted (omega arith) l));
    }
  ]

  exact-IsInForce : (i : ℕ) → i < length ss → number_at ss i ≡ height → IsInForce ss height i
  exact-IsInForce i l e = record { in_range = l; newest = inl (omega arith, λ j m p. omega arith) }

  before-IsInForce :
      (i r : ℕ)
      → i + 1 ≡ r
      → r < length ss
      → number_at ss i < height
      → height < number_at ss r
      → IsInForce ss height i
  before-IsInForce i r e l below above = record {
    in_range = omega arith;
    newest = inl (
      omega arith,
      λ j m p. elim (Bool-cases (leb j i)) [
        | inl f ↦ number_at_mono ss j i sorted (ground arith) (omega arith)
        | inr f ↦ absurd (ground (arith, number_at_mono ss r j sorted))
      ],
    );
  }

  -- The first index that reaches the height, where the last one does.
  first_reached-lt :
      0 < length ss
      → ltb (number_at ss (length ss - 1)) height ≡ false
      → search_first (length ss) reached < length ss
  first_reached-lt some_snapshot e =
      let s = first_reached in ground (arith, s.upper, s.before (length ss - 1))

-- On a sorted list that is not empty find returns a snapshot: the newest whose number is at most the
-- height, or the oldest snapshot if the height is below all of them.
pub find-IsInForce :
    (st : SnapshotStore) (height : ℕ)
    → IsSorted st.list
    → 0 < length st.list
    → (i : ℕ) × IsInForce st.list height i × (find st height ≡ get_elem? st.list i)
unfolding find
find-IsInForce st height sorted some_snapshot =
    let ss = st.list in
    let n = length ss in
    let r = search_first n (λ k. leb height (number_at ss k)) in
    elim (Bool-cases (ltb (number_at ss (n - 1)) height)) [
      | inl e ↦ (n - 1, last-IsInForce ss height sorted some_snapshot (ground arith), ground arith)
      | inr e ↦
          let s = first_reached ss height sorted in
          let l : r < n = first_reached-lt ss height sorted some_snapshot e in
          let at_r : leb height (number_at ss r) ≡ true = s.after r (omega arith) l in
          elim (Bool-cases (r == 0)) [
            | inl first ↦ (
              0,
              oldest-IsInForce ss height sorted some_snapshot
                  (ground (arith, s.after 0 (ground arith) some_snapshot)),
              ground arith,
            )
            | inr later ↦ elim (Bool-cases (number_at ss r == height)) [
              | inl hit ↦ (r, exact-IsInForce ss height sorted r l (ground arith), ground arith)
              | inr miss ↦ (
                r - 1,
                before-IsInForce ss height sorted (r - 1) r (ground arith) l
                    (ground (arith, s.before (r - 1))) (ground arith),
                ground arith,
              )
            ]
          ]
    ]
