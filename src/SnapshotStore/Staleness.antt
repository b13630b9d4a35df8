-- ===== src/SnapshotStore/Staleness.antt =====
-- Where the store answers with another snapshot than the one meant: what putByNumber misses, and what
-- deleteLower cuts off.
use mainnet.Common.{
  ◌++◌, Bool, count_if, count_if-append, ℕ, zero, suc, ◌+◌, ◌-◌, ◌/◌, ◌^◌, ◌≤◌, ◌<◌, ◌≡◌, refl, ap,
  ◌∙◌, inl, inr, false, some, List, [], ◌∷◌, arith, leb, ◌==◌, same, length, get_elem?, drop,
  get_elem?-total,
}
use mainnet.Snapshot.{Snapshot}
use mainnet.SnapshotStore.{
  SnapshotStore, number_at, find, search_first, put_by_number, add, Sorting,
  find_closest_snapshot_index, delete_lower,
}
use mainnet.SnapshotStore.Search.{search_first-misses}
use mainnet.SnapshotStore.{IsSorted}
use mainnet.SnapshotStore.Order.{number_at_mono}
use mainnet.SnapshotStore.Finding.{IsInForce, find-IsInForce, first_reached}
use mainnet.SnapshotStore.Pruning.{find_closest-gap, drop-IsSorted, length-drop}

-- Where a number is present, find returns the first snapshot that has it.
pub find_first :
    (st : SnapshotStore) (num m : ℕ)
    → IsSorted st.list
    → m < length st.list
    → number_at st.list m ≡ num
    → (r : ℕ) × (r ≤ m)
      × (number_at st.list r ≡ num)
      × ((j : ℕ) → j < r → number_at st.list j < num)
      × (find st num ≡ get_elem? st.list r)
unfolding find
find_first st num m sorted l e =
    let ss = st.list in
    let n = length ss in
    let r = search_first n (λ k. leb num (number_at ss k)) in
    let s = first_reached ss num sorted in
    let near : r ≤ m = ground (arith, s.before m (omega arith), s.upper) in
    let hit : number_at ss r ≡ num =
      ground (arith, s.after r (omega arith) (omega arith), number_at_mono ss r m sorted near l) in
    (
      r,
      near,
      hit,
      λ j h. ground (arith, s.before j (omega arith) h),
      ground (arith, number_at_mono ss m (n - 1) sorted (omega arith) (omega arith)),
    )

-- The binary search of putByNumber sees a match only on its way to the right. Where every match lies
-- in the first half, it adds instead of replacing.
put_by_number-adds :
    (sorting : Sorting) (st : SnapshotStore) (snap : Snapshot)
    → ((k : ℕ)
        → length st.list / 2 ≤ k
        → k < length st.list
        → (number_at st.list k == snap.number) ≡ false)
    → put_by_number sorting st snap ≡ add sorting st snap
unfolding put_by_number add
put_by_number-adds sorting st snap miss =
    rw (search_first-misses (length st.list) (λ k. number_at st.list k == snap.number) miss)
      (ground arith)

has_number-count :
    (ss : List Snapshot) (m num : ℕ)
    → m < length ss
    → number_at ss m ≡ num
    → 1 ≤ count_if (λ s. s.number == num) ss
unfolding count_if
has_number-count [] m num l e = absurd (omega (arith, l))
has_number-count (s ∷ ss) zero num l e = ground (arith, e)
has_number-count (s ∷ ss) (suc m) num l e =
    ground (arith, has_number-count ss m num (omega (arith, l)) e)

-- Where every snapshot of the number lies in the first half of the list, and there is one, putByNumber
-- replaces none of them, however sort.Sort orders equal numbers: the list keeps every snapshot that it had and
-- gets the new one besides, so that the number stands there at least twice, and the list stays in order.
pub put_by_number-duplicates :
    (sorting : Sorting) (st : SnapshotStore) (snap : Snapshot) (m : ℕ)
    → m < length st.list
    → number_at st.list m ≡ snap.number
    → ((k : ℕ)
        → length st.list / 2 ≤ k
        → k < length st.list
        → (number_at st.list k == snap.number) ≡ false)
    → let after = (put_by_number sorting st snap).list in
      IsSorted after
      × ((p : Snapshot → Bool) → count_if p after ≡ count_if p st.list + count_if p (snap ∷ []))
      × (2 ≤ count_if (λ s. s.number == snap.number) after)
put_by_number-duplicates sorting st snap m l e miss =
    let ss = st.list ++ snap ∷ [] in
    let kept =
      λ (p : Snapshot → Bool). sorting.sort-count p ss ∙ count_if-append p st.list (snap ∷ []) in
    let same_number = λ (s : Snapshot). s.number == snap.number in
    rw (put_by_number-adds sorting st snap miss) (
      unfold add in sorting.sort-IsSorted ss,
      unfold add in kept,
      unfold add in
          omega (
            arith,
            kept same_number,
            has_number-count st.list m snap.number l e,
            has_number-count (snap ∷ []) 0 snap.number (omega arith) refl,
          ),
    )

number_at-drop :
    (n : ℕ) (ss : List Snapshot) (i k : ℕ) → n + i ≡ k → number_at (drop n ss) i ≡ number_at ss k
number_at-drop zero ss i k e = ap (number_at ss) {x = i} {y = k} (omega arith)
number_at-drop (suc n) [] i k e = refl
number_at-drop (suc n) (s ∷ ss) i zero e = absurd (omega arith)
number_at-drop (suc n) (s ∷ ss) i (suc k) e = number_at-drop n ss i k (omega arith)

number_at-get_elem? :
    (ss : List Snapshot) (i : ℕ) (s : Snapshot)
    → get_elem? ss i ≡ some s
    → number_at ss i ≡ s.number
number_at-get_elem? ss i s e = rw (e, number_at)

module _ (st : SnapshotStore) (num k : ℕ) (sorted : IsSorted st.list) (l : k + 1 < length st.list)
    (below : number_at st.list k < num) (above : num < number_at st.list (k + 1)) where
  in_force_before : (s : Snapshot) × (find st num ≡ some s) × (s.number ≤ num)
  in_force_before =
      let (i, force, e) = find-IsInForce st num sorted (omega arith) in
      let (s, at_i) = get_elem?-total st.list i force.in_range in
      let same = number_at-get_elem? st.list i s at_i in (s, e ∙ at_i, older i force s same)
    where
      older :
          (i : ℕ)
          → IsInForce st.list num i
          → (s : Snapshot) → number_at st.list i ≡ s.number
          → s.number ≤ num
      older i force s same = elim force.newest [
        | inl h ↦ omega arith
        | inr h ↦ absurd (omega (arith, h.1 k (omega arith)))
      ]

  in_force_after :
      let st' : SnapshotStore = record st { list = drop (k + 1) st.list } in
      (t : Snapshot) × (find st' num ≡ some t) × (num < t.number)
  in_force_after =
      let rest = drop (k + 1) st.list in
      let st' : SnapshotStore = record st { list = rest } in
      let size = length-drop (k + 1) st.list in
      let (i, force, e) =
        find-IsInForce st' num (drop-IsSorted (k + 1) st.list sorted) (omega arith) in
      let (t, at_i) = get_elem?-total rest i force.in_range in
      let in_range = force.in_range in
      (
        t,
        e ∙ at_i,
        omega (
          arith,
          number_at-get_elem? rest i t at_i,
          number_at-drop (k + 1) st.list i (k + 1 + i) refl,
          number_at_mono st.list (k + 1) (k + 1 + i) sorted (omega arith) (omega arith),
        ),
      )

  -- Let the cut fall strictly between the numbers of two neighbours, and be at least as near to the
  -- lower one as to the upper one. Then deleteLower drops the snapshot that was in force at the cut:
  -- before, find answered there with a snapshot that is not later, and afterwards with a later one.
  pub delete_lower-loses :
      num - number_at st.list k ≤ number_at st.list (k + 1) - num
      → number_at st.list (k + 1) < 2 ^ 64
      → (s t : Snapshot) × (st' : SnapshotStore) × (delete_lower st num ≡ some st')
        × (find st num ≡ some s)
        × (s.number ≤ num)
        × (find st' num ≡ some t)
        × (num < t.number)
  delete_lower-loses nearer small =
      let (s, before, older) = in_force_before in
      let (t, after, newer) = in_force_after in
      let cut : find_closest_snapshot_index st.list num ≡ some (k + 1) =
        find_closest-gap st.list num sorted k l below above small ∙ ground arith in
      (
        s,
        t,
        record st { list = drop (k + 1) st.list },
        unfold delete_lower in rw (cut, delete_lower),
        before,
        older,
        after,
        newer,
      )
