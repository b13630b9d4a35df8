-- ===== src/SnapshotStore/Pruning.antt =====
-- deleteLower and the binary search that picks where the list is cut.
use mainnet.Common.{
  ℕ, zero, suc, ◌+◌, ◌-◌, ◌/◌, ◌^◌, ◌≤◌, ◌<◌, ◌≡◌, ◌∙◌, inl, inr, Bool, true, false, some, List, [],
  ◌∷◌, arith, ltb, if◌then◌else◌, Bool-cases, length, drop,
}
use mainnet.Snapshot.{Snapshot}
use mainnet.SnapshotStore.{
  SnapshotStore, number_at, Closest, exact, between, closest_loop, sub64, choose,
  find_closest_snapshot_index, delete_lower,
}
use mainnet.SnapshotStore.{IsSorted}
use mainnet.SnapshotStore.Order.{number_at_mono}

sub64-exact : (a b : ℕ) → b ≤ a → a < 2 ^ 64 → sub64 a b ≡ a - b
sub64-exact a b h l = omega arith

add-sub_one : (k : ℕ) → k + 1 - 1 ≡ k
add-sub_one k = omega arith

-- The numbers before low are below num, those from top on are above it.
pub record Narrows (ss : List Snapshot) (num low top : ℕ) : Type 0 where
  pub ordered : low ≤ top
  pub in_range : top ≤ length ss
  pub lower : (j : ℕ) → j < low → number_at ss j < num
  pub upper : (j : ℕ) → top ≤ j → j < length ss → num < number_at ss j

-- The loop ends at a snapshot of that number, or where the range has become empty.
abbrev pub Ends : List Snapshot → ℕ → Closest → Type 0
Ends ss num (exact i) = (i < length ss) × (number_at ss i ≡ num)
Ends ss num (between low top) = (low ≡ top) × Narrows ss num low top

module _ (ss : List Snapshot) (num : ℕ) (sorted : IsSorted ss) where
  narrow_below :
      (low top mid : ℕ)
      → Narrows ss num low top
      → low ≤ mid
      → mid < top
      → num < number_at ss mid
      → Narrows ss num low mid
  narrow_below low top mid r p q above = record {
    ordered = p;
    in_range = omega (arith, r.in_range);
    lower = r.lower;
    upper = λ j h l. omega (arith, number_at_mono ss mid j sorted h l);
  }

  narrow_above :
      (low top mid : ℕ)
      → Narrows ss num low top
      → low ≤ mid
      → mid < top
      → number_at ss mid < num
      → Narrows ss num (mid + 1) top
  narrow_above low top mid r p q below = record {
    ordered = omega arith;
    in_range = r.in_range;
    lower = λ j h.
        omega (arith, number_at_mono ss j mid sorted (omega arith) (omega (arith, r.in_range)));
    upper = r.upper;
  }

  closest_loop-Ends :
      (fuel low top : ℕ)
      → Narrows ss num low top
      → top ≤ low + fuel
      → Ends ss num (closest_loop fuel ss num low top)
  unfolding closest_loop
  closest_loop-Ends zero low top r f = (omega (arith, r.ordered), r)
  closest_loop-Ends (suc fuel) low top r f = elim (Bool-cases (ltb low top)) [
    | inr e ↦ rw (e, closest_loop) (ground (arith, r.ordered), r)
    | inl e ↦
        let mid = (top - 1 + low) / 2 in
        let p : low ≤ mid = ground arith in
        let q : mid < top = ground arith in
        elim (Bool-cases (ltb num (number_at ss mid))) [
          | inl above ↦
              rw (e, closest_loop)
                (rw (above, closest_loop)
                  (closest_loop-Ends fuel low mid (narrow_below low top mid r p q (ground arith))
                    (omega arith)))
          | inr not_above ↦ elim (Bool-cases (ltb (number_at ss mid) num)) [
            | inl below ↦
                rw (e, closest_loop)
                  (rw (not_above, closest_loop)
                    (rw (below, closest_loop)
                      (closest_loop-Ends fuel (mid + 1) top
                        (narrow_above low top mid r p q (ground arith)) (omega arith))))
            | inr not_below ↦
                rw (e, closest_loop)
                  (rw (not_above, closest_loop)
                    (rw (not_below, closest_loop) (omega (arith, r.in_range), ground arith)))
          ]
        ]
  ]

  whole : Narrows ss num 0 (length ss)
  whole = record {
    ordered = omega arith;
    in_range = omega arith;
    lower = λ j h. absurd (omega arith);
    upper = λ j h l. absurd (omega arith);
  }

  loop-Ends : Ends ss num (closest_loop (length ss) ss num 0 (length ss))
  loop-Ends = closest_loop-Ends (length ss) 0 (length ss) whole (omega arith)

  -- A cut that keeps at least one snapshot and drops only numbers up to num.
  abbrev pub IsCut : ℕ → Type 0
  IsCut i = (i < length ss) × ((j : ℕ) → j < i → number_at ss j ≤ num)

  either-IsCut : (b : Bool) (i j : ℕ) → IsCut i → IsCut j → IsCut (if b then i else j)
  either-IsCut true i j p q = p
  either-IsCut false i j p q = q

  low-lt :
      (low top : ℕ)
      → num ≤ number_at ss (length ss - 1)
      → 0 < length ss
      → Ends ss num (between low top)
      → low < length ss
  low-lt low top last some_snapshot e = ground (arith, e.1.in_range, e.1.lower (length ss - 1))

  choose-IsCut :
      (c : Closest)
      → num ≤ number_at ss (length ss - 1)
      → 0 < length ss
      → Ends ss num c
      → IsCut (choose ss num c)
  unfolding choose
  choose-IsCut (exact i) last some_snapshot e =
      (e.0, λ j h. omega (arith, number_at_mono ss j i sorted (omega arith) e.0, e.1))
  choose-IsCut (between low top) last some_snapshot e =
      let l : low < length ss = low-lt low top last some_snapshot e in
      either-IsCut _ (top - 1) low (omega (arith, e.0), λ j h. omega (arith, e.0, e.1.lower j))
        (l, λ j h. omega (arith, e.1.lower j))

  find_closest-IsCut :
      0 < length ss → (i : ℕ) × (find_closest_snapshot_index ss num ≡ some i) × IsCut i
  unfolding find_closest_snapshot_index
  find_closest-IsCut some_snapshot = elim (Bool-cases (ltb num (number_at ss 0))) [
    | inl below ↦ (0, ground arith, (some_snapshot, λ j h. absurd (omega arith)))
    | inr not_below ↦ elim (Bool-cases (ltb (number_at ss (length ss - 1)) num)) [
      | inl above ↦ (
        length ss - 1,
        ground arith,
        (
          omega arith,
          λ j h.
              ground
                (arith, number_at_mono ss j (length ss - 1) sorted (omega arith) (omega arith)),
        ),
      )
      | inr inside ↦ (
        choose ss num (closest_loop (length ss) ss num 0 (length ss)),
        ground arith,
        choose-IsCut _ (ground arith) some_snapshot loop-Ends,
      )
    ]
  ]

  module _ (k : ℕ) (l : k + 1 < length ss) (below : number_at ss k < num)
      (above : num < number_at ss (k + 1)) where
    gap-Ends : (c : Closest) → Ends ss num c → c ≡ between (k + 1) (k + 1)
    gap-Ends (exact i) e =
        absurd (ground (arith, e, number_at_mono ss i k sorted, number_at_mono ss (k + 1) i sorted))
    gap-Ends (between low top) e =
        let low_is : low ≡ k + 1 = ground (arith, e, e.1.upper k, e.1.lower (k + 1)) in
        ground (arith, e)

    find_closest-choose :
        find_closest_snapshot_index ss num ≡ some (choose ss num (between (k + 1) (k + 1)))
    unfolding find_closest_snapshot_index
    find_closest-choose = rw (← gap-Ends _ loop-Ends) (
        ground
          (arith, number_at_mono ss 0 k sorted, number_at_mono ss (k + 1) (length ss - 1) sorted))

    -- Strictly between two neighbours the farther of the two is chosen; the upper one if they are
    -- equally far.
    pub find_closest-gap :
        number_at ss (k + 1) < 2 ^ 64
        → find_closest_snapshot_index ss num
          ≡ some (if ltb (number_at ss (k + 1) - num) (num - number_at ss k) then k else k + 1)
    find_closest-gap small =
        find_closest-choose
        ∙ unfold choose in
          let e₁ = sub64-exact (number_at ss (k + 1)) num (omega arith) small in
          let e₂ = sub64-exact num (number_at ss k) (omega arith) (omega arith) in
          rw (e₁, add-sub_one k) (rw (e₂))

pub drop-IsSorted : (i : ℕ) (ss : List Snapshot) → IsSorted ss → IsSorted (drop i ss)
drop-IsSorted zero ss h = h
drop-IsSorted (suc i) [] h = tt
drop-IsSorted (suc i) (s ∷ ss) h = drop-IsSorted i ss h.1

pub length-drop : (i : ℕ) (ss : List Snapshot) → length (drop i ss) ≡ length ss - i
length-drop zero ss = omega arith
length-drop (suc i) [] = omega arith
length-drop (suc i) (s ∷ ss) = omega (arith, length-drop i ss)

-- On a sorted list that is not empty deleteLower does not panic. It drops a front part, in which no
-- number is above the given one, keeps at least one snapshot, and keeps the list sorted.
pub delete_lower-keeps :
    (st : SnapshotStore) (num : ℕ)
    → IsSorted st.list
    → 0 < length st.list
    → (i : ℕ) × (delete_lower st num ≡ some (record st { list = drop i st.list }))
      × ((j : ℕ) → j < i → number_at st.list j ≤ num)
      × (0 < length (drop i st.list))
      × IsSorted (drop i st.list)
unfolding delete_lower
delete_lower-keeps st num sorted some_snapshot =
    let (i, found, cut) = find_closest-IsCut st.list num sorted some_snapshot in
    (
      i,
      rw (found, delete_lower),
      cut.1,
      omega (arith, length-drop i st.list, cut.0),
      drop-IsSorted i st.list sorted,
    )
