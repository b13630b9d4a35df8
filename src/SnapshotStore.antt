-- ===== src/SnapshotStore.antt =====
-- snapshotStore and snapshotSortedList of validators/store/snapshot/types.go: the snapshots in
-- ascending order of their block numbers, searched by two binary searches.
-- sort.Search and the insertion sort behind sort.Sort are written out as the Go library has them;
-- insertion sort is what sort.Sort runs on at most twelve elements, and on any slice whose numbers
-- differ every sort gives this result. The mutex is not modelled: each method is one step.
pub mod Search
pub mod Order
pub mod Finding
pub mod Pruning
pub mod Staleness
mod Tests
use mainnet.Common.{
  ℕ, zero, suc, ◌+◌, ◌-◌, ◌*◌, ◌/◌, ◌%◌, ◌^◌, ◌≤◌, ◌<◌, ◌≡◌, refl, sym, ap, ◌∙◌, subst, ◌≢◌, ◌↔◌,
  ◌⊎◌, inl, inr, Bool, true, false, not, ◌&&◌, ◌||◌, Option, none, some, List, [], ◌∷◌, ◌++◌, map,
  arith, ltb, leb, ◌==◌, if◌then◌else◌, ==_iff, ==_refl, Bool-cases, Option-cases, same, same_iff,
  bytes_equal, bytes_equal_refl, eq_of_bytes_equal, length, get_elem?, set, drop, erase_at,
  length-append, length-erase_at, keep, count_if, All, length-keep, count_if-append, Result, ok,
  err, ◌>>=◌, ◌>>◌, ensure, or_fail,
}
use mainnet.Snapshot.{Snapshot}

pub record SnapshotStore : Type 0 where
  pub last_number : ℕ
  pub list : List Snapshot

-- sort.Search. The loop runs j - i rounds at most, so n rounds of fuel are enough.
unfoldable pub search_loop : ℕ → (ℕ → Bool) → ℕ → ℕ → ℕ
search_loop zero f i j = i
search_loop (suc fuel) f i j =
    let h = (i + j) / 2 in
    elim (ltb i j) [
      | false ↦ i
      | true ↦ elim (f h) [ true ↦ search_loop fuel f i h | false ↦ search_loop fuel f (h + 1) j ]
    ]

unfoldable pub search_first : ℕ → (ℕ → Bool) → ℕ
unfolding search_loop
search_first n f = search_loop n f 0 n

-- In ascending order of block numbers.
abbrev pub AtLeast : ℕ → List Snapshot → Type 0
AtLeast n ss = All (λ s. n ≤ s.number) ss

abbrev pub IsSorted : List Snapshot → Type 0
IsSorted [] = Unit
IsSorted (s ∷ ss) = AtLeast s.number ss × IsSorted ss

-- sort.Sort on snapshotSortedList: it orders the list and keeps its elements. It is not stable, so nothing is
-- known about the order of snapshots of one number.
pub record Sorting : Type 1 where
  pub sort : List Snapshot → List Snapshot
  pub sort-IsSorted : (ss : List Snapshot) → IsSorted (sort ss)
  pub sort-count : (p : Snapshot → Bool) (ss : List Snapshot) → count_if p (sort ss) ≡ count_if p ss
  pub sort-All : (P : Snapshot → Type 0) (ss : List Snapshot) → All P ss → All P (sort ss)

unfoldable pub add : Sorting → SnapshotStore → Snapshot → SnapshotStore
add sorting st snap = record st { list = sorting.sort (st.list ++ snap ∷ []) }

unfoldable pub add_all : Sorting → SnapshotStore → List Snapshot → SnapshotStore
unfolding add
add_all sorting st [] = st
add_all sorting st (s ∷ ss) = add_all sorting (add sorting st s) ss

-- s.list[i].Number; the value past the end is never used.
abbrev pub number_at : List Snapshot → ℕ → ℕ
number_at ss i = elim (get_elem? ss i) [ none ↦ 0 | some s ↦ s.number ]

-- newSnapshotStore with loadData.
pub new_snapshot_store : Sorting → Option ℕ → List Snapshot → SnapshotStore
unfolding add_all
new_snapshot_store sorting metadata snapshots =
    add_all sorting (record { last_number = elim metadata [ none ↦ 0 | some n ↦ n ]; list = [] })
      snapshots

abbrev pub update_last_block : SnapshotStore → ℕ → SnapshotStore
update_last_block st n = record st { last_number = n }

unfoldable pub find : SnapshotStore → ℕ → Option Snapshot
find st num =
    let n = length st.list in
    let i = search_first n (λ k. leb num (number_at st.list k)) in
    if n == 0
    then none
    else if ltb (number_at st.list (n - 1)) num
    then get_elem? st.list (n - 1)
    else if ltb i n
    then (if i == 0
        then get_elem? st.list 0
        else if number_at st.list i == num
        then get_elem? st.list i
        else get_elem? st.list (i - 1))
    else none

unfoldable pub put_by_number : Sorting → SnapshotStore → Snapshot → SnapshotStore
put_by_number sorting st snap =
    let i = search_first (length st.list) (λ k. number_at st.list k == snap.number) in
    if ltb i (length st.list)
    then record st { list = set st.list i snap }
    else record st { list = sorting.sort (st.list ++ snap ∷ []) }

-- The outcome of the loop of findClosestSnapshotIndex: an index that matches, or the final low and
-- high. `top` is high + 1, since high may be -1.
pub data Closest : Type 0 where
  exact : ℕ → Closest
  between : ℕ → ℕ → Closest

unfoldable pub closest_loop : ℕ → List Snapshot → ℕ → ℕ → ℕ → Closest
closest_loop zero ss num low top = between low top
closest_loop (suc fuel) ss num low top =
    let mid = (top - 1 + low) / 2 in
    elim (ltb low top) [
      | false ↦ between low top
      | true ↦ elim (ltb num (number_at ss mid)) [
        | true ↦ closest_loop fuel ss num low mid
        | false ↦ elim (ltb (number_at ss mid) num) [
          | true ↦ closest_loop fuel ss num (mid + 1) top
          | false ↦ exact mid
        ]
      ]
    ]

-- a - b on uint64.
abbrev pub sub64 : ℕ → ℕ → ℕ
sub64 a b = (a + 2 ^ 64 - b) % 2 ^ 64

-- The last test of findClosestSnapshotIndex, between the two neighbours.
unfoldable pub choose : List Snapshot → ℕ → Closest → ℕ
choose ss num (exact i) = i
choose ss num (between low top) =
    if ltb (sub64 (number_at ss low) num) (sub64 num (number_at ss (top - 1))) then top - 1 else low

-- `none` is the panic on an empty list.
unfoldable pub find_closest_snapshot_index : List Snapshot → ℕ → Option ℕ
find_closest_snapshot_index ss num =
    let n = length ss in
    if n == 0
    then none
    else if ltb num (number_at ss 0)
    then some 0
    else if ltb (number_at ss (n - 1)) num
    then some (n - 1)
    else some (choose ss num (closest_loop n ss num 0 n))

unfoldable pub delete_lower : SnapshotStore → ℕ → Option SnapshotStore
delete_lower st num = elim (find_closest_snapshot_index st.list num) [
  | none ↦ none
  | some i ↦ some (record st { list = drop i st.list })
]
