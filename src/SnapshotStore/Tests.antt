-- ===== src/SnapshotStore/Tests.antt =====
-- The theorems on the snapshot store at concrete inputs, with what goes wrong.
use mainnet.Common.{
  Bool, count_if, ◌+◌, ℕ, zero, suc, ◌/◌, ◌≤◌, ◌<◌, ◌≡◌, refl, false, some, List, [], ◌∷◌, arith,
  ◌==◌, get_elem?,
}
use mainnet.Validators.Validator.{ecdsa}
use mainnet.Validators.Set.{Set}
use mainnet.Snapshot.{Snapshot}
use mainnet.SnapshotStore.{
  SnapshotStore, number_at, add, find, put_by_number, delete_lower, find_closest_snapshot_index,
  closest_loop, choose, search_first,
}
use mainnet.SnapshotStore.{IsSorted}
use mainnet.SnapshotStore.Order.{stable}
use mainnet.SnapshotStore.Finding.{IsInForce, find-IsInForce}
use mainnet.SnapshotStore.Staleness.{put_by_number-duplicates, delete_lower-loses}

abbrev nobody : Set
nobody = record { validator_type = ecdsa; members = [] }

abbrev snap_at : ℕ → Snapshot
snap_at n = record { number = n; hash = some n; votes = []; validators = nobody }

abbrev store_of : List Snapshot → SnapshotStore
store_of l = record { last_number = 0; list = l }

-- Epochs of 50 blocks, seen from height 150: snapshots at 0, 45 and 140.
abbrev epochs : SnapshotStore
epochs = store_of (snap_at 0 ∷ snap_at 45 ∷ snap_at 140 ∷ [])

epochs-IsSorted : IsSorted epochs.list
epochs-IsSorted = omega arith

program : Unit {0}
unfolding find search_first put_by_number delete_lower find_closest_snapshot_index closest_loop
    choose add
program = tt

found_between : find epochs 100 ≡ some (snap_at 45)
unfolding program
found_between = refl

-- The cut at 50 drops the snapshot that is in force at 100.
lost : delete_lower epochs 50 ≡ some (store_of (snap_at 140 ∷ []))
unfolding program
lost = refl

find-IsInForce_example :
    (i : ℕ) × IsInForce epochs.list 100 i × (find epochs 100 ≡ get_elem? epochs.list i)
find-IsInForce_example = find-IsInForce epochs 100 epochs-IsSorted (omega arith)

delete_lower-loses_example :
    (s t : Snapshot) × (st' : SnapshotStore) × (delete_lower epochs 50 ≡ some st')
    × (find epochs 50 ≡ some s)
    × (s.number ≤ 50)
    × (find st' 50 ≡ some t)
    × (50 < t.number)
delete_lower-loses_example =
    delete_lower-loses epochs 50 1 epochs-IsSorted (omega arith) (omega arith) (omega arith)
      (omega arith) (omega arith)

put_by_number-duplicates_example :
    let after = (put_by_number stable epochs (record (snap_at 0) { hash = some 99 })).list in
    IsSorted after
    × ((p : Snapshot → Bool)
        → count_if p after
          ≡ count_if p epochs.list + count_if p (record (snap_at 0) { hash = some 99 } ∷ []))
    × (2 ≤ count_if (λ s. s.number == 0) after)
put_by_number-duplicates_example =
    put_by_number-duplicates stable epochs (record (snap_at 0) { hash = some 99 }) 0 (omega arith)
      refl others
  where
    others : (k : ℕ) → 3 / 2 ≤ k → k < 3 → (number_at epochs.list k == 0) ≡ false
    others zero l h = absurd (omega arith)
    others (suc zero) l h = refl
    others (suc (suc zero)) l h = refl
    others (suc (suc (suc k))) l h = absurd (omega arith)
