-- ===== src/Voting/Invariant.antt =====
-- Every snapshot that headers make is consistent, and the store stays sorted.
use mainnet.Common.{
  ◌∷◌, All-append, length-append, ◌++◌, ℕ, ◌-◌, ◌*◌, ◌/◌, ◌%◌, ◌<◌, ◌≡◌, refl, sym, ap, ◌∙◌, subst,
  inl, inr, true, false, not, Option, none, some, [], arith, ltb, ◌==◌, Bool-cases, length,
  get_elem?, drop, count_if, All, All-drop, All-get_elem?, ok, Result-cases, bind-ok, ensure-ok,
  or_fail-ok,
}
use mainnet.Validators.Validator.{ValidatorType}
use mainnet.Validators.Set.{includes}
use mainnet.Validators.Set.Updates.{IsWellFormed}
use mainnet.Snapshot.{Snapshot, copy, equal_snapshot}
use mainnet.SnapshotStore.{SnapshotStore, Sorting, add, find, update_last_block, sub64}
use mainnet.SnapshotStore.{IsSorted}
use mainnet.SnapshotStore.Order.{length-sort}
use mainnet.SnapshotStore.Finding.{find-IsInForce}
use mainnet.SnapshotStore.Pruning.{delete_lower-keeps}
use mainnet.Voting.Types.{
  snapshot_not_found, unauthorized_proposer, panicked, signer_not_found, Signer, Env, Header,
  ValidatorStore,
}
use mainnet.Voting.Votes.{process_vote}
use mainnet.Voting.Tally.{IsConsistent, process_vote-majority}
use mainnet.Voting.Headers.{
  save_snapshot_if_changed, reset_snapshot, remove_lower_snapshots, is_zero_miner, process_checked,
  process_header,
}

-- The snapshots are in order of their numbers and each is consistent.
pub record IsValid (st : SnapshotStore) : Type 0 where
  pub sorted : IsSorted st.list
  pub consistent : All IsConsistent st.list

-- A height that has a snapshot has one of the list.
pub find-some :
    (st : SnapshotStore) (num : ℕ) (s : Snapshot)
    → IsSorted st.list
    → find st num ≡ some s
    → (0 < length st.list) × ((i : ℕ) × (get_elem? st.list i ≡ some s))
find-some st num s sorted h = elim (Bool-cases (length st.list == 0)) [
  | inl e ↦ absurd (unfold find in ground arith)
  | inr e ↦
      let some_snapshot : 0 < length st.list = ground arith in
      let (i, force, found) = find-IsInForce st num sorted some_snapshot in
      (some_snapshot, (i, sym found ∙ h))
]

-- Number and hash are no part of consistency, and a snapshot with no votes needs only a good set.
relabel-IsConsistent :
    (s : Snapshot) (n : ℕ) (h : Option ℕ)
    → IsConsistent s
    → IsConsistent (record s { number = n; hash = h })
relabel-IsConsistent s n h k = record {
  set_ok = k.set_ok;
  single = k.single;
  cast_by_members = k.cast_by_members;
}

pub cleared-IsConsistent :
    (s : Snapshot) → IsWellFormed s.validators → IsConsistent (record s { votes = [] })
unfolding count_if
cleared-IsConsistent s w = record {
  set_ok = w;
  single = λ voter c. omega arith;
  cast_by_members = tt;
}

pub add-IsValid :
    (sorting : Sorting) (st : SnapshotStore) (s : Snapshot)
    → IsValid st
    → IsConsistent s
    → IsValid (add sorting st s) × (0 < length (add sorting st s).list)
unfolding add
add-IsValid sorting st s v k =
    let ss = st.list ++ s ∷ [] in
    (
      record {
        sorted = sorting.sort-IsSorted ss;
        consistent =
            sorting.sort-All IsConsistent ss (All-append IsConsistent st.list s v.consistent k);
      },
      omega (arith, length-sort sorting ss, length-append st.list (s ∷ [])),
    )

save-IsValid :
    (env : Env) (st : SnapshotStore) (parent s : Snapshot) (header : Header)
    → IsValid st
    → 0 < length st.list
    → IsConsistent s
    → IsValid (save_snapshot_if_changed env st parent s header)
      × (0 < length (save_snapshot_if_changed env st parent s header).list)
unfolding save_snapshot_if_changed
save-IsValid env st parent s header v some_snapshot k =
    elim (Bool-cases (equal_snapshot s parent)) [
      | inl e ↦ rw e (v, some_snapshot)
      | inr e ↦ rw e (add-IsValid env.sorting st _ v (relabel-IsConsistent s _ _ k))
    ]

remove_lower-IsValid :
    (env : Env) (st st' : SnapshotStore) (height : ℕ)
    → IsValid st
    → 0 < length st.list
    → remove_lower_snapshots env st height ≡ ok st'
    → IsValid st' × (0 < length st'.list)
unfolding remove_lower_snapshots
remove_lower-IsValid env st st' height v some_snapshot h =
    elim (Bool-cases (ltb 2 (height / env.epoch_size))) [
      | inr e ↦
          let same : st ≡ st' = ground arith in
          subst (λ u. IsValid u × (0 < length u.list)) same (v, some_snapshot)
      | inl e ↦
          let num = (height / env.epoch_size - 2) * env.epoch_size in
          let (i, cut, _, rest, sorted) = delete_lower-keeps st num v.sorted some_snapshot in
          let same : record st { list = drop i st.list } ≡ st' = ground arith in
          subst (λ u. IsValid u × (0 < length u.list)) same
            (
              record { sorted = sorted; consistent = All-drop IsConsistent i st.list v.consistent },
              rest,
            )
    ]

-- The last block is no part of validity.
pub mark-IsValid :
    (st : SnapshotStore) (n : ℕ)
    → IsValid st × (0 < length st.list)
    → IsValid (update_last_block st n) × (0 < length (update_last_block st n).list)
mark-IsValid st n h = (record { sorted = h.0.sorted; consistent = h.0.consistent }, h.1)

last_number-save :
    (env : Env) (st : SnapshotStore) (parent s : Snapshot) (header : Header)
    → (save_snapshot_if_changed env st parent s header).last_number ≡ st.last_number
unfolding save_snapshot_if_changed add
last_number-save env st parent s header = ground arith

-- What a header that was processed leaves behind.
pub record IsProcessed (vs : ValidatorStore) (number : ℕ) (vs' : ValidatorStore) : Type 0 where
  pub valid : IsValid vs'.store
  pub some_snapshot : 0 < length vs'.store.list
  pub last : vs'.store.last_number ≡ number
  pub candidates_kept : vs'.candidates ≡ vs.candidates

module _ (env : Env) (vs vs' : ValidatorStore) (header : Header) (type : ValidatorType)
    (proposer : ℕ) (parent : Snapshot) (v : IsValid vs.store)
    (some_snapshot : 0 < length vs.store.list) (k : IsConsistent parent) where
  copy-IsConsistent : IsConsistent (copy parent)
  unfolding copy
  copy-IsConsistent = relabel-IsConsistent parent 0 none k

  abbrev marked : SnapshotStore → ValidatorStore
  marked st = record vs { store = update_last_block st header.number }

  IsProcessed-marked :
      (st : SnapshotStore)
      → marked st ≡ vs'
      → IsValid st × (0 < length st.list)
      → IsProcessed vs header.number vs'
  IsProcessed-marked st e h =
      let m = mark-IsValid st header.number h in
      subst (IsProcessed vs header.number) e
        (record { valid = m.0; some_snapshot = m.1; last = refl; candidates_kept = refl })

  epoch-IsProcessed :
      header.number % env.epoch_size ≡ 0
      → process_checked env vs header type proposer parent ≡ ok vs'
      → IsProcessed vs header.number vs'
  unfolding process_checked reset_snapshot
  epoch-IsProcessed e h =
      let reset = reset_snapshot env vs.store parent (copy parent) header in
      elim (Result-cases (remove_lower_snapshots env reset header.number)) [
        | inr (x, f) ↦ absurd (ground arith)
        | inl (st, f) ↦
            let copied = copy-IsConsistent in
            let saved =
              save-IsValid env vs.store parent (record (copy parent) { votes = [] }) header v
                some_snapshot (cleared-IsConsistent (copy parent) copied.set_ok) in
            IsProcessed-marked st (ground arith)
              (remove_lower-IsValid env reset st header.number saved.0 saved.1 f)
      ]

  vote-IsProcessed :
      (header.number % env.epoch_size == 0) ≡ false
      → includes parent.validators proposer ≡ true
      → process_checked env vs header type proposer parent ≡ ok vs'
      → IsProcessed vs header.number vs'
  unfolding process_checked
  vote-IsProcessed e member h = elim (Bool-cases (is_zero_miner header.miner)) [
    | inl z ↦ IsProcessed-marked vs.store (ground arith) (v, some_snapshot)
    | inr z ↦ elim (Result-cases (process_vote env (copy parent) header type proposer)) [
      | inr (x, f) ↦ absurd (ground arith)
      | inl (s, f) ↦
          let voted =
            process_vote-majority env (copy parent) s header type proposer copy-IsConsistent
              (unfold copy in member) f in
          let now = update_last_block vs.store header.number in
          let m = mark-IsValid vs.store header.number (v, some_snapshot) in
          let saved = save-IsValid env now parent s header m.0 m.1 voted.0 in
          subst (IsProcessed vs header.number)
            {x = record vs { store = save_snapshot_if_changed env now parent s header }}
            (ground arith)
            (record {
              valid = saved.0;
              some_snapshot = saved.1;
              last = last_number-save env now parent s header;
              candidates_kept = refl;
            })
    ]
  ]

  checked-IsProcessed :
      includes parent.validators proposer ≡ true
      → process_checked env vs header type proposer parent ≡ ok vs'
      → IsProcessed vs header.number vs'
  checked-IsProcessed member h = elim (Bool-cases (header.number % env.epoch_size == 0)) [
    | inl e ↦ epoch-IsProcessed (ground arith) h
    | inr e ↦ vote-IsProcessed e member h
  ]

-- A header that is processed was signed by a validator of the snapshot in force before it, and leaves
-- the store valid and not empty, with that height as its last block and the same candidates.
pub process_header-IsProcessed :
    (env : Env) (vs vs' : ValidatorStore) (header : Header)
    → IsValid vs.store
    → process_header env vs header ≡ ok vs'
    → IsProcessed vs header.number vs'
      × ((signer : Signer) × (proposer : ℕ) × (parent : Snapshot) × (env.get_signer header.number
            ≡ ok (some signer))
          × (signer.ecrecover_from_header header ≡ ok proposer)
          × (find vs.store (sub64 header.number 1) ≡ some parent)
          × (includes parent.validators proposer ≡ true))
unfolding process_header
process_header-IsProcessed env vs vs' header v h =
    let (maybe_signer, e₁, h₁) = bind-ok (env.get_signer header.number) _ h in
    let (signer, e₂, h₂) = or_fail-ok maybe_signer (signer_not_found header.number) _ h₁ in
    let (proposer, e₃, h₃) = bind-ok (signer.ecrecover_from_header header) _ h₂ in
    let (parent, e₄, h₄) =
      or_fail-ok (find vs.store (sub64 header.number 1)) snapshot_not_found _ h₃ in
    let (member, h₅) = ensure-ok (includes parent.validators proposer) unauthorized_proposer _ h₄ in
    let (_, h₆) = ensure-ok (not (env.epoch_size == 0)) panicked _ h₅ in
    let (some_snapshot, (i, at_i)) =
      find-some vs.store (sub64 header.number 1) parent v.sorted e₄ in
    let k = All-get_elem? IsConsistent vs.store.list i parent v.consistent at_i in
    (
      checked-IsProcessed env vs vs' header signer.type proposer parent v some_snapshot k member h₆,
      (signer, proposer, parent, e₁ ∙ ap (λ (o : Option Signer). ok o) e₂, e₃, e₄, member),
    )
