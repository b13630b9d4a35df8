-- ===== src/Voting/Ranges.antt =====
-- Ranges of headers, and what the store is after it has been set up.
use mainnet.Common.{
  ℕ, zero, suc, ◌+◌, ◌-◌, ◌≤◌, ◌<◌, ◌≡◌, refl, ap, ◌∙◌, subst, inl, inr, Bool, false, not, ◌||◌,
  Option, none, some, [], arith, ltb, ◌==◌, if◌then◌else◌, Bool-cases, Option-cases, same, length,
  ok, Result-cases, bind-ok, ensure-ok, or_fail-ok,
}
use mainnet.Validators.Set.{Set}
use mainnet.Validators.Set.Updates.{IsWellFormed}
use mainnet.Snapshot.{Snapshot}
use mainnet.SnapshotStore.{SnapshotStore, add, find, update_last_block}
use mainnet.Voting.Types.{
  Error, panicked, header_not_found, signer_not_found, Signer, Env, Header, ValidatorStore,
}
use mainnet.Voting.Headers.{
  process_header, process_range, process_headers_in_range, add_header_snap, is_missing, whole_range,
  restore_epoch, initialize,
}
use mainnet.Voting.Invariant.{
  IsValid, process_header-IsProcessed, find-some, add-IsValid, mark-IsValid, cleared-IsConsistent,
}

-- What every header that is processed keeps, a range of headers keeps, whether or not it ends in an
-- error.
process_range-keeps :
    (P : ValidatorStore → Type 0) (env : Env)
    → ((vs vs' : ValidatorStore) (header : Header)
        → P vs
        → process_header env vs header ≡ ok vs'
        → P vs')
    → (rounds i : ℕ) (vs : ValidatorStore) → P vs
    → P (process_range env rounds i vs).0
unfolding process_range
process_range-keeps P env step zero i vs p = p
process_range-keeps P env step (suc rounds) i vs p = elim (Bool-cases (i == 0)) [
  | inl e ↦ rw (e, process_range) (process_range-keeps P env step rounds (i + 1) vs p)
  | inr e ↦
      rw (e, process_range)
        (elim (Option-cases (env.get_header_by_number i)) [
          | inl none_here ↦ rw (none_here, process_range) p
          | inr (header, found) ↦
              rw (found, process_range)
                (elim (Result-cases (process_header env vs header)) [
                  | inr (x, failed) ↦ rw (failed, process_range) p
                  | inl (vs', done) ↦
                      rw (done, process_range)
                        (process_range-keeps P env step rounds (i + 1) vs'
                          (step vs vs' header p done))
                ])
        ])
]

abbrev IsReady : SnapshotStore → Type 0
IsReady st = IsValid st × (0 < length st.list)

process_range-IsReady :
    (env : Env) (rounds i : ℕ) (vs : ValidatorStore)
    → IsReady vs.store
    → IsReady (process_range env rounds i vs).0.store
process_range-IsReady env =
    process_range-keeps (λ vs. IsReady vs.store) env
      (λ vs vs' header p done.
        let q = (process_header-IsProcessed env vs vs' header p.0 done).0 in
        (q.valid, q.some_snapshot))

-- The chain answers a height with the header of that height.
abbrev pub AnswersHeights : Env → Type 0
AnswersHeights env =
    (n : ℕ) (header : Header) → env.get_header_by_number n ≡ some header → header.number ≡ n

-- One round that did not fail.
process_range-step :
    (env : Env) (rounds i : ℕ) (vs : ValidatorStore)
    → 0 < i
    → (process_range env (suc rounds) i vs).1 ≡ none
    → (header : Header) × (vs' : ValidatorStore) × (env.get_header_by_number i ≡ some header)
      × (process_header env vs header ≡ ok vs')
      × (process_range env (suc rounds) i vs ≡ process_range env rounds (i + 1) vs')
unfolding process_range
process_range-step env rounds i vs pos fine =
    let not_zero : (i == 0) ≡ false = ground arith in
    elim (Option-cases (env.get_header_by_number i)) [
      | inl missing ↦ absurd (ground arith)
      | inr (header, found) ↦ elim (Result-cases (process_header env vs header)) [
        | inr (x, failed) ↦ absurd (ground arith)
        | inl (vs', done) ↦ (
          header,
          vs',
          found,
          done,
          rw (not_zero, process_range) (rw (found, process_range) (rw (done, process_range))),
        )
      ]
    ]

-- A range that is processed without an error ends at its last height.
process_range-last :
    (env : Env) (rounds i : ℕ) (vs : ValidatorStore)
    → AnswersHeights env
    → IsValid vs.store
    → 0 < i
    → vs.store.last_number + 1 ≡ i
    → (process_range env rounds i vs).1 ≡ none
    → (process_range env rounds i vs).0.store.last_number + 1 ≡ i + rounds
process_range-last env zero i vs answers v h e fine = unfold process_range in omega arith
process_range-last env (suc rounds) i vs answers v h e fine =
    let (header, vs', found, done, next) = process_range-step env rounds i vs h fine in
    let p = (process_header-IsProcessed env vs vs' header v done).0 in
    let height = answers i header found in
    rw next (
      process_range-last env rounds (i + 1) vs' answers p.valid (omega arith)
        (omega (arith, p.last)) (rw next at fine)
      ∙ omega arith)

-- ProcessHeadersInRange keeps the store valid whether or not it ends in an error, and without one the
-- last block is the end of the range, if the range starts right behind the last block and the chain
-- answers each height with the header of that height.
pub process_headers_in_range-IsValid :
    (env : Env) (from to : ℕ) (vs : ValidatorStore)
    → IsValid vs.store
    → IsValid (process_headers_in_range env from to vs).0.store
      × (AnswersHeights env
          → vs.store.last_number + 1 ≡ from
          → from ≤ to
          → (process_headers_in_range env from to vs).1 ≡ none
          → (process_headers_in_range env from to vs).0.store.last_number ≡ to)
unfolding process_headers_in_range
process_headers_in_range-IsValid env from to vs v = (
  process_range-keeps (λ vs. IsValid vs.store) env
      (λ vs vs' header p done. (process_header-IsProcessed env vs vs' header p done).0.valid)
      (to + 1 - from) from vs v,
  λ answers next ordered fine.
      omega
        (arith, process_range-last env (to + 1 - from) from vs answers v (omega arith) next fine),
)

-- The signers give well-formed validator sets.
abbrev pub GivesSets : Env → Type 0
GivesSets env =
    (n : ℕ) (signer : Signer) (header : Header) (s : Set)
    → env.get_signer n ≡ ok (some signer)
    → signer.get_validators header ≡ ok s
    → IsWellFormed s

add_header_snap-IsReady :
    (env : Env) (vs vs' : ValidatorStore) (header : Header)
    → GivesSets env
    → IsValid vs.store
    → add_header_snap env vs header ≡ ok vs'
    → IsReady vs'.store
unfolding add_header_snap
add_header_snap-IsReady env vs vs' header gives v h =
    let (maybe_signer, e₁, h₁) = bind-ok (env.get_signer header.number) _ h in
    let (signer, e₂, h₂) = or_fail-ok maybe_signer (signer_not_found header.number) _ h₁ in
    let (s, e₃, h₃) = bind-ok (signer.get_validators header) _ h₂ in
    let found = e₁ ∙ ap (λ (o : Option Signer). ok o) e₂ in
    let w = gives header.number signer header s found e₃ in
    let snap : Snapshot = record {
      number = header.number;
      hash = some header.hash;
      votes = [];
      validators = s;
    } in
    subst (λ u. IsReady u.store) {x = record vs { store = add env.sorting vs.store snap }} {y = vs'}
      (ground arith) (add-IsValid env.sorting vs.store snap v (cleared-IsConsistent snap w))

restore_epoch-IsReady :
    (env : Env) (vs vs' : ValidatorStore) (begin_height : ℕ)
    → GivesSets env
    → IsValid vs.store
    → restore_epoch env vs begin_height ≡ ok vs'
    → IsReady vs'.store
unfolding restore_epoch
restore_epoch-IsReady env vs vs' begin_height gives v h =
    let (header, e₁, h₁) =
      or_fail-ok (env.get_header_by_number begin_height) (header_not_found begin_height) _ h in
    let (restored, e₂, h₂) = bind-ok (add_header_snap env vs header) _ h₁ in
    let ready = add_header_snap-IsReady env vs restored header gives v e₂ in
    subst (λ u. IsReady u.store)
      {x = record restored { store = update_last_block restored.store begin_height }} {y = vs'}
      (ground arith) (mark-IsValid restored.store begin_height ready)

-- The first step of initialize, at the genesis block.
begin-IsValid :
    (env : Env) (vs vs' : ValidatorStore)
    → GivesSets env
    → IsValid vs.store
    → (if env.header.number == 0 then add_header_snap env vs env.header else ok vs) ≡ ok vs'
    → IsValid vs'.store
begin-IsValid env vs vs' gives v h = elim (Bool-cases (env.header.number == 0)) [
  | inl e ↦ (add_header_snap-IsReady env vs vs' env.header gives v (ground arith)).0
  | inr e ↦ subst (λ u. IsValid u.store) {x = vs} {y = vs'} (ground arith) v
]

-- The second step, which restores the snapshot of the epoch where it is missing.
restore-IsReady :
    (env : Env) (vs vs' : ValidatorStore) (height : ℕ) (old_epoch : Bool)
    → GivesSets env
    → IsValid vs.store
    → (if is_missing (find vs.store env.header.number) || old_epoch
        then restore_epoch env vs height
        else ok vs)
      ≡ ok vs'
    → IsReady vs'.store
restore-IsReady env vs vs' height old_epoch gives v h =
    elim (Bool-cases (is_missing (find vs.store env.header.number) || old_epoch)) [
      | inl e ↦ restore_epoch-IsReady env vs vs' height gives v (ground arith)
      | inr e ↦ elim (Option-cases (find vs.store env.header.number)) [
        | inl missing ↦ absurd (ground arith)
        | inr (s, found) ↦
            subst (λ u. IsReady u.store) {x = vs} {y = vs'} (ground arith)
              (v, (find-some vs.store env.header.number s v.sorted found).0)
      ]
    ]

whole_range-ok :
    (r : ValidatorStore × Option Error) (vs : ValidatorStore)
    → whole_range r ≡ ok vs
    → (r.1 ≡ none) × (r.0 ≡ vs)
whole_range-ok (a, none) vs h = (refl, ground arith)
whole_range-ok (a, some e) vs h = cc

-- The last step, which processes the headers that were missed.
catch_up-IsReady :
    (env : Env) (vs vs' : ValidatorStore)
    → AnswersHeights env
    → IsReady vs.store
    → (if ltb vs.store.last_number env.header.number
        then whole_range
            (process_headers_in_range env (vs.store.last_number + 1) env.header.number vs)
        else ok vs)
      ≡ ok vs'
    → IsReady vs'.store × (env.header.number ≤ vs'.store.last_number)
catch_up-IsReady env vs vs' answers ready h =
    elim (Bool-cases (ltb vs.store.last_number env.header.number)) [
      | inr e ↦
          subst (λ u. IsReady u.store × (env.header.number ≤ u.store.last_number)) {x = vs}
            {y = vs'} (ground arith) (ready, ground arith)
      | inl e ↦
          let from = vs.store.last_number + 1 in
          let r = process_headers_in_range env from env.header.number vs in
          let (fine, same) = whole_range-ok r vs' (ground arith) in
          let last =
            (process_headers_in_range-IsValid env from env.header.number vs ready.0).1 answers refl
              (ground arith) fine in
          subst (λ u. IsReady u.store × (env.header.number ≤ u.store.last_number)) {x = r.0}
            {y = vs'} same
            (
              unfold process_headers_in_range in
                  process_range-IsReady env (env.header.number + 1 - from) from vs ready,
              omega arith,
            )
    ]

-- A store that initialize sets up is valid, is not empty, and has caught up with the header of the
-- chain, if the snapshots it was loaded with are valid, the signers give well-formed sets and the
-- chain answers each height with the header of that height.
pub initialize-IsReady :
    (env : Env) (vs vs' : ValidatorStore)
    → GivesSets env
    → AnswersHeights env
    → IsValid vs.store
    → initialize env vs ≡ ok vs'
    → IsValid vs'.store × (0 < length vs'.store.list) × (env.header.number ≤ vs'.store.last_number)
unfolding initialize
initialize-IsReady env vs vs' gives answers v h =
    let (begun, e₁, h₁) = bind-ok _ _ h in
    let (_, h₂) = ensure-ok (not (env.epoch_size == 0)) panicked _ h₁ in
    let (restored, e₂, h₃) = bind-ok _ _ h₂ in
    let ready =
      restore-IsReady env begun restored _ _ gives (begin-IsValid env vs begun gives v e₁) e₂ in
    let done = catch_up-IsReady env restored vs' answers ready h₃ in (done.0.0, done.0.1, done.1)
