-- ===== src/Voting/Proposals.antt =====
-- What a node proposes, and that others read from its headers what it meant.
use mainnet.Common.{
  ℕ, ◌^◌, ◌<◌, ◌≡◌, refl, sym, ap, subst, ◌≢◌, Bool, true, false, not, ◌&&◌, ◌||◌, some, List, [],
  ◌∷◌, ◌++◌, arith, ◌==◌, ok, ensure-ok, or_fail-ok,
}
use mainnet.Validators.Validator.{ValidatorType, Validator, addr, type_of}
use mainnet.Validators.Set.{Set, index, at, includes}
use mainnet.Validators.Set.Uniqueness.{get_elem?-index_in}
use mainnet.Snapshot.{Snapshot, count_by_voter_and_candidate}
use mainnet.SnapshotStore.{find}
use mainnet.Voting.Types.{
  snapshot_not_found, already_candidate, candidate_is_validator, candidate_not_exist_in_set,
  already_voted, panicked, Env, Header, Candidate, ValidatorStore,
}
use mainnet.Voting.Miner.{miner_to_validator, is_authorize, verify_header}
use mainnet.Voting.Headers.{is_zero_miner}
use mainnet.Voting.Candidates.{is_candidate, add_candidate, propose}

-- No two candidates share an address.
abbrev pub AreDistinct : List Candidate → Type 0
AreDistinct [] = Unit
AreDistinct (c ∷ cs) = (is_candidate cs (addr c.validator) ≡ false) × AreDistinct cs

is_candidate-append :
    (cs : List Candidate) (c : Candidate) (a : ℕ)
    → is_candidate (cs ++ c ∷ []) a ≡ (is_candidate cs a || addr c.validator == a)
unfolding is_candidate
is_candidate-append [] c a = ground arith
is_candidate-append (d ∷ cs) c a = ground (arith, is_candidate-append cs c a)

append-AreDistinct :
    (cs : List Candidate) (c : Candidate)
    → is_candidate cs (addr c.validator) ≡ false
    → AreDistinct cs
    → AreDistinct (cs ++ c ∷ [])
unfolding is_candidate
append-AreDistinct [] c h d = (refl, tt)
append-AreDistinct (e ∷ cs) c h d = (
  ground (arith, is_candidate-append cs c (addr e.validator)),
  append-AreDistinct cs c (ground arith) d.1,
)

-- What addCandidate appends has the address that was asked for.
add_candidate-appends :
    (vs vs' : ValidatorStore) (s : Set) (v : Validator) (authorize : Bool)
    → add_candidate vs s v authorize ≡ ok vs'
    → (w : Validator) × (addr w ≡ addr v)
      × (vs' ≡ record vs {
        candidates = vs.candidates ++ record { validator = w; authorize = authorize } ∷ [];
      })
unfolding add_candidate
add_candidate-appends vs vs' s v true h = (v, refl, ground arith)
add_candidate-appends vs vs' s v false h =
    let (i, e₁, h₁) = or_fail-ok (index s (addr v)) candidate_not_exist_in_set _ h in
    let (w, e₂, h₂) = or_fail-ok (at s i) panicked _ h₁ in
    let (u, at_i, same_addr) = get_elem?-index_in s.members (addr v) i e₁ in
    (w, ground (arith, same_addr), ground arith)

-- Propose accepts a candidate only if no candidate has its address, the latest snapshot does not
-- already show what is proposed, and the proposer has not voted once for it. It then appends one
-- candidate of that address, so that the addresses of the candidates stay different, and writes
-- nothing else.
propose-AreDistinct :
    (vs vs' : ValidatorStore) (v : Validator) (auth : Bool) (proposer : ℕ)
    → AreDistinct vs.candidates
    → propose vs v auth proposer ≡ ok vs'
    → AreDistinct vs'.candidates
      × (vs'.store ≡ vs.store)
      × (is_candidate vs.candidates (addr v) ≡ false)
      × (is_candidate vs'.candidates (addr v) ≡ true)
      × ((snap : Snapshot) × (find vs.store vs.store.last_number ≡ some snap)
          × (includes snap.validators (addr v) ≡ not auth)
          × (count_by_voter_and_candidate snap proposer v ≢ 1))
unfolding propose
propose-AreDistinct vs vs' v auth proposer d h =
    let (fresh, h₁) = ensure-ok (not (is_candidate vs.candidates (addr v))) already_candidate _ h in
    let (snap, e, h₂) = or_fail-ok (find vs.store vs.store.last_number) snapshot_not_found _ h₁ in
    let (no_add, h₃) =
      ensure-ok (not (auth && includes snap.validators (addr v))) candidate_is_validator _ h₂ in
    let (no_del, h₄) =
      ensure-ok (not (not auth && not (includes snap.validators (addr v))))
        candidate_not_exist_in_set _ h₃ in
    let (no_vote, h₅) =
      ensure-ok (not (count_by_voter_and_candidate snap proposer v == 1)) already_voted _ h₄ in
    let (w, same_addr, appended) = add_candidate-appends vs vs' snap.validators v auth h₅ in
    let new : Candidate = record { validator = w; authorize = auth } in
    let fresh' : is_candidate vs.candidates (addr w) ≡ false =
      subst (λ a. is_candidate vs.candidates a ≡ false) (sym same_addr) (ground arith) in
    (
      subst (λ u. AreDistinct u.candidates) (sym appended)
          (append-AreDistinct vs.candidates new fresh' d),
      ap (λ (u : ValidatorStore). u.store) appended,
      ground arith,
      subst (λ u. is_candidate u.candidates (addr v) ≡ true) (sym appended)
          (ground (arith, is_candidate-append vs.candidates new (addr v))),
      (snap, e, ground arith, ground arith),
    )

-- A candidate that the set does not yet show as voted.
abbrev pub IsOpen : Set → Candidate → Type 0
IsOpen s c = includes s (addr c.validator) ≡ not c.authorize

-- What another node reads from a header, with a signer of some type: the header is accepted, its miner field
-- is set, and it names the candidate and the direction.
abbrev pub IsReadAs : Env → ValidatorType → Header → Candidate → Type 0
IsReadAs env type h c =
    (verify_header h ≡ ok tt)
    × (is_zero_miner h.miner ≡ false)
    × (is_authorize h.nonce ≡ ok c.authorize)
    × (miner_to_validator env type h.miner ≡ ok c.validator)

-- A candidate of the type of the signer, with an address that a header can name.
abbrev pub IsNameable : ValidatorType → Candidate → Type 0
IsNameable type c =
    (type_of c.validator ≡ type) × (0 < addr c.validator) × (addr c.validator < 2 ^ 160)
