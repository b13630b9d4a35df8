-- ===== src/Voting/Tally.antt =====
-- What a vote does to a consistent snapshot.
use mainnet.Common.{
  ℕ, ◌/◌, ◌≤◌, ◌<◌, ◌≡◌, refl, sym, ap, ◌∙◌, subst, ◌⊎◌, inl, inr, Bool, true, false, not, List, [],
  ◌∷◌, ◌++◌, arith, ltb, ◌==◌, if◌then◌else◌, Bool-cases, count_if, All, count_if-append,
  count_if-keep, All-keep, All-append, ok, Result-cases,
}
use mainnet.Validators.Validator.{ValidatorType, Validator, addr, eq_of_equal}
use mainnet.Validators.Set.{Set, len, includes}
use mainnet.Validators.Set.Updates.{IsWellFormed, add-IsWellFormed, del-IsWellFormed}
use mainnet.Snapshot.{
  Vote, Snapshot, add_vote, by_voter_and_candidate, by_candidate, by_voter,
  count_by_voter_and_candidate, count_by_candidate, remove_votes, remove_votes_by_voter,
  remove_votes_by_candidate,
}
use mainnet.Voting.Types.{Env, Header}
use mainnet.Voting.Miner.{is_authorize, miner_to_validator}
use mainnet.Voting.Votes.{
  adds_or_dels_candidate, settle, with_vote, cast_vote, should_process_vote, process_vote,
}

-- The validators have different addresses and one type, every vote was cast by one of them, and no
-- voter has two votes for one candidate.
pub record IsConsistent (s : Snapshot) : Type 0 where
  pub set_ok : IsWellFormed s.validators
  pub single : (voter : ℕ) (c : Validator) → count_if (by_voter_and_candidate voter c) s.votes ≤ 1
  pub cast_by_members : All (λ v. includes s.validators v.validator ≡ true) s.votes

-- The vote that add_vote appends, counted under any voter and candidate.
count_if-new_vote :
    (w : Vote) (voter : ℕ) (c : Validator) → count_if (by_voter_and_candidate voter c) (w ∷ []) ≤ 1
unfolding count_if
count_if-new_vote w voter c = ground arith

add_vote-single :
    (votes : List Vote) (w : Vote) (voter : ℕ) (c : Validator)
    → count_if (by_voter_and_candidate w.validator w.candidate) votes ≡ 0
    → count_if (by_voter_and_candidate voter c) votes ≤ 1
    → count_if (by_voter_and_candidate voter c) (votes ++ w ∷ []) ≤ 1
unfolding count_if
add_vote-single votes w voter c none_yet most =
    elim (Bool-cases (by_voter_and_candidate voter c w)) [
      | inr e ↦
          rw (count_if-append (by_voter_and_candidate voter c) votes (w ∷ []), e) (omega arith)
      | inl e ↦
          let same_voter : w.validator ≡ voter = ground arith in
          let same_candidate : w.candidate ≡ c = eq_of_equal w.candidate c (ground arith) in
          let zero_here : count_if (by_voter_and_candidate voter c) votes ≡ 0 =
            subst (λ d. count_if (by_voter_and_candidate voter d) votes ≡ 0) same_candidate
              (subst (λ u. count_if (by_voter_and_candidate u w.candidate) votes ≡ 0) same_voter
                none_yet) in
          omega (
            arith,
            count_if-append (by_voter_and_candidate voter c) votes (w ∷ []),
            count_if-new_vote w voter c,
          )
    ]

pub add_vote-IsConsistent :
    (s : Snapshot) (voter : ℕ) (c : Validator) (authorize : Bool)
    → IsConsistent s
    → includes s.validators voter ≡ true
    → count_by_voter_and_candidate s voter c ≡ 0
    → IsConsistent (add_vote s voter c authorize)
unfolding add_vote count_by_voter_and_candidate
add_vote-IsConsistent s voter c authorize k member none_yet = record {
  set_ok = k.set_ok;
  single = λ u d. add_vote-single s.votes _ u d none_yet (k.single u d);
  cast_by_members = All-append _ s.votes _ k.cast_by_members member;
}

-- Removing votes, with a set in which the voters that are left still are.
remove_votes-IsConsistent :
    (s : Snapshot) (t : Set) (h : Vote → Bool)
    → IsConsistent s
    → IsWellFormed t
    → ((v : Vote)
        → not (h v) ≡ true
        → includes s.validators v.validator ≡ true
        → includes t v.validator ≡ true)
    → IsConsistent (remove_votes h (record s { validators = t }))
unfolding remove_votes
remove_votes-IsConsistent s t h k w stays = record {
  set_ok = w;
  single = λ u d.
      omega
        (arith, count_if-keep (by_voter_and_candidate u d) (λ v. not (h v)) s.votes, k.single u d);
  cast_by_members = All-keep _ _ _ s.votes stays k.cast_by_members;
}

-- The snapshot after the set has changed to t.
abbrev settled : Snapshot → Set → Validator → Bool → Snapshot
settled s t c authorize =
    let changed : Snapshot = record s { validators = t } in
    remove_votes_by_candidate
      (if authorize then changed else remove_votes_by_voter changed (addr c)) c

-- The set changes exactly where more than half of the validators voted for the candidate.
pub settle_outcomes :
    (s t : Snapshot) (c : Validator) (authorize : Bool)
    → settle s c authorize ≡ ok t
    → ((count_by_candidate s c ≤ len s.validators / 2) × (t ≡ s))
      ⊎ ((len s.validators / 2 < count_by_candidate s c)
          × ((u : Set) × (adds_or_dels_candidate s.validators c authorize ≡ ok u)
              × (t ≡ settled s u c authorize)))
unfolding settle
settle_outcomes s t c authorize h =
    elim (Bool-cases (ltb (len s.validators / 2) (count_by_candidate s c))) [
      | inr e ↦ inl (ground arith, ground arith)
      | inl e ↦ elim (Result-cases (adds_or_dels_candidate s.validators c authorize)) [
        | inl (u, f) ↦ inr (ground arith, (u, f, ground arith))
        | inr (x, f) ↦ absurd (ground arith)
      ]
    ]

settled-IsConsistent :
    (s : Snapshot) (t : Set) (c : Validator) (authorize : Bool)
    → IsConsistent s
    → adds_or_dels_candidate s.validators c authorize ≡ ok t
    → IsConsistent (settled s t c authorize)
unfolding remove_votes_by_candidate remove_votes_by_voter
settled-IsConsistent s t c true k h =
    let (w, holds, _) = add-IsWellFormed s.validators t c k.set_ok h in
    remove_votes-IsConsistent s t (by_candidate c) k w
      (λ v kept m. holds v.validator ∙ ground arith)
settled-IsConsistent s t c false k h =
    let (w, holds, _) = del-IsWellFormed s.validators t c k.set_ok h in
    let others =
      remove_votes-IsConsistent s t (by_voter (addr c)) k w
        (λ v kept m. holds v.validator ∙ ground arith) in
    remove_votes-IsConsistent (remove_votes (by_voter (addr c)) (record s { validators = t })) t
      (by_candidate c) others w (λ v kept m. m)

settle-IsConsistent :
    (s t : Snapshot) (c : Validator) (authorize : Bool)
    → IsConsistent s
    → settle s c authorize ≡ ok t
    → IsConsistent t
settle-IsConsistent s t c authorize k h = elim (settle_outcomes s t c authorize h) [
  | inl (few, e) ↦ subst IsConsistent (sym e) k
  | inr (many, (u, f, e)) ↦ subst IsConsistent (sym e) (settled-IsConsistent s u c authorize k f)
]

with_vote-IsConsistent :
    (s : Snapshot) (proposer : ℕ) (c : Validator) (authorize : Bool)
    → IsConsistent s
    → includes s.validators proposer ≡ true
    → IsConsistent (with_vote s proposer c authorize)
unfolding with_vote
with_vote-IsConsistent s proposer c authorize k member =
    elim (Bool-cases (count_by_voter_and_candidate s proposer c == 0)) [
      | inl e ↦ rw e (add_vote-IsConsistent s proposer c authorize k member (ground arith))
      | inr e ↦ rw e k
    ]

validators-with_vote :
    (s : Snapshot) (proposer : ℕ) (c : Validator) (authorize : Bool)
    → (with_vote s proposer c authorize).validators ≡ s.validators
unfolding with_vote add_vote
validators-with_vote s proposer c authorize = ground arith

-- Against a consistent snapshot no proposer is found to have voted twice.
pub cast_vote-eq-settle :
    (s : Snapshot) (c : Validator) (authorize : Bool) (proposer : ℕ)
    → IsConsistent s
    → cast_vote s c authorize proposer ≡ settle (with_vote s proposer c authorize) c authorize
unfolding cast_vote count_by_voter_and_candidate
cast_vote-eq-settle s c authorize proposer k = ground (arith, k.single proposer c)

-- A change that a vote makes to the set of s: which candidate, which way, and by what majority.
abbrev pub IsMajorityChange : Env → Snapshot → Header → ValidatorType → ℕ → Set → Type 0
IsMajorityChange env s header type proposer t =
    (c : Validator) × (authorize : Bool) × (is_authorize header.nonce ≡ ok authorize)
    × (miner_to_validator env type header.miner ≡ ok c)
    × (adds_or_dels_candidate s.validators c authorize ≡ ok t)
    × (len s.validators / 2 < count_by_candidate (with_vote s proposer c authorize) c)

validators-settled :
    (s : Snapshot) (u : Set) (c : Validator) (authorize : Bool)
    → (settled s u c authorize).validators ≡ u
unfolding remove_votes_by_candidate remove_votes_by_voter
validators-settled s u c true = refl
validators-settled s u c false = refl

cast_vote-majority :
    (env : Env) (s t : Snapshot) (header : Header) (type : ValidatorType) (proposer : ℕ)
    (c : Validator) (authorize : Bool)
    → is_authorize header.nonce ≡ ok authorize
    → miner_to_validator env type header.miner ≡ ok c
    → IsConsistent s
    → includes s.validators proposer ≡ true
    → cast_vote s c authorize proposer ≡ ok t
    → IsConsistent t
      × ((t.validators ≡ s.validators) ⊎ IsMajorityChange env s header type proposer t.validators)
cast_vote-majority env s t header type proposer c authorize n m k member h =
    let s' = with_vote s proposer c authorize in
    let same_set = validators-with_vote s proposer c authorize in
    let h' : settle s' c authorize ≡ ok t =
      sym (cast_vote-eq-settle s c authorize proposer k) ∙ h in
    (
      settle-IsConsistent s' t c authorize (with_vote-IsConsistent s proposer c authorize k member)
          h',
      elim (settle_outcomes s' t c authorize h') [
        | inl (few, e) ↦ inl (ap (λ (x : Snapshot). x.validators) e ∙ same_set)
        | inr (many, (u, f, e)) ↦
            let new_set : t.validators ≡ u =
              ap (λ (x : Snapshot). x.validators) e ∙ validators-settled s' u c authorize in
            inr (
              c,
              authorize,
              n,
              m,
              subst (λ v. adds_or_dels_candidate v c authorize ≡ ok t.validators) same_set
                  (f ∙ ap (λ (v : Set). ok v) (sym new_set)),
              subst (λ v. len v / 2 < count_by_candidate s' c) same_set many,
            )
      ],
    )

-- A vote of a member against a consistent snapshot leaves it consistent: well-formed set, votes of
-- members only, at most one vote for each voter and candidate. The set changes only to add or delete
-- the candidate that the header names, and only if more than half of the validators voted for it.
pub process_vote-majority :
    (env : Env) (s t : Snapshot) (header : Header) (type : ValidatorType) (proposer : ℕ)
    → IsConsistent s
    → includes s.validators proposer ≡ true
    → process_vote env s header type proposer ≡ ok t
    → IsConsistent t
      × ((t.validators ≡ s.validators) ⊎ IsMajorityChange env s header type proposer t.validators)
unfolding process_vote
process_vote-majority env s t header type proposer k member h =
    elim (Result-cases (is_authorize header.nonce)) [
      | inr (x, n) ↦ absurd (ground arith)
      | inl (authorize, n) ↦ elim (Result-cases (miner_to_validator env type header.miner)) [
        | inr (x, m) ↦ absurd (ground arith)
        | inl (c, m) ↦ elim (Bool-cases (should_process_vote s.validators (addr c) authorize)) [
          | inr no_vote ↦
              let same : t ≡ s = ground arith in
              (subst IsConsistent (sym same) k, inl (ap (λ (x : Snapshot). x.validators) same))
          | inl vote ↦
              cast_vote-majority env s t header type proposer c authorize n m k member
                (ground arith)
        ]
      ]
    ]
