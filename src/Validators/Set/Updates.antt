-- ===== src/Validators/Set/Updates.antt =====
-- How Add, Del and Merge change a set: membership, order, errors, and the well-formedness kept.
use mainnet.Common.{
  ℕ, zero, suc, ◌+◌, ◌≡◌, refl, sym, ap, ◌∙◌, subst, ◌⊎◌, inl, inr, true, false, Option, none, some,
  List, [], ◌∷◌, ◌++◌, arith, ◌==◌, if◌then◌else◌, Bool-cases, Option-cases, erase_at,
  length-append, length-erase_at, All, All-append, ok, err,
}
use mainnet.Validators.Validator.{Validator, same_type, type_of, addr}
use mainnet.Validators.Set.{
  Set, len, Error, mismatch_validator_type, already_exists, not_found, index_in, index, is_found,
  includes, add, del, merge_members, merge,
}
use mainnet.Validators.Set.Uniqueness.{
  IsDistinct, is_found-append, append-IsDistinct, index_in-lt-length, is_found-erase_at,
  erase_at-IsDistinct, index_in-append_new, erase_at-append,
}

-- No two members share an address, and every member has the type of the set.
pub record IsWellFormed (s : Set) : Type 0 where
  pub distinct : IsDistinct s.members
  pub typed : All (λ v. same_type s.validator_type (type_of v) ≡ true) s.members

All-erase_at {ℓ κ} :
    {A : Type ℓ} (P : A → Type κ) (i : ℕ) (xs : List A) → All P xs → All P (erase_at i xs)
All-erase_at P i [] h = tt
All-erase_at P zero (x ∷ xs) h = h.1
All-erase_at P (suc i) (x ∷ xs) h = (h.0, All-erase_at P i xs h.1)

-- What a successful Add knows and writes.
pub add-ok :
    (s t : Set) (v : Validator)
    → add s v ≡ ok t
    → (same_type s.validator_type (type_of v) ≡ true)
      × (includes s (addr v) ≡ false)
      × (t ≡ record s { members = s.members ++ v ∷ [] })
unfolding add
add-ok s t v h = ground arith

-- Add either appends a validator of the set's type whose address is new, or reports which of the
-- two conditions failed, the type first.
pub add_outcomes :
    (s : Set) (v : Validator)
    → add s v ≡ (
        if same_type s.validator_type (type_of v)
        then (if includes s (addr v)
            then err already_exists
            else ok (record s { members = s.members ++ v ∷ [] }))
        else err mismatch_validator_type)
unfolding add
add_outcomes s v = ground arith

-- A successful Add keeps the set well-formed, makes exactly the added address a new member, and
-- grows the set by one.
pub add-IsWellFormed :
    (s t : Set) (v : Validator)
    → IsWellFormed s
    → add s v ≡ ok t
    → IsWellFormed t
      × ((a : ℕ) → includes t a ≡ (if addr v == a then true else includes s a))
      × (len t ≡ len s + 1)
add-IsWellFormed s t v w h =
    let (typ, fresh, e) = add-ok s t v h in
    subst
      (λ u.
        IsWellFormed u
        × ((a : ℕ) → includes u a ≡ (if addr v == a then true else includes s a))
        × (len u ≡ len s + 1))
      (sym e)
      (
        record {
          distinct = append-IsDistinct s.members v fresh w.distinct;
          typed = All-append _ s.members v w.typed typ;
        },
        is_found-append s.members v,
        length-append s.members (v ∷ []),
      )

-- What a successful Del knows and writes.
pub del-ok :
    (s t : Set) (v : Validator)
    → del s v ≡ ok t
    → (i : ℕ) × (index s (addr v) ≡ some i) × (t ≡ record s { members = erase_at i s.members })
unfolding del
del-ok s t v h = elim (Bool-cases (same_type s.validator_type (type_of v))) [
  | inl typ ↦ elim (Option-cases (index s (addr v))) [
    | inl e ↦ absurd (ground arith)
    | inr (i, e) ↦ (i, e, ground arith)
  ]
  | inr typ ↦ absurd (ground arith)
]

-- A successful Del keeps the set well-formed, takes exactly the given address out of it, and shrinks
-- the set by one.
pub del-IsWellFormed :
    (s t : Set) (v : Validator)
    → IsWellFormed s
    → del s v ≡ ok t
    → IsWellFormed t
      × ((a : ℕ) → includes t a ≡ (if addr v == a then false else includes s a))
      × (len t + 1 ≡ len s)
del-IsWellFormed s t v w h =
    let (i, found, e) = del-ok s t v h in
    subst
      (λ u.
        IsWellFormed u
        × ((a : ℕ) → includes u a ≡ (if addr v == a then false else includes s a))
        × (len u + 1 ≡ len s))
      (sym e)
      (
        record {
          distinct = erase_at-IsDistinct s.members (addr v) i w.distinct found;
          typed = All-erase_at _ i s.members w.typed;
        },
        λ a. is_found-erase_at s.members (addr v) i a w.distinct found,
        length-erase_at i s.members (index_in-lt-length s.members (addr v) i found),
      )

-- Del reports a wrong type before a missing address, and otherwise succeeds.
pub del_outcomes :
    (s : Set) (v : Validator)
    → ((same_type s.validator_type (type_of v) ≡ false) × (del s v ≡ err mismatch_validator_type))
      ⊎ ((same_type s.validator_type (type_of v) ≡ true)
          × (includes s (addr v) ≡ false)
          × (del s v ≡ err not_found))
      ⊎ ((same_type s.validator_type (type_of v) ≡ true)
          × (includes s (addr v) ≡ true)
          × ((t : Set) × (del s v ≡ ok t)))
unfolding del
del_outcomes s v = elim (Bool-cases (same_type s.validator_type (type_of v))) [
  | inr typ ↦ inl (typ, rw typ)
  | inl typ ↦ elim (Option-cases (index s (addr v))) [
    | inl e ↦ inr (inl (typ, rw e, rw (typ, e)))
    | inr (i, e) ↦ inr (inr (typ, rw e, (record s { members = erase_at i s.members }, rw (typ, e))))
  ]
]

-- Deleting a validator that was just added gives the set back, order included.
del-add : (s t : Set) (v : Validator) → add s v ≡ ok t → del t v ≡ ok s
del-add s t v h =
    let (typ, fresh, e) = add-ok s t v h in
    subst (λ u. del u v ≡ ok s) (sym e)
      (unfold del in
        rw (typ, index_in-append_new s.members v fresh)
          (ap (λ (m : List Validator). ok (record s { members = m }))
            (erase_at-append s.members v)))

merge_members-old :
    (s : Set) (v : Validator) (vs : List Validator)
    → includes s (addr v) ≡ true
    → merge_members s (v ∷ vs) ≡ merge_members s vs
unfolding merge_members
merge_members-old s v vs e = rw (e, merge_members)

merge_members-new :
    (s t : Set) (v : Validator) (vs : List Validator)
    → add s v ≡ ok t
    → merge_members s (v ∷ vs) ≡ merge_members t vs
merge_members-new s t v vs e =
    let fresh = (add-ok s t v e).1 in
    unfold merge_members in rw (fresh, merge_members) (rw (e, merge_members))

-- A result of Merge that failed nowhere, is well-formed, and holds the addresses of both sides.
abbrev pub Merges : Set → List Validator → Set × Option Error → Type 0
Merges s vs r =
    (r.1 ≡ none)
    × IsWellFormed r.0
    × (r.0.validator_type ≡ s.validator_type)
    × ((a : ℕ) → includes r.0 a ≡ (if includes s a then true else is_found (index_in vs a)))

Merges-add :
    (s t : Set) (v : Validator) (vs : List Validator) (r : Set × Option Error)
    → IsWellFormed s
    → add s v ≡ ok t
    → Merges t vs r
    → Merges s (v ∷ vs) r
unfolding index_in
Merges-add s t v vs r w e m = (
  m.0,
  m.1,
  m.2 ∙ ap (λ (u : Set). u.validator_type) (add-ok s t v e).2,
  λ a. ground (arith, m.3 a, (add-IsWellFormed s t v w e).1 a, Option-cases (index_in vs a)),
)

Merges-old :
    (s : Set) (v : Validator) (vs : List Validator) (r : Set × Option Error)
    → includes s (addr v) ≡ true
    → Merges s vs r
    → Merges s (v ∷ vs) r
unfolding index_in
Merges-old s v vs r e m = (
  m.0,
  m.1,
  m.2,
  λ a. ground (arith, m.3 a, ap (λ (x : ℕ). includes s x), Option-cases (index_in vs a)),
)

merge_members-Merges :
    (vs : List Validator) (s : Set)
    → IsWellFormed s
    → All (λ v. same_type s.validator_type (type_of v) ≡ true) vs
    → Merges s vs (merge_members s vs)
merge_members-Merges [] s w typed =
    unfold merge_members index_in in (refl, w, refl, λ a. ground arith)
merge_members-Merges (v ∷ vs) s w typed = elim (Bool-cases (includes s (addr v))) [
  | inl e ↦
      rw (merge_members-old s v vs e) (Merges-old s v vs _ e (merge_members-Merges vs s w typed.1))
  | inr e ↦
      let t : Set = record s { members = s.members ++ v ∷ [] } in
      let added : add s v ≡ ok t = add_outcomes s v ∙ rw (typed.0, e) in
      rw (merge_members-new s t v vs added) (
        Merges-add s t v vs _ w added
          (merge_members-Merges vs t (add-IsWellFormed s t v w added).0 typed.1))
]

-- Merging a set whose members have the receiver's type never fails: the result is well-formed and
-- its addresses are exactly those of the two sets.
merge-union :
    (s t : Set)
    → IsWellFormed s
    → All (λ v. same_type s.validator_type (type_of v) ≡ true) t.members
    → same_type s.validator_type t.validator_type ≡ true
    → (merge s t).1 ≡ none
      × IsWellFormed (merge s t).0
      × ((a : ℕ) → includes (merge s t).0 a ≡ (if includes s a then true else includes t a))
unfolding merge
merge-union s t w typed same_types =
    rw same_types (let m = merge_members-Merges t.members s w typed in (m.0, m.1, m.3))
