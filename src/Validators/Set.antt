-- ===== src/Validators/Set.antt =====
-- validators/set.go and the constructors of validators/helper.go: an ordered set of validators of
-- one type. A method that mutates the set returns the new set; on an error nothing is written.
pub mod Uniqueness
pub mod Updates
use mainnet.Common.{
  ℕ, zero, suc, ◌≡◌, Bool, true, false, not, ◌&&◌, Option, none, some, List, [], ◌∷◌, ◌++◌, ◌==◌,
  if◌then◌else◌, length, get_elem?, erase_at, map, Result, ok, err, ◌>>=◌, ◌>>◌, ensure, or_fail,
}
use mainnet.Validators.Validator.{
  ValidatorType, ecdsa, bls, same_type, Validator, ecdsa_validator, bls_validator, type_of, addr,
  equal,
}

pub data Error : Type 0 where
  mismatch_validator_type mismatch_validators_type already_exists not_found : Error

pub record Set : Type 0 where
  pub validator_type : ValidatorType
  pub members : List Validator

pub new_ecdsa_validator_set : List ℕ → Set
new_ecdsa_validator_set addrs = record {
  validator_type = ecdsa;
  members = map ecdsa_validator addrs;
}

abbrev pub len : Set → ℕ
len s = length s.members

-- `none` is Go's index panic.
abbrev pub at : Set → ℕ → Option Validator
at s i = get_elem? s.members i

-- `none` stands for -1.
unfoldable pub index_in : List Validator → ℕ → Option ℕ
index_in [] a = none
index_in (v ∷ vs) a =
    let rest = index_in vs a in
    if addr v == a then some 0 else elim rest [ none ↦ none | some i ↦ some (suc i) ]

abbrev pub index : Set → ℕ → Option ℕ
index s a = index_in s.members a

abbrev pub is_found : Option ℕ → Bool
is_found none = false
is_found (some i) = true

abbrev pub includes : Set → ℕ → Bool
includes s a = is_found (index s a)

-- The loop of Equal over two slices of one length.
unfoldable pub equal_members : List Validator → List Validator → Bool
unfolding equal
equal_members [] [] = true
equal_members (v ∷ vs) (w ∷ ws) = equal v w && equal_members vs ws
equal_members _ _ = false

unfoldable pub equal_set : Set → Set → Bool
unfolding equal_members
equal_set s t =
    if same_type s.validator_type t.validator_type
    then (if len s == len t then equal_members s.members t.members else false)
    else false

unfoldable pub add : Set → Validator → Result Error Set
add s v = do
  ensure (same_type s.validator_type (type_of v)) mismatch_validator_type
  ensure (not (includes s (addr v))) already_exists
  ok (record s { members = s.members ++ v ∷ [] })

unfoldable pub del : Set → Validator → Result Error Set
del s v = do
  ensure (same_type s.validator_type (type_of v)) mismatch_validator_type
  i ← or_fail (index s (addr v)) not_found
  ok (record s { members = erase_at i s.members })

-- The loop of Merge. An error leaves what was added before it, so the set comes back beside it.
unfoldable pub merge_members : Set → List Validator → Set × Option Error
merge_members s [] = (s, none)
merge_members s (v ∷ vs) = elim (includes s (addr v)) [
  | true ↦ merge_members s vs
  | false ↦ elim (add s v) [ ok t ↦ merge_members t vs | err e ↦ (s, some e) ]
]

unfoldable pub merge : Set → Set → Set × Option Error
unfolding merge_members
merge s t =
    if same_type s.validator_type t.validator_type
    then merge_members s t.members
    else (s, some mismatch_validators_type)
