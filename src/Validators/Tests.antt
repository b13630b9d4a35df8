-- ===== src/Validators/Tests.antt =====
-- The theorems on validator sets at concrete inputs.
use mainnet.Common.{
  not, ◌&&◌, ◌==◌, inl, count_if, ◌+◌, ◌≤◌, ◌<◌, ◌≡◌, refl, ◌⊎◌, true, false, some, [], ◌∷◌, arith,
  ok, err,
}
use mainnet.Validators.Validator.{ecdsa, addr, Validator, ecdsa_validator, same_type}
use mainnet.Validators.Set.{Set, mismatch_validator_type, not_found, index_in, includes, add, del}
use mainnet.Validators.Set.Updates.{IsWellFormed, del_outcomes}
use mainnet.Validators.Quorum.{
  calc_max_faulty_nodes, legacy_quorum_size, optimal_quorum_size, calc_proposer, quorums_overlap,
  quorum_reachable, calc_proposer_total,
}

abbrev two : Set
two = record { validator_type = ecdsa; members = ecdsa_validator 7 ∷ ecdsa_validator 8 ∷ [] }

abbrev nine : Validator
nine = ecdsa_validator 9

abbrev with_nine : Set
with_nine = record two { members = ecdsa_validator 7 ∷ ecdsa_validator 8 ∷ nine ∷ [] }

two-IsWellFormed : IsWellFormed two
unfolding index_in
two-IsWellFormed = record { distinct = (refl, (refl, tt)); typed = (refl, (refl, tt)) }

added : add two nine ≡ ok with_nine
unfolding add index_in
added = refl

deleted : del with_nine nine ≡ ok two
unfolding del index_in
deleted = refl

del_outcomes_example :
    ((same_type two.validator_type ecdsa ≡ false) × (del two nine ≡ err mismatch_validator_type))
    ⊎ ((same_type two.validator_type ecdsa ≡ true)
        × (includes two 9 ≡ false)
        × (del two nine ≡ err not_found))
    ⊎ ((same_type two.validator_type ecdsa ≡ true)
        × (includes two 9 ≡ true)
        × ((t : Set) × (del two nine ≡ ok t)))
del_outcomes_example = del_outcomes two nine

abbrev others : Set
others = record { validator_type = ecdsa; members = ecdsa_validator 8 ∷ nine ∷ [] }

abbrev four : Set
four = record with_nine { members = ecdsa_validator 6 ∷ with_nine.members }

quorums_overlap_example :
    calc_max_faulty_nodes four < count_if (λ v. not (addr v == 6) && not (addr v == 7)) four.members
unfolding count_if optimal_quorum_size calc_max_faulty_nodes
quorums_overlap_example =
    quorums_overlap four 3 (λ v. not (addr v == 6)) (λ v. not (addr v == 7)) (omega arith)
      (inl refl) (omega arith) (omega arith)

quorum_reachable_example :
    (0 < optimal_quorum_size four)
    × (optimal_quorum_size four + calc_max_faulty_nodes four ≤ 4)
    × (legacy_quorum_size four + calc_max_faulty_nodes four ≤ 4)
    × (legacy_quorum_size four ≤ optimal_quorum_size four)
quorum_reachable_example = quorum_reachable four (omega arith)

calc_proposer_total_example : (v : Validator) × (calc_proposer four 3 7 ≡ some v)
calc_proposer_total_example = calc_proposer_total four 3 7 (omega arith)
