-- ===== src/Validators/Quorum.antt =====
-- validators/validators.go: how many validators may be faulty, the quorum sizes, and the proposer.
-- The division of Go rounds towards 0, so an empty set has (0 - 1) / 3 = 0 faulty nodes, which is
-- what the truncated subtraction gives. The float64 ceiling of 2n/3 is exact for every length a
-- slice can have, and is written over the naturals.
use mainnet.Common.{
  ◌⊎◌, inl, inr, Bool, ◌&&◌, List, [], ◌∷◌, length, count_if, ℕ, ◌+◌, ◌-◌, ◌*◌, ◌/◌, ◌%◌, ◌^◌, ◌≤◌,
  ◌<◌, ◌≡◌, ◌≢◌, Option, none, some, arith, ◌==◌, if◌then◌else◌, get_elem?-total,
}
use mainnet.Validators.Validator.{Validator}
use mainnet.Validators.Set.{Set, len, at, index}
use mainnet.Validators.Set.Uniqueness.{index_in-lt-length}

unfoldable pub calc_max_faulty_nodes : Set → ℕ
calc_max_faulty_nodes s = (len s - 1) / 3

unfoldable pub legacy_quorum_size : Set → ℕ
unfolding calc_max_faulty_nodes
legacy_quorum_size s = 2 * calc_max_faulty_nodes s + 1

unfoldable pub optimal_quorum_size : Set → ℕ
unfolding calc_max_faulty_nodes
optimal_quorum_size s = if calc_max_faulty_nodes s == 0 then len s else (2 * len s + 2) / 3

abbrev pub word : ℕ
word = 2 ^ 64

-- The address 0 means that no block has been proposed yet; an unknown proposer counts as the first.
proposer_seed : Set → ℕ → ℕ → ℕ
proposer_seed s round last =
    if last == 0 then round else (elim (index s last) [ none ↦ 0 | some i ↦ i ] + round + 1) % word

pub calc_proposer : Set → ℕ → ℕ → Option Validator
unfolding proposer_seed
calc_proposer s round last = if len s == 0 then none else at s (proposer_seed s round last % len s)

-- The size of a quorum that is safe: the optimal one, or the legacy one of a set of 3f + 1 members.
abbrev pub IsSafe : Set → ℕ → Type 0
IsSafe s size =
    (size ≡ optimal_quorum_size s)
    ⊎ ((size ≡ legacy_quorum_size s) × (len s ≡ 3 * calc_max_faulty_nodes s + 1))

-- Of the members that pass one of two tests or the other, those that pass both count twice.
count_if-both :
    (p q : Validator → Bool) (vs : List Validator)
    → count_if p vs + count_if q vs ≤ length vs + count_if (λ v. p v && q v) vs
unfolding count_if
count_if-both p q [] = omega arith
count_if-both p q (v ∷ vs) = ground (arith, count_if-both p q vs)

-- Of a set that is not empty, let two groups of members sign, each at least as many as a quorum of the
-- optimal size, or of the legacy size where the set has 3f + 1 members. Then more members than may be faulty
-- sign in both groups.
pub quorums_overlap :
    (s : Set) (size : ℕ) (one other : Validator → Bool)
    → 0 < len s
    → IsSafe s size
    → size ≤ count_if one s.members
    → size ≤ count_if other s.members
    → calc_max_faulty_nodes s < count_if (λ v. one v && other v) s.members
unfolding optimal_quorum_size legacy_quorum_size
quorums_overlap s size one other h safe l m =
    let both = count_if-both one other s.members in
    elim safe [
      | inl e ↦ ground (arith, h, e, l, m, both)
      | inr (e, n) ↦ ground (arith, h, e, n, l, m, both)
    ]

-- A quorum can always be formed by the validators that are not faulty: it is at least one and at most
-- the number of members less the faulty ones.
pub quorum_reachable :
    (s : Set)
    → 0 < len s
    → (0 < optimal_quorum_size s)
      × (optimal_quorum_size s + calc_max_faulty_nodes s ≤ len s)
      × (legacy_quorum_size s + calc_max_faulty_nodes s ≤ len s)
      × (legacy_quorum_size s ≤ optimal_quorum_size s)
unfolding optimal_quorum_size legacy_quorum_size
quorum_reachable s h = ground arith

-- A set that is not empty has a proposer in every round, whoever proposed last.
pub calc_proposer_total :
    (s : Set) (round last : ℕ) → 0 < len s → (v : Validator) × (calc_proposer s round last ≡ some v)
unfolding calc_proposer
calc_proposer_total s round last h =
    let (v, e) = get_elem?-total s.members (proposer_seed s round last % len s) (grind arith) in
    (v, ground arith)

proposer_seed-after :
    (s : Set) (round last i : ℕ)
    → last ≢ 0
    → index s last ≡ some i
    → i + round + 1 < word
    → proposer_seed s round last ≡ i + round + 1
unfolding proposer_seed
proposer_seed-after s round last i h e small = rw (e, proposer_seed) (ground arith)

-- After the member at index i has proposed, round r of the next height falls to the member that
-- stands r + 1 places further on, counted cyclically, as long as the seed does not wrap.
calc_proposer-rotates :
    (s : Set) (round last i : ℕ)
    → last ≢ 0
    → index s last ≡ some i
    → i + round + 1 < word
    → calc_proposer s round last ≡ at s ((i + round + 1) % len s)
unfolding calc_proposer
calc_proposer-rotates s round last i h e small =
    let some_member = index_in-lt-length s.members last i e in
    rw (proposer_seed-after s round last i h e small) (ground arith)
