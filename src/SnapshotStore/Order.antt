-- ===== src/SnapshotStore/Order.antt =====
-- The list stays in ascending order of block numbers under every way to write it.
use mainnet.Common.{
  true, if◌then◌else◌, ℕ, zero, suc, ◌+◌, ◌≤◌, ◌<◌, ◌≡◌, refl, sym, ◌∙◌, inl, inr, Bool, List, [],
  ◌∷◌, arith, ltb, Bool-cases, length, count_if, All, count_if-nil,
}
use mainnet.Snapshot.{Snapshot}
use mainnet.SnapshotStore.{number_at, AtLeast, IsSorted, Sorting}

AtLeast-mono : (m n : ℕ) (ss : List Snapshot) → m ≤ n → AtLeast n ss → AtLeast m ss
AtLeast-mono m n [] h b = tt
AtLeast-mono m n (s ∷ ss) h b = (omega arith, AtLeast-mono m n ss h b.1)

-- One step of insertion sort: the new element goes behind those that are not larger.
abbrev pub insert_sorted : Snapshot → List Snapshot → List Snapshot
insert_sorted s [] = s ∷ []
insert_sorted s (t ∷ ts) =
    let rest = insert_sorted s ts in if ltb s.number t.number then s ∷ t ∷ ts else t ∷ rest

abbrev pub sort_onto : List Snapshot → List Snapshot → List Snapshot
sort_onto sorted [] = sorted
sort_onto sorted (s ∷ rest) = sort_onto (insert_sorted s sorted) rest

insert_sorted-AtLeast :
    (n : ℕ) (s : Snapshot) (ss : List Snapshot)
    → n ≤ s.number
    → AtLeast n ss
    → AtLeast n (insert_sorted s ss)
insert_sorted-AtLeast n s [] h b = (h, tt)
insert_sorted-AtLeast n s (t ∷ ss) h b = elim (Bool-cases (ltb s.number t.number)) [
  | inl e ↦ rw e (h, b)
  | inr e ↦ rw e (b.0, insert_sorted-AtLeast n s ss h b.1)
]

insert_sorted-IsSorted :
    (s : Snapshot) (ss : List Snapshot) → IsSorted ss → IsSorted (insert_sorted s ss)
insert_sorted-IsSorted s [] h = (tt, tt)
insert_sorted-IsSorted s (t ∷ ss) h = elim (Bool-cases (ltb s.number t.number)) [
  | inl e ↦ rw e ((ground arith, AtLeast-mono s.number t.number ss (ground arith) h.0), h)
  | inr e ↦
      rw e (insert_sorted-AtLeast t.number s ss (ground arith) h.0, insert_sorted-IsSorted s ss h.1)
]

pub sort_onto-IsSorted :
    (rest sorted : List Snapshot) → IsSorted sorted → IsSorted (sort_onto sorted rest)
sort_onto-IsSorted [] sorted h = h
sort_onto-IsSorted (s ∷ rest) sorted h =
    sort_onto-IsSorted rest (insert_sorted s sorted) (insert_sorted-IsSorted s sorted h)

count_if-insert_sorted :
    (p : Snapshot → Bool) (s : Snapshot) (ss : List Snapshot)
    → count_if p (insert_sorted s ss) ≡ count_if p (s ∷ ss)
unfolding count_if
count_if-insert_sorted p s [] = refl
count_if-insert_sorted p s (t ∷ ss) = ground (arith, count_if-insert_sorted p s ss)

pub count_if-sort_onto :
    (p : Snapshot → Bool) (rest sorted : List Snapshot)
    → count_if p (sort_onto sorted rest) ≡ count_if p rest + count_if p sorted
unfolding count_if
count_if-sort_onto p [] sorted = omega arith
count_if-sort_onto p (s ∷ rest) sorted =
    ground
      (arith, count_if-sort_onto p rest (insert_sorted s sorted), count_if-insert_sorted p s sorted)

insert_sorted-All {κ} :
    (P : Snapshot → Type κ) (s : Snapshot) (ss : List Snapshot)
    → P s
    → All P ss
    → All P (insert_sorted s ss)
insert_sorted-All P s [] p h = (p, tt)
insert_sorted-All P s (t ∷ ss) p h = elim (Bool-cases (ltb s.number t.number)) [
  | inl e ↦ rw e (p, h)
  | inr e ↦ rw e (h.0, insert_sorted-All P s ss p h.1)
]

pub sort_onto-All :
    (P : Snapshot → Type 0) (rest sorted : List Snapshot)
    → All P rest
    → All P sorted
    → All P (sort_onto sorted rest)
sort_onto-All P [] sorted h k = k
sort_onto-All P (s ∷ rest) sorted h k =
    sort_onto-All P rest (insert_sorted s sorted) h.1 (insert_sorted-All P s sorted h.0 k)

-- A stable sort is one of the sorts that sort.Sort may be.
abbrev pub stable : Sorting
stable = record {
  sort = sort_onto [];
  sort-IsSorted = λ ss. sort_onto-IsSorted ss [] tt;
  sort-count = λ p ss. omega (arith, count_if-sort_onto p ss [], count_if-nil p);
  sort-All = λ P ss h. sort_onto-All P ss [] h tt;
}

count_if-length : (ss : List Snapshot) → count_if (λ s. true) ss ≡ length ss
unfolding count_if
count_if-length [] = refl
count_if-length (s ∷ ss) = omega (arith, count_if-length ss)

pub length-sort : (sorting : Sorting) (ss : List Snapshot) → length (sorting.sort ss) ≡ length ss
length-sort sorting ss =
    sym (count_if-length (sorting.sort ss)) ∙ sorting.sort-count (λ s. true) ss ∙ count_if-length ss

number_at-AtLeast :
    (n : ℕ) (ss : List Snapshot) (i : ℕ) → AtLeast n ss → i < length ss → n ≤ number_at ss i
number_at-AtLeast n [] i h l = elim l [ ]
number_at-AtLeast n (s ∷ ss) zero h l = h.0
number_at-AtLeast n (s ∷ ss) (suc i) h l = number_at-AtLeast n ss i h.1 (omega arith)

-- The numbers ascend with the index.
pub number_at_mono :
    (ss : List Snapshot) (i j : ℕ)
    → IsSorted ss
    → i ≤ j
    → j < length ss
    → number_at ss i ≤ number_at ss j
number_at_mono [] i j h p l = elim l [ ]
number_at_mono (s ∷ ss) zero zero h p l = omega arith
number_at_mono (s ∷ ss) zero (suc j) h p l = number_at-AtLeast s.number ss j h.0 (omega arith)
number_at_mono (s ∷ ss) (suc i) zero h p l = absurd (omega arith)
number_at_mono (s ∷ ss) (suc i) (suc j) h p l =
    number_at_mono ss i j h.1 (omega arith) (omega arith)
