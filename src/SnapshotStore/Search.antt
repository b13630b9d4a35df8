-- ===== src/SnapshotStore/Search.antt =====
-- sort.Search, on any predicate and on a monotone one.
use mainnet.Common.{
  ℕ, zero, suc, ◌+◌, ◌/◌, ◌≤◌, ◌<◌, ◌≡◌, refl, ◌⊎◌, inl, inr, Bool, true, false, arith, ltb,
  Bool-cases,
}
use mainnet.SnapshotStore.{search_loop, search_first}

-- The result splits a[i..j): the predicate is false before it and true from it on.
pub record Splits (f : ℕ → Bool) (i j r : ℕ) : Type 0 where
  pub lower : i ≤ r
  pub upper : r ≤ j
  pub before : (k : ℕ) → i ≤ k → k < r → f k ≡ false
  pub after : (k : ℕ) → r ≤ k → k < j → f k ≡ true

module _ (f : ℕ → Bool) where
  -- The loop stops at j or where the predicate holds, whatever the predicate.
  search_loop-hit :
      (fuel i j : ℕ)
      → i ≤ j
      → j ≤ i + fuel
      → (i ≤ search_loop fuel f i j)
        × (search_loop fuel f i j ≤ j)
        × ((search_loop fuel f i j ≡ j) ⊎ (f (search_loop fuel f i j) ≡ true))
  unfolding search_loop
  search_loop-hit zero i j h k = (omega arith, omega arith, inl (omega arith))
  search_loop-hit (suc fuel) i j h k =
      ground (arith, search_loop-hit fuel i ((i + j) / 2), search_loop-hit fuel ((i + j) / 2 + 1) j)

  -- A predicate that is false on the whole range is found nowhere.
  search_loop-none :
      (fuel i j : ℕ)
      → i ≤ j
      → j ≤ i + fuel
      → ((k : ℕ) → i ≤ k → k < j → f k ≡ false)
      → search_loop fuel f i j ≡ j
  unfolding search_loop
  search_loop-none zero i j h k none_holds = omega arith
  search_loop-none (suc fuel) i j h k none_holds = elim (Bool-cases (ltb i j)) [
    | inr e ↦ ground arith
    | inl e ↦
        let m = (i + j) / 2 in
        let missed : f m ≡ false = none_holds m (ground arith) (ground arith) in
        let rest : search_loop fuel f (m + 1) j ≡ j =
          search_loop-none fuel (m + 1) j (ground arith) (ground arith)
            (λ a p q. none_holds a (ground arith) q) in
        ground (arith, missed, rest)
  ]

  module _ (n : ℕ) (mono : (a b : ℕ) → a ≤ b → b < n → f a ≡ true → f b ≡ true) where
    Splits-left : (i j m r : ℕ) → m < j → j ≤ n → f m ≡ true → Splits f i m r → Splits f i j r
    Splits-left i j m r h l hit s = record {
      lower = s.lower;
      upper = omega (arith, s.upper);
      before = s.before;
      after = λ a p q. elim (Bool-cases (ltb a m)) [
        | inl below ↦ s.after a p (ground arith)
        | inr above ↦ mono m a (ground arith) (omega arith) hit
      ];
    }

    Splits-right :
        (i j m r : ℕ) → i ≤ m → m < n → f m ≡ false → Splits f (m + 1) j r → Splits f i j r
    Splits-right i j m r h l miss s = record {
      lower = omega (arith, s.lower);
      upper = s.upper;
      before = λ a p q. elim (Bool-cases (ltb m a)) [
        | inl above ↦ s.before a (ground arith) q
        | inr below ↦ elim (Bool-cases (f a)) [
          | inr no_hit ↦ no_hit
          | inl hit ↦ absurd (ground (arith, mono a m (ground arith) l hit))
        ]
      ];
      after = s.after;
    }

    Splits-empty : (i j : ℕ) → i ≤ j → ltb i j ≡ false → Splits f i j i
    Splits-empty i j h e = record {
      lower = omega arith;
      upper = h;
      before = λ a p q. absurd (omega arith);
      after = λ a p q. absurd (ground arith);
    }

    search_loop-Splits :
        (fuel i j : ℕ) → i ≤ j → j ≤ n → j ≤ i + fuel → Splits f i j (search_loop fuel f i j)
    unfolding search_loop
    search_loop-Splits zero i j h l k = Splits-empty i j h (ground arith)
    search_loop-Splits (suc fuel) i j h l k = elim (Bool-cases (ltb i j)) [
      | inr e ↦ rw (e, search_loop) (Splits-empty i j h e)
      | inl e ↦
          let m = (i + j) / 2 in
          elim (Bool-cases (f m)) [
            | inl hit ↦
                rw (e, search_loop)
                  (rw (hit, search_loop)
                    (Splits-left i j m _ (ground arith) l hit
                      (search_loop-Splits fuel i m (ground arith) (ground arith) (ground arith))))
            | inr miss ↦
                rw (e, search_loop)
                  (rw (miss, search_loop)
                    (Splits-right i j m _ (ground arith) (ground arith) miss
                      (search_loop-Splits fuel (m + 1) j (ground arith) l (ground arith))))
          ]
    ]

module _ (n : ℕ) (f : ℕ → Bool) where
  -- sort.Search on a monotone predicate returns the least index at which it holds, or n.
  pub search_first-Splits :
      ((a b : ℕ) → a ≤ b → b < n → f a ≡ true → f b ≡ true) → Splits f 0 n (search_first n f)
  unfolding search_first
  search_first-Splits mono =
      search_loop-Splits f n mono n 0 n (omega arith) (omega arith) (omega arith)

  pub search_first-hit :
      (search_first n f ≤ n) × ((search_first n f ≡ n) ⊎ (f (search_first n f) ≡ true))
  unfolding search_first
  search_first-hit = let s = search_loop-hit f n 0 n (omega arith) (omega arith) in (s.1, s.2)

-- The first probe goes to n / 2. Where the predicate is false there and behind, the search misses
-- whatever stands before.
pub search_first-misses :
    (n : ℕ) (f : ℕ → Bool) → ((k : ℕ) → n / 2 ≤ k → k < n → f k ≡ false) → search_first n f ≡ n
unfolding search_first
search_first-misses zero f miss = refl
search_first-misses (suc n) f miss =
    let h = (0 + suc n) / 2 in
    ground (
      arith,
      miss h (omega arith) (omega arith),
      search_loop-none f n (h + 1) (suc n) (omega arith) (omega arith)
          (λ k p q. miss k (omega arith) q),
    )
