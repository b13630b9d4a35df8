-- ===== src/Parallel/Sets.antt =====
-- parallel/parallel_executor.go: intersects and conflicts as relations.
use mainnet.Parallel.{ParallelTx, member, has_one_of, intersects, conflicts}
use mainnet.Common.{
  ℕ, ◌≡◌, refl, sym, ap, subst, ◌↔◌, ◌⊎◌, inl, inr, Bool, true, false, ◌||◌, List, [], ◌∷◌, arith,
  ltb, ◌==◌, if◌then◌else◌, ==_iff, ==_refl, Bool-cases, length,
}

-- A key that two slices share.
abbrev pub Share : List ℕ → List ℕ → Type 0
Share a b = (s : ℕ) × (member s a ≡ true) × (member s b ≡ true)

has_one_of-Share : (keys b : List ℕ) → has_one_of keys b ≡ true → Share keys b
unfolding has_one_of
has_one_of-Share keys [] h = cc
has_one_of-Share keys (s ∷ b) h = elim (Bool-cases (member s keys)) [
  | inl e ↦ (s, e, ground (arith, ==_refl s))
  | inr e ↦
      let (k, m, n) = has_one_of-Share keys b (ground (arith, h, e)) in (k, m, ground (arith, n))
]

Share-has_one_of :
    (keys b : List ℕ) (s : ℕ) → member s keys ≡ true → member s b ≡ true → has_one_of keys b ≡ true
unfolding has_one_of
Share-has_one_of keys [] s m n = cc
Share-has_one_of keys (k ∷ b) s m n = elim (Bool-cases (k == s)) [
  | inl e ↦ rw (subst (λ t. member t keys ≡ true) (sym ((==_iff k s).0 e)) m) refl
  | inr e ↦ elim (Bool-cases (member k keys)) [
    | inl f ↦ rw f refl
    | inr f ↦ rw f (Share-has_one_of keys b s m (ground (arith, n, e)))
  ]
]

empty-unshared : (a b : List ℕ) → Share a b → (length a == 0 || length b == 0) ≡ false
empty-unshared [] b (s, m, n) = cc
empty-unshared (k ∷ a) [] (s, m, n) = cc
empty-unshared (k ∷ a) (l ∷ b) (s, m, n) = ground arith

if-cases :
    (c : Bool) {x y : Bool}
    → (if c then x else y) ≡ true
    → ((c ≡ true) × (x ≡ true)) ⊎ ((c ≡ false) × (y ≡ true))
if-cases true h = inl (refl, h)
if-cases false h = inr (refl, h)

-- intersects tells whether two slices share a key, whichever of them is the smaller.
intersects_iff : (a b : List ℕ) → (intersects a b ≡ true) ↔ Share a b
unfolding intersects
intersects_iff a b = (forth, back)
  where
    forth : intersects a b ≡ true → Share a b
    forth h = elim (if-cases (length a == 0 || length b == 0) h) [
      | inl (e, x) ↦ absurd (ground (arith, x))
      | inr (e, x) ↦ elim (if-cases (ltb (length b) (length a)) x) [
        | inl (f, y) ↦ flip (has_one_of-Share b a y)
        | inr (f, y) ↦ has_one_of-Share a b y
      ]
    ]
      where
        flip : Share b a → Share a b
        flip (s, m, n) = (s, n, m)

    back : Share a b → intersects a b ≡ true
    back (s, m, n) = elim (Bool-cases (ltb (length b) (length a))) [
      | inl f ↦ rw (empty-unshared a b (s, m, n), f) (Share-has_one_of b a s n m)
      | inr f ↦ rw (empty-unshared a b (s, m, n), f) (Share-has_one_of a b s m n)
    ]

intersects_comm : (a b : List ℕ) → intersects a b ≡ true → intersects b a ≡ true
intersects_comm a b h = let (s, m, n) = (intersects_iff a b).0 h in (intersects_iff b a).1 (s, n, m)

eq_comm : (a b : Bool) → (a ≡ true → b ≡ true) → (b ≡ true → a ≡ true) → a ≡ b
eq_comm true b f g = sym (f refl)
eq_comm false true f g = g refl
eq_comm false false f g = refl

intersects_swap : (a b : List ℕ) → intersects a b ≡ intersects b a
intersects_swap a b =
    eq_comm (intersects a b) (intersects b a) (intersects_comm a b) (intersects_comm b a)

or_comm : (a b : Bool) → (a || b) ≡ (b || a)
or_comm true true = refl
or_comm true false = refl
or_comm false true = refl
or_comm false false = refl

-- A conflict is one for both transactions.
pub conflicts_comm : (s t : ParallelTx) → conflicts s t ≡ conflicts t s
unfolding conflicts
conflicts_comm s t =
    let same_pointer : (s.pointer == t.pointer) ≡ (t.pointer == s.pointer) = ground arith in
    rw
      (
        same_pointer,
        intersects_swap s.write_set t.write_set,
        intersects_swap s.read_set t.write_set,
        intersects_swap s.write_set t.read_set,
      )
      (ap
        (λ b.
          if t.pointer == s.pointer
          then false
          else if intersects t.write_set s.write_set
          then true
          else b)
        (or_comm (intersects t.write_set s.read_set) (intersects t.read_set s.write_set)))
