-- ===== src/Validators/Set/Uniqueness.antt =====
-- No address occurs twice in a set, through every update.
use mainnet.Common.{
  ℕ, zero, suc, ◌<◌, ◌≡◌, refl, ap, true, false, some, List, [], ◌∷◌, ◌++◌, arith, ◌==◌,
  if◌then◌else◌, ==_iff, ==_refl, Option-cases, length, get_elem?, erase_at,
}
use mainnet.Validators.Validator.{Validator, addr}
use mainnet.Validators.Set.{index_in, is_found}

-- No two members share an address, and each has the type of the set.
abbrev pub IsDistinct : List Validator → Type 0
IsDistinct [] = Unit
IsDistinct (v ∷ vs) = (is_found (index_in vs (addr v)) ≡ false) × IsDistinct vs

pub is_found-append :
    (vs : List Validator) (v : Validator) (a : ℕ)
    → is_found (index_in (vs ++ v ∷ []) a)
      ≡ (if addr v == a then true else is_found (index_in vs a))
unfolding index_in
is_found-append [] v a = ground arith
is_found-append (w ∷ vs) v a = ground (arith, is_found-append vs v a)

pub append-IsDistinct :
    (vs : List Validator) (v : Validator)
    → is_found (index_in vs (addr v)) ≡ false
    → IsDistinct vs
    → IsDistinct (vs ++ v ∷ [])
unfolding index_in
append-IsDistinct [] v h d = (refl, tt)
append-IsDistinct (w ∷ vs) v h d =
    (ground (arith, is_found-append vs v (addr w)), append-IsDistinct vs v (ground arith) d.1)

-- A member found below the head is not the head.
index_in-suc :
    (v : Validator) (vs : List Validator) (a i : ℕ)
    → index_in (v ∷ vs) a ≡ some (suc i)
    → ((addr v == a) ≡ false) × (index_in vs a ≡ some i)
unfolding index_in
index_in-suc v vs a i h = ground (arith, Option-cases (index_in vs a))

index_in-zero :
    (v : Validator) (vs : List Validator) (a : ℕ)
    → index_in (v ∷ vs) a ≡ some 0
    → (addr v == a) ≡ true
unfolding index_in
index_in-zero v vs a h = ground (arith, Option-cases (index_in vs a))

pub index_in-lt-length : (vs : List Validator) (a i : ℕ) → index_in vs a ≡ some i → i < length vs
unfolding index_in
index_in-lt-length [] a i h = ground arith
index_in-lt-length (v ∷ vs) a zero h = omega arith
index_in-lt-length (v ∷ vs) a (suc i) h =
    omega (arith, index_in-lt-length vs a i (index_in-suc v vs a i h).1)

-- The index that Index finds holds a validator of that address.
pub get_elem?-index_in :
    (vs : List Validator) (a i : ℕ)
    → index_in vs a ≡ some i
    → (v : Validator) × (get_elem? vs i ≡ some v) × (addr v ≡ a)
get_elem?-index_in [] a i h = absurd (unfold index_in in ground arith)
get_elem?-index_in (v ∷ vs) a zero h = (v, refl, (==_iff _ _).0 (index_in-zero v vs a h))
get_elem?-index_in (v ∷ vs) a (suc i) h = get_elem?-index_in vs a i (index_in-suc v vs a i h).1

pub is_found-erase_at :
    (vs : List Validator) (a i b : ℕ)
    → IsDistinct vs
    → index_in vs a ≡ some i
    → is_found (index_in (erase_at i vs) b) ≡ (if a == b then false else is_found (index_in vs b))
unfolding index_in
is_found-erase_at [] a i b d h = absurd (ground arith)
is_found-erase_at (v ∷ vs) a zero b d h = ground (arith, index_in-zero v vs a h)
is_found-erase_at (v ∷ vs) a (suc i) b d h =
    ground
      (arith, index_in-suc v vs a i h, is_found-erase_at vs a i b d.1 (index_in-suc v vs a i h).1)

pub erase_at-IsDistinct :
    (vs : List Validator) (a i : ℕ)
    → IsDistinct vs
    → index_in vs a ≡ some i
    → IsDistinct (erase_at i vs)
erase_at-IsDistinct [] a i d h = tt
erase_at-IsDistinct (v ∷ vs) a zero d h = d.1
erase_at-IsDistinct (v ∷ vs) a (suc i) d h = (
  ground (arith, is_found-erase_at vs a i (addr v) d.1 (index_in-suc v vs a i h).1),
  erase_at-IsDistinct vs a i d.1 (index_in-suc v vs a i h).1,
)

-- What was appended last is found at the end, if its address is new.
pub index_in-append_new :
    (vs : List Validator) (v : Validator)
    → is_found (index_in vs (addr v)) ≡ false
    → index_in (vs ++ v ∷ []) (addr v) ≡ some (length vs)
unfolding index_in
index_in-append_new [] v h = ground (arith, ==_refl (addr v))
index_in-append_new (w ∷ vs) v h = ground (arith, index_in-append_new vs v)

pub erase_at-append {ℓ} :
    {A : Type ℓ} (xs : List A) (x : A) → erase_at (length xs) (xs ++ x ∷ []) ≡ xs
erase_at-append [] x = refl
erase_at-append (y ∷ xs) x = ap (◌∷◌ y) (erase_at-append xs x)
