-- ===== src/Txn/Lists.antt =====
-- The trees of state/txn.go as lists of keys and values: what is relied on of go-immutable-radix can hold.
use mathlib.Core.Option.{some-injective, none-ne-some}
use mathlib.Core.Bool.{true≢false}
use mainnet.Txn.{Radix, Key, of_address, log_index, refund_index}
use mainnet.Txn.Trees.{IsTree, is_address, address_of}
use mainnet.Txn.Removed.{Listed, IsWalk, is_log}
use mainnet.Common.{
  ◌≡◌, refl, sym, ap, ◌∙◌, subst, ◌≢◌, ◌↔◌, inl, inr, Bool, true, false, Option, none, some, List,
  [], ◌∷◌, ◌==◌, if◌then◌else◌, ==_iff, Bool-cases, All, All-map,
}

is_other :
    {K : Type 0}
    → (same_key : K → K → Bool) (iff : (j k : K) → (same_key j k ≡ true) ↔ (j ≡ k)) (j k : K)
    → j ≢ k
    → same_key j k ≡ false
is_other same_key iff j k n = elim (Bool-cases (same_key j k)) [
  | inl e ↦ absurd (n ((iff j k).0 e))
  | inr e ↦ e
]

module _ {K V : Type 0} (same_key : K → K → Bool) where
  unfoldable pub find_key : K → List (K × V) → Option V
  find_key k [] = none
  find_key k ((j, v) ∷ rest) = let found = find_key k rest in if same_key j k then some v else found

  unfoldable pub without : K → List (K × V) → List (K × V)
  without k [] = []
  without k ((j, v) ∷ rest) =
      let left = without k rest in if same_key j k then left else (j, v) ∷ left

  -- The first value of each key.
  unfoldable pub firsts : List (K × V) → List (K × V)
  firsts [] = []
  firsts ((j, v) ∷ rest) = (j, v) ∷ without j (firsts rest)

  abbrev pub list_radix : Radix K V
  list_radix = record {
    Tree = List (K × V);
    empty_tree = [];
    get = find_key;
    insert = λ k v t. (k, v) ∷ without k t;
    delete = without;
    walk = firsts;
  }

  module _ (same_key_iff : (j k : K) → (same_key j k ≡ true) ↔ (j ≡ k)) where
    find_key-cons : (k : K) (v : V) (t : List (K × V)) → find_key k ((k, v) ∷ t) ≡ some v
    unfolding find_key
    find_key-cons k v t = ap (λ b. if b then some v else find_key k t) ((same_key_iff k k).1 refl)

    find_key-cons_other :
        (k j : K) (v : V) (t : List (K × V)) → k ≢ j → find_key j ((k, v) ∷ t) ≡ find_key j t
    unfolding find_key
    find_key-cons_other k j v t n =
        ap (λ b. if b then some v else find_key j t) (is_other same_key same_key_iff k j n)

    find_key-without : (k : K) (t : List (K × V)) → find_key k (without k t) ≡ none
    unfolding find_key without
    find_key-without k [] = refl
    find_key-without k ((j, v) ∷ rest) = elim (Bool-cases (same_key j k)) [
      | inl e ↦
          ap (λ b. find_key k (if b then without k rest else (j, v) ∷ without k rest)) e
          ∙ find_key-without k rest
      | inr e ↦
          ap (λ b. find_key k (if b then without k rest else (j, v) ∷ without k rest)) e
          ∙ ap (λ b. if b then some v else find_key k (without k rest)) e
          ∙ find_key-without k rest
    ]

    find_key-without_other :
        (k j : K) (t : List (K × V)) → k ≢ j → find_key j (without k t) ≡ find_key j t
    unfolding find_key without
    find_key-without_other k j [] n = refl
    find_key-without_other k j ((i, v) ∷ rest) n = elim (Bool-cases (same_key i k)) [
      | inl e ↦
          ap (λ b. find_key j (if b then without k rest else (i, v) ∷ without k rest)) e
          ∙ find_key-without_other k j rest n
          ∙ sym (find_key-cons_other i j v rest (λ h. n (sym ((same_key_iff i k).0 e) ∙ h)))
      | inr e ↦
          ap (λ b. find_key j (if b then without k rest else (i, v) ∷ without k rest)) e
          ∙ ap (λ x. if same_key i j then some v else x) (find_key-without_other k j rest n)
    ]

    pub list-IsTree : IsTree list_radix
    unfolding find_key
    list-IsTree = record {
      get-insert = λ k v t. find_key-cons k v (without k t);
      get-insert_other =
          λ k j v t n. find_key-cons_other k j v (without k t) n ∙ find_key-without_other k j t n;
      get-delete = find_key-without;
      get-delete_other = find_key-without_other;
      get-empty = λ k. refl;
    }

    All-without :
        (P : K × V → Type 0) (k : K) (t : List (K × V))
        → All P t
        → All (λ (p : K × V). P p × (same_key p.0 k ≡ false)) (without k t)
    unfolding without
    All-without P k [] h = tt
    All-without P k ((j, v) ∷ rest) h = elim (Bool-cases (same_key j k)) [
      | inl e ↦
          subst
            (λ b.
              All (λ (p : K × V). P p × (same_key p.0 k ≡ false))
                (if b then without k rest else (j, v) ∷ without k rest))
            (sym e) (All-without P k rest h.1)
      | inr e ↦
          subst
            (λ b.
              All (λ (p : K × V). P p × (same_key p.0 k ≡ false))
                (if b then without k rest else (j, v) ∷ without k rest))
            (sym e) ((h.0, e), All-without P k rest h.1)
    ]

    firsts_sound : (t : List (K × V)) → All (λ (p : K × V). find_key p.0 t ≡ some p.1) (firsts t)
    unfolding firsts
    firsts_sound [] = tt
    firsts_sound ((j, v) ∷ rest) = (
      find_key-cons j v rest,
      All-map (λ (p : K × V). (find_key p.0 rest ≡ some p.1) × (same_key p.0 j ≡ false))
          (λ (p : K × V). find_key p.0 ((j, v) ∷ rest) ≡ some p.1) (without j (firsts rest))
          (λ p h.
            find_key-cons_other j p.0 v rest
              (λ e. true≢false (sym ((same_key_iff p.0 j).1 (sym e)) ∙ h.1))
            ∙ h.0)
          (All-without (λ (p : K × V). find_key p.0 rest ≡ some p.1) j (firsts rest)
            (firsts_sound rest)),
    )

    Listed-without :
        (j k : K) (v : V) (t : List (K × V)) → k ≢ j → Listed j v t → Listed j v (without k t)
    unfolding without
    Listed-without j k v [] n h = h
    Listed-without j k v ((i, w) ∷ rest) n h = elim (Bool-cases (same_key i k)) [
      | inl e ↦
          subst (λ b. Listed j v (if b then without k rest else (i, w) ∷ without k rest)) (sym e)
            (elim h [
              | inl (g, x) ↦ absurd (n (sym ((same_key_iff i k).0 e) ∙ g))
              | inr l ↦ Listed-without j k v rest n l
            ])
      | inr e ↦
          subst (λ b. Listed j v (if b then without k rest else (i, w) ∷ without k rest)) (sym e)
            (elim h [ inl p ↦ inl p | inr l ↦ inr (Listed-without j k v rest n l) ])
    ]

    firsts_complete :
        (j : K) (v : V) (t : List (K × V)) → find_key j t ≡ some v → Listed j v (firsts t)
    unfolding firsts find_key
    firsts_complete j v [] h = absurd (none-ne-some v h)
    firsts_complete j v ((i, w) ∷ rest) h = elim (Bool-cases (same_key i j)) [
      | inl e ↦ inl (
        (same_key_iff i j).0 e,
        some-injective w v (sym (ap (λ b. if b then some w else find_key j rest) e) ∙ h),
      )
      | inr e ↦
          let n : i ≢ j = λ g. true≢false (sym ((same_key_iff i j).1 g) ∙ e) in
          inr (
            Listed-without j i v (firsts rest) n
              (firsts_complete j v rest (sym (find_key-cons_other i j w rest n) ∙ h)))
    ]

    pub list-IsWalk : IsWalk list_radix
    list-IsWalk = record { complete = firsts_complete; sound = firsts_sound }

unfoldable pub equal_keys : Key → Key → Bool
equal_keys (of_address a) (of_address b) = a == b
equal_keys log_index log_index = true
equal_keys refund_index refund_index = true
equal_keys _ _ = false

pub equal_keys_iff : (j k : Key) → (equal_keys j k ≡ true) ↔ (j ≡ k)
unfolding equal_keys
equal_keys_iff (of_address a) (of_address b) =
    (λ h. ap of_address ((==_iff a b).0 h), λ h. (==_iff a b).1 (ap address_of h))
equal_keys_iff log_index log_index = (λ h. refl, λ h. refl)
equal_keys_iff refund_index refund_index = (λ h. refl, λ h. refl)
equal_keys_iff (of_address a) log_index =
    (λ h. absurd (true≢false (sym h)), λ h. sym (ap is_address h))
equal_keys_iff (of_address a) refund_index =
    (λ h. absurd (true≢false (sym h)), λ h. sym (ap is_address h))
equal_keys_iff log_index (of_address a) = (λ h. absurd (true≢false (sym h)), λ h. ap is_address h)
equal_keys_iff refund_index (of_address a) =
    (λ h. absurd (true≢false (sym h)), λ h. ap is_address h)
equal_keys_iff log_index refund_index = (λ h. absurd (true≢false (sym h)), λ h. sym (ap is_log h))
equal_keys_iff refund_index log_index = (λ h. absurd (true≢false (sym h)), λ h. ap is_log h)
