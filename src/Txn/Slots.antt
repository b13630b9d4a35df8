-- ===== src/Txn/Slots.antt =====
-- state/txn.go: what a write of a word does to every word of every account.
use mathlib.Core.Bool.{true≢false}
use mainnet.Evm.{Forks, StorageStatus, unchanged, deleted}
use mainnet.Txn.{of_address, refund_index, StateObject, Entry, Env, Txn, empty_state_hash}
use mainnet.Txn.Trees.{
  IsTree, or_new, object-upsert, object-upsert_other, object-insert_other, is_address,
}
use mainnet.Txn.Accounts.{get_state_object, upsert_account, insert_entry, add_refund, sub_refund}
use mainnet.Txn.Storage.{
  stored, slots_of, with_slot, set_state, slot_of, get_state, get_committed_state,
  legacy_gas_metering, legacy_write, first_write, cleared_refund, rewrite, set_storage,
}
use mainnet.Common.{
  ℕ, ◌≡◌, refl, sym, ap, ◌∙◌, subst, ◌≢◌, ◌↔◌, inl, inr, Bool, true, false, ◌&&◌, Option, none,
  some, arith, ◌==◌, if◌then◌else◌, ==_iff, Bool-cases, Option-cases, if_both,
}

-- Nothing is stored under the root of the empty trie.
abbrev pub IsEmptyRoot : Env → Type 0
IsEmptyRoot env = (addr key : ℕ) → env.snapshot_storage addr empty_state_hash key ≡ 0

-- What SetStorage brings about: the word, no other word, and a status that tells a change.
abbrev pub After :
    (env : Env) (addr key value : ℕ) (t : Txn env) (p : Txn env × StorageStatus) → Type 0
After env addr key value t p =
    ((a k : ℕ)
      → get_state env a k p.0 ≡ (if a == addr && k == key then value else get_state env a k t))
    × ((p.1 ≡ unchanged) ↔ (get_state env addr key t ≡ value))

module _ (env : Env) (trees : IsTree env.radix) (slots : IsTree env.slot_tree)
    (root : IsEmptyRoot env) where
  open env use {radix, slot_tree}

  -- A word that is read back of what is stored for it.
  stored-read : (value : ℕ) → elim (stored env value) [ none ↦ 0 | some v ↦ v ] ≡ value
  stored-read value = elim (Bool-cases (value == 0)) [
    | inl e ↦ rw e (ground (arith, e))
    | inr e ↦ rw e refl
  ]

  -- The word of an account that may not be there.
  abbrev word_of : ℕ → ℕ → Option (StateObject slot_tree.Tree) → ℕ
  word_of addr key o = elim o [ none ↦ 0 | some obj ↦ slot_of env addr key obj ]

  slot-written :
      (addr key value : ℕ) (obj : StateObject slot_tree.Tree)
      → slot_of env addr key (with_slot env key value obj) ≡ value
  slot-written addr key value obj =
      rw (slots.get-insert key (stored env value) (slots_of env obj)) (stored-read value)

  slot-kept :
      (addr key k value : ℕ) (obj : StateObject slot_tree.Tree)
      → key ≢ k
      → slot_of env addr k (with_slot env key value obj) ≡ slot_of env addr k obj
  slot-kept addr key k value obj n = elim (Option-cases obj.slots) [
    | inl e ↦
        rw
          (
            slots.get-insert_other key k (stored env value) (slots_of env obj) n,
            e,
            slots.get-empty k,
          )
          refl
    | inr (tree, e) ↦
        rw (slots.get-insert_other key k (stored env value) (slots_of env obj) n, e) refl
  ]

  word-or_new :
      (addr key : ℕ) (o : Option (StateObject slot_tree.Tree))
      → slot_of env addr key (or_new env trees o) ≡ word_of addr key o
  word-or_new addr key none = root addr key
  word-or_new addr key (some obj) = refl

  get_state-set_state :
      (addr key value a k : ℕ) (t : Txn env)
      → get_state env a k (set_state env addr key value t)
        ≡ (if a == addr && k == key then value else get_state env a k t)
  unfolding get_state set_state
  get_state-set_state addr key value a k t = elim (Bool-cases (a == addr)) [
    | inr e ↦ rw e (ap (word_of a k) (object-upsert_other env trees addr a _ t (ground (arith, e))))
    | inl e ↦ rw e (
        subst
          (λ x.
            word_of x k
              (get_state_object env x (upsert_account env addr (with_slot env key value) t))
            ≡ (if k == key then value else word_of x k (get_state_object env x t)))
          (sym ((==_iff a addr).0 e))
          (ap (word_of addr k) (object-upsert env trees addr (with_slot env key value) t λ o h. h)
            ∙ written (or_new env trees (get_state_object env addr t))
                (word-or_new addr k (get_state_object env addr t))))
  ]
    where
      written :
          (obj : StateObject slot_tree.Tree)
          → slot_of env addr k obj ≡ word_of addr k (get_state_object env addr t)
          → slot_of env addr k (with_slot env key value obj)
            ≡ (if k == key then value else word_of addr k (get_state_object env addr t))
      written obj h = elim (Bool-cases (k == key)) [
        | inl e ↦ rw e (
            subst (λ x. slot_of env addr x (with_slot env key value obj) ≡ value)
              (sym ((==_iff k key).0 e)) (slot-written addr key value obj))
        | inr e ↦ rw e (slot-kept addr key k value obj (ground (arith, e)) ∙ h)
      ]

  refund_differs : (a : ℕ) → refund_index ≢ of_address a
  refund_differs a e = true≢false (sym (ap is_address e))

  get_state-insert :
      (entry : Entry slot_tree.Tree) (a k : ℕ) (t : Txn env)
      → get_state env a k (insert_entry env refund_index entry t) ≡ get_state env a k t
  unfolding get_state
  get_state-insert entry a k t =
      ap (word_of a k) (object-insert_other env trees a refund_index entry t (refund_differs a))

  abbrev is_unchanged : StorageStatus → Bool
  is_unchanged unchanged = true
  is_unchanged _ = false

  -- The words of the second state are those of the first, and the status tells a change.
  abbrev Changes : Txn env → Txn env × StorageStatus → Type 0
  Changes u p =
      ((a k : ℕ) → get_state env a k p.0 ≡ get_state env a k u) × (is_unchanged p.1 ≡ false)

  refund-Changes :
      (n : ℕ) (u : Txn env) (status : StorageStatus)
      → is_unchanged status ≡ false
      → Changes u (add_refund env n u, status)
  unfolding add_refund
  refund-Changes n u status h = (λ a k. get_state-insert _ a k u, h)

  legacy_write-Changes : (old value : ℕ) (u : Txn env) → Changes u (legacy_write env old value u)
  unfolding legacy_write
  legacy_write-Changes old value u =
      if_both (Changes u) (old == 0) _ _ (λ a k. refl, refl)
        (if_both (Changes u) (value == 0) _ _ (refund-Changes 15000 u deleted refl)
          (λ a k. refl, refl))

  first_write-Changes :
      (original value : ℕ) (u : Txn env) → Changes u (first_write env original value u)
  unfolding first_write
  first_write-Changes original value u =
      if_both (Changes u) (original == 0) _ _ (λ a k. refl, refl)
        (if_both (Changes u) (value == 0) _ _ (refund-Changes 15000 u deleted refl)
          (λ a k. refl, refl))

  abbrev SameWords : Txn env → Txn env → Type 0
  SameWords u v = (a k : ℕ) → get_state env a k v ≡ get_state env a k u

  cleared_refund-SameWords :
      (original current value : ℕ) (u : Txn env)
      → SameWords u (cleared_refund env original current value u)
  unfolding add_refund sub_refund
  cleared_refund-SameWords original current value u =
      if_both (SameWords u) (original == 0) _ _ (λ a k. refl)
        (if_both (SameWords u) (current == 0) _ _ (λ a k. get_state-insert _ a k u)
          (if_both (SameWords u) (value == 0) _ _ (λ a k. get_state-insert _ a k u) (λ a k. refl)))

  rewrite-Changes :
      (config : Forks) (original current value : ℕ) (u : Txn env)
      → Changes u (rewrite env config original current value u)
  unfolding rewrite add_refund
  rewrite-Changes config original current value u =
      let cleared = cleared_refund-SameWords original current value u in
      (
        if_both (SameWords u) (original == value) _ _
            (λ a k.
              get_state-insert _ a k (cleared_refund env original current value u) ∙ cleared a k)
            cleared,
        refl,
      )

  set_storage_same :
      (addr key value : ℕ) (config : Forks) (t : Txn env)
      → (get_state env addr key t == value) ≡ true
      → set_storage env addr key value config t ≡ (t, unchanged)
  unfolding set_storage
  set_storage_same addr key value config t e = rw (e, set_storage) refl

  set_storage-Changes :
      (addr key value : ℕ) (config : Forks) (t : Txn env)
      → (get_state env addr key t == value) ≡ false
      → Changes (set_state env addr key value t) (set_storage env addr key value config t)
  unfolding set_storage
  set_storage-Changes addr key value config t e =
      let old = get_state env addr key t in
      let original = get_committed_state env addr key t in
      let u = set_state env addr key value t in
      rw (e, set_storage)
        (if_both (Changes u) (legacy_gas_metering env config) _ _ (legacy_write-Changes old value u)
          (if_both (Changes u) (original == old) _ _ (first_write-Changes original value u)
            (rewrite-Changes config original old value u)))

  -- For trees that keep what is inserted, and nothing stored under the empty root: under every fork and on
  -- every branch SetStorage writes the word, changes no other word of any account, and tells that nothing
  -- changed exactly where the word was there before.
  pub set_storage-After :
      (addr key value : ℕ) (config : Forks) (t : Txn env)
      → After env addr key value t (set_storage env addr key value config t)
  set_storage-After addr key value config t =
      elim (Bool-cases (get_state env addr key t == value)) [
        | inl e ↦
            subst (After env addr key value t) (sym (set_storage_same addr key value config t e)) (
              λ a k. unwritten a k ((==_iff (get_state env addr key t) value).0 e),
              (λ h. (==_iff (get_state env addr key t) value).0 e, λ h. refl),
            )
        | inr e ↦
            let changes = set_storage-Changes addr key value config t e in
            (
              λ a k. changes.0 a k ∙ get_state-set_state addr key value a k t,
              (
                λ h. absurd (true≢false (sym (ap is_unchanged h) ∙ changes.1)),
                λ h. absurd (ground (arith, e, h)),
              ),
            )
      ]
    where
      unwritten :
          (a k : ℕ)
          → get_state env addr key t ≡ value
          → get_state env a k t ≡ (if a == addr && k == key then value else get_state env a k t)
      unwritten a k h = elim (Bool-cases (a == addr && k == key)) [
        | inl e ↦
            let same_account : a ≡ addr = ground (arith, e) in
            let same_key : k ≡ key = ground (arith, e) in
            rw e (
              subst (λ x. get_state env x k t ≡ value) (sym same_account)
                (subst (λ x. get_state env addr x t ≡ value) (sym same_key) h))
        | inr e ↦ rw e refl
      ]
