-- ===== src/Txn/Trees.antt =====
-- What is relied on of the radix trees, and the object of an address after a change.
use mainnet.Txn.{Radix, Key, of_address, StateObject, Entry, object, logs, refund, Env, Txn}
use mainnet.Txn.Accounts.{
  new_state_object, as_object, get_state_object, insert_entry, upsert_account,
}
use mainnet.Common.{
  ℕ, ◌≡◌, refl, sym, ap, ◌∙◌, ◌≢◌, inl, inr, Bool, true, false, Option, none, some, if◌then◌else◌,
  Bool-cases, Option-cases,
}

-- The documented behaviour of a tree.
pub record IsTree {K V : Type 0} (r : Radix K V) : Type 0 where
  pub get-insert : (k : K) (v : V) (t : r.Tree) → r.get k (r.insert k v t) ≡ some v
  pub get-insert_other :
      (k j : K) (v : V) (t : r.Tree) → k ≢ j → r.get j (r.insert k v t) ≡ r.get j t
  pub get-delete : (k : K) (t : r.Tree) → r.get k (r.delete k t) ≡ none
  pub get-delete_other : (k j : K) (t : r.Tree) → k ≢ j → r.get j (r.delete k t) ≡ r.get j t
  pub get-empty : (k : K) → r.get k r.empty_tree ≡ none

abbrev pub address_of : Key → ℕ
address_of (of_address a) = a
address_of _ = 0

abbrev pub is_address : Key → Bool
is_address (of_address a) = true
is_address _ = false

module _ (env : Env) (trees : IsTree env.radix) where
  open env use {radix, slot_tree}

  -- The object of an address after an object was inserted.
  pub object-insert :
      (addr : ℕ) (obj : StateObject slot_tree.Tree) (t : Txn env)
      → obj.deleted ≡ false
      → get_state_object env addr (insert_entry env (of_address addr) (object obj) t) ≡ some obj
  unfolding get_state_object
  object-insert addr obj t h =
      rw (trees.get-insert (of_address addr) (object obj) t.txn, h, get_state_object) refl

  -- Another key is not touched.
  pub object-insert_other :
      (addr : ℕ) (key : Key) (entry : Entry slot_tree.Tree) (t : Txn env)
      → key ≢ of_address addr
      → get_state_object env addr (insert_entry env key entry t) ≡ get_state_object env addr t
  unfolding get_state_object
  object-insert_other addr key entry t h =
      rw (trees.get-insert_other key (of_address addr) entry t.txn h, get_state_object) refl

  -- The object that upsertAccount changes.
  abbrev pub or_new : Option (StateObject slot_tree.Tree) → StateObject slot_tree.Tree
  or_new none = new_state_object env
  or_new (some obj) = obj

  abbrev deleted_of : Option (StateObject slot_tree.Tree) → Bool
  deleted_of none = false
  deleted_of (some obj) = obj.deleted

  entry_present : (entry : Entry slot_tree.Tree) → deleted_of (as_object env entry) ≡ false
  entry_present (object obj) = elim (Bool-cases obj.deleted) [
    | inl e ↦ ap deleted_of {y = none} (ap (λ b. if b then none else some obj) e)
    | inr e ↦ ap deleted_of {y = some obj} (ap (λ b. if b then none else some obj) e) ∙ e
  ]
  entry_present (logs l) = refl
  entry_present (refund n) = refl

  lookup_present : (addr : ℕ) (t : Txn env) → deleted_of (get_state_object env addr t) ≡ false
  unfolding get_state_object
  lookup_present addr t = elim (Option-cases (radix.get (of_address addr) t.txn)) [
    | inr (entry, e) ↦ rw (e, get_state_object) (entry_present entry)
    | inl e ↦ elim (Option-cases (env.snapshot_account addr)) [
      | inl g ↦ rw (e, g, get_state_object) refl
      | inr (account, g) ↦ rw (e, g, get_state_object) refl
    ]
  ]

  pub object_present :
      (addr : ℕ) (t : Txn env) (obj : StateObject slot_tree.Tree)
      → get_state_object env addr t ≡ some obj
      → obj.deleted ≡ false
  object_present addr t obj h = sym (ap deleted_of h) ∙ lookup_present addr t

  pub object-upsert :
      (addr : ℕ) (f : StateObject slot_tree.Tree → StateObject slot_tree.Tree) (t : Txn env)
      → ((o : StateObject slot_tree.Tree) → o.deleted ≡ false → (f o).deleted ≡ false)
      → get_state_object env addr (upsert_account env addr f t)
        ≡ some (f (or_new (get_state_object env addr t)))
  unfolding upsert_account
  object-upsert addr f t h = elim (Option-cases (get_state_object env addr t)) [
    | inl e ↦ rw (e, upsert_account) (object-insert addr (f (new_state_object env)) t (h _ refl))
    | inr (obj, e) ↦
        rw (e, upsert_account) (object-insert addr (f obj) t (h obj (object_present addr t obj e)))
  ]

  address_differs : (a b : ℕ) → a ≢ b → of_address a ≢ of_address b
  address_differs a b h e = h (ap address_of e)

  pub object-upsert_other :
      (addr a : ℕ) (f : StateObject slot_tree.Tree → StateObject slot_tree.Tree) (t : Txn env)
      → addr ≢ a
      → get_state_object env a (upsert_account env addr f t) ≡ get_state_object env a t
  unfolding upsert_account
  object-upsert_other addr a f t h = elim (Option-cases (get_state_object env addr t)) [
    | inl e ↦
        rw (e, upsert_account)
          (object-insert_other a (of_address addr) _ t (address_differs addr a h))
    | inr (obj, e) ↦
        rw (e, upsert_account)
          (object-insert_other a (of_address addr) _ t (address_differs addr a h))
  ]
