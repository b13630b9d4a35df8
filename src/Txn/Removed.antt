-- ===== src/Txn/Removed.antt =====
-- state/txn.go: accounts that destroyed themselves, at the end of a transaction and when they are created_anew again.
use mathlib.Core.Option.{some-injective, none-ne-some}
use mathlib.Core.Bool.{true≢false}
use mainnet.Txn.{
  Radix, Key, of_address, log_index, refund_index, StateObject, Entry, object, logs, refund, Env,
  Txn,
}
use mainnet.Txn.Trees.{IsTree, object-insert, is_address, address_of}
use mainnet.Txn.Accounts.{
  get_state_object, insert_entry, new_state_object, with_balance, balance_of, create_account,
  get_code, get_code_hash, cached_code, empty_code_hash, get_refund, as_refund,
}
use mainnet.Txn.Storage.{is_removed, mark_deleted, delete_listed, clean_delete_objects}
use mainnet.Common.{
  ℕ, ◌≡◌, refl, sym, ap, ◌∙◌, subst, ◌≢◌, ◌⊎◌, inl, inr, Bool, true, false, Option, none, some,
  List, [], ◌∷◌, arith, ◌==◌, if◌then◌else◌, ==_iff, Bool-cases, Option-cases, All,
}

module _ {K V : Type 0} where
  -- A pair that a walk lists.
  abbrev pub Listed : K → V → List (K × V) → Type 0
  Listed k v [] = ⊥
  Listed k v ((j, w) ∷ rest) = ((j ≡ k) × (w ≡ v)) ⊎ Listed k v rest

-- A walk over a tree lists what get finds.
pub record IsWalk {K V : Type 0} (r : Radix K V) : Type 0 where
  pub complete : (k : K) (v : V) (t : r.Tree) → r.get k t ≡ some v → Listed k v (r.walk t)
  pub sound : (t : r.Tree) → All (λ (p : K × V). r.get p.0 t ≡ some p.1) (r.walk t)

abbrev pub is_log : Key → Bool
is_log log_index = true
is_log _ = false

key_cases : (j k : Key) → (j ≡ k) ⊎ (j ≢ k)
key_cases (of_address a) (of_address b) = elim (Bool-cases (a == b)) [
  | inl e ↦ inl (ap of_address ((==_iff a b).0 e))
  | inr e ↦ inr (λ h. differs (ap address_of h) e)
]
  where
    differs : {a b : ℕ} → a ≡ b → (a == b) ≡ false → ⊥
    differs h e = ground (arith, h, e)
key_cases (of_address a) log_index = inr (λ h. true≢false (ap is_address h))
key_cases (of_address a) refund_index = inr (λ h. true≢false (ap is_address h))
key_cases log_index (of_address a) = inr (λ h. true≢false (sym (ap is_address h)))
key_cases refund_index (of_address a) = inr (λ h. true≢false (sym (ap is_address h)))
key_cases log_index log_index = inl refl
key_cases refund_index refund_index = inl refl
key_cases log_index refund_index = inr (λ h. true≢false (ap is_log h))
key_cases refund_index log_index = inr (λ h. true≢false (sym (ap is_log h)))

-- What the clean-up leaves of the account of an entry.
abbrev pub left_of :
    (env : Env) (empty : Bool) (entry : Option (Entry env.slot_tree.Tree))
    (before : Option (StateObject env.slot_tree.Tree))
    → Option (StateObject env.slot_tree.Tree)
left_of env empty none before = before
left_of env empty (some entry) before = if is_removed env empty entry then none else before

module _ (env : Env) (trees : IsTree env.radix) where
  open env use {radix, slot_tree}

  created_anew : (addr : ℕ) (t : Txn env) → StateObject slot_tree.Tree
  created_anew addr t =
      with_balance env (λ b. balance_of env (get_state_object env addr t)) (new_state_object env)

  created_anew-object :
      (addr : ℕ) (t : Txn env)
      → get_state_object env addr (create_account env addr t) ≡ some (created_anew addr t)
  unfolding create_account created_anew
  created_anew-object addr t = object-insert env trees addr (created_anew addr t) t refl

  from_cache :
      (addr : ℕ) (code : List ℕ) (t : Txn env)
      → (env.cache_get addr t.cache).0 ≡ some code
      → (cached_code env addr (empty_code_hash env) (create_account env addr t)).0 ≡ code
  unfolding create_account
  from_cache addr code t h = rw (h, cached_code) refl

  -- For an address whose code is in the cache: after CreateAccount the hash of the code is that of no code,
  -- and GetCode still returns the code that was cached.
  pub create_account-stale_code :
      (addr : ℕ) (code : List ℕ) (t : Txn env)
      → (env.cache_get addr t.cache).0 ≡ some code
      → ((get_code env addr (create_account env addr t)).0 ≡ code)
        × (get_code_hash env addr (create_account env addr t) ≡ empty_code_hash env)
  unfolding get_code get_code_hash created_anew
  create_account-stale_code addr code t h = (
    rw (created_anew-object addr t, get_code) (from_cache addr code t h),
    rw (created_anew-object addr t, get_code_hash) refl,
  )

  -- Nothing of the list removes what stands under a key.
  abbrev Untouched : Bool → Key → List (Key × Entry slot_tree.Tree) → Type 0
  Untouched empty k list =
      All (λ (p : Key × Entry slot_tree.Tree). p.0 ≡ k → is_removed env empty p.1 ≡ false) list

  delete-removed :
      (empty : Bool) (k : Key) (entry : Entry slot_tree.Tree)
      (rest : List (Key × Entry slot_tree.Tree)) (t : Txn env)
      → is_removed env empty entry ≡ true
      → delete_listed env empty ((k, entry) ∷ rest) t
        ≡ delete_listed env empty rest (insert_entry env k (mark_deleted env entry) t)
  unfolding delete_listed
  delete-removed empty k entry rest t e =
      ap
        (λ b.
          delete_listed env empty rest
            (if b then insert_entry env k (mark_deleted env entry) t else t))
        e

  delete-other :
      (empty : Bool) (k : Key) (entry : Entry slot_tree.Tree)
      (rest : List (Key × Entry slot_tree.Tree)) (t : Txn env)
      → is_removed env empty entry ≡ false
      → delete_listed env empty ((k, entry) ∷ rest) t ≡ delete_listed env empty rest t
  unfolding delete_listed
  delete-other empty k entry rest t e =
      ap
        (λ b.
          delete_listed env empty rest
            (if b then insert_entry env k (mark_deleted env entry) t else t))
        e

  get-Untouched :
      (empty : Bool) (k : Key) (list : List (Key × Entry slot_tree.Tree)) (t : Txn env)
      → Untouched empty k list
      → radix.get k (delete_listed env empty list t).txn ≡ radix.get k t.txn
  unfolding delete_listed
  get-Untouched empty k [] t h = refl
  get-Untouched empty k ((j, entry) ∷ rest) t h = elim (Bool-cases (is_removed env empty entry)) [
    | inr e ↦ rw (delete-other empty j entry rest t e) (get-Untouched empty k rest t h.1)
    | inl e ↦ rw (delete-removed empty j entry rest t e) (
        get-Untouched empty k rest (insert_entry env j (mark_deleted env entry) t) h.1
        ∙ trees.get-insert_other j k (mark_deleted env entry) t.txn
            (λ g. true≢false (sym e ∙ h.0 g)))
  ]

  -- What is listed under a key is one entry.
  abbrev Agrees : Key → Entry slot_tree.Tree → List (Key × Entry slot_tree.Tree) → Type 0
  Agrees k entry list = All (λ (p : Key × Entry slot_tree.Tree). p.0 ≡ k → p.1 ≡ entry) list

  get-marked :
      (empty : Bool) (k : Key) (entry : Entry slot_tree.Tree)
      (list : List (Key × Entry slot_tree.Tree)) (t : Txn env)
      → Agrees k entry list
      → radix.get k t.txn ≡ some (mark_deleted env entry)
      → radix.get k (delete_listed env empty list t).txn ≡ some (mark_deleted env entry)
  unfolding delete_listed
  get-marked empty k entry [] t h g = g
  get-marked empty k entry ((j, w) ∷ rest) t h g = elim (Bool-cases (is_removed env empty w)) [
    | inr e ↦ rw (delete-other empty j w rest t e) (get-marked empty k entry rest t h.1 g)
    | inl e ↦ rw (delete-removed empty j w rest t e) (
        get-marked empty k entry rest (insert_entry env j (mark_deleted env w) t) h.1
          (elim (key_cases j k) [
            | inl same_key ↦
                subst
                  (λ x.
                    radix.get x (radix.insert j (mark_deleted env w) t.txn)
                    ≡ some (mark_deleted env entry))
                  same_key
                  (trees.get-insert j (mark_deleted env w) t.txn
                    ∙ ap (λ x. some (mark_deleted env x)) (h.0 same_key))
            | inr n ↦ trees.get-insert_other j k (mark_deleted env w) t.txn n ∙ g
          ]))
  ]

  get-removed :
      (empty : Bool) (k : Key) (entry : Entry slot_tree.Tree)
      (list : List (Key × Entry slot_tree.Tree)) (t : Txn env)
      → Agrees k entry list
      → is_removed env empty entry ≡ true
      → Listed k entry list
      → radix.get k (delete_listed env empty list t).txn ≡ some (mark_deleted env entry)
  unfolding delete_listed
  get-removed empty k entry [] t h r l = absurd l
  get-removed empty k entry ((j, w) ∷ rest) t h r (inr l) = get-removed empty k entry rest _ h.1 r l
  get-removed empty k entry ((j, w) ∷ rest) t h r (inl (same_key, same_entry)) =
      get-marked empty k entry rest _ h.1 (
        ap (λ b. radix.get k (if b then insert_entry env j (mark_deleted env w) t else t).txn)
          (ap (is_removed env empty) same_entry ∙ r)
        ∙ subst
            (λ x.
              radix.get x (radix.insert j (mark_deleted env w) t.txn) ≡ some (mark_deleted env w))
            same_key (trees.get-insert j (mark_deleted env w) t.txn)
        ∙ ap (λ x. some (mark_deleted env x)) same_entry)

  abbrev Stands : Txn env → List (Key × Entry slot_tree.Tree) → Type 0
  Stands t list = All (λ (p : Key × Entry slot_tree.Tree). radix.get p.0 t.txn ≡ some p.1) list

  Stands-Agrees :
      (t : Txn env) (k : Key) (entry : Entry slot_tree.Tree)
      (list : List (Key × Entry slot_tree.Tree))
      → radix.get k t.txn ≡ some entry
      → Stands t list
      → Agrees k entry list
  Stands-Agrees t k entry [] g h = tt
  Stands-Agrees t k entry ((j, w) ∷ rest) g h = (
    λ e. some-injective w entry (sym h.0 ∙ ap (λ x. radix.get x t.txn) e ∙ g),
    Stands-Agrees t k entry rest g h.1,
  )

  Agrees-Untouched :
      (empty : Bool) (k : Key) (entry : Entry slot_tree.Tree)
      (list : List (Key × Entry slot_tree.Tree))
      → is_removed env empty entry ≡ false
      → Agrees k entry list
      → Untouched empty k list
  Agrees-Untouched empty k entry [] r h = tt
  Agrees-Untouched empty k entry ((j, w) ∷ rest) r h =
      (λ e. ap (is_removed env empty) (h.0 e) ∙ r, Agrees-Untouched empty k entry rest r h.1)

  Absent-Untouched :
      (empty : Bool) (k : Key) (t : Txn env) (list : List (Key × Entry slot_tree.Tree))
      → radix.get k t.txn ≡ none
      → Stands t list
      → Untouched empty k list
  Absent-Untouched empty k t [] g h = tt
  Absent-Untouched empty k t ((j, w) ∷ rest) g h = (
    λ e. absurd (none-ne-some w (sym g ∙ ap (λ x. radix.get x t.txn) (sym e) ∙ h.0)),
    Absent-Untouched empty k t rest g h.1,
  )

  refund_differs : (a : ℕ) → refund_index ≢ of_address a
  refund_differs a e = true≢false (sym (ap is_address e))

  same_lookup :
      (addr : ℕ) (t u : Txn env)
      → radix.get (of_address addr) u.txn ≡ radix.get (of_address addr) t.txn
      → get_state_object env addr u ≡ get_state_object env addr t
  unfolding get_state_object
  same_lookup addr t u e = rw (e, get_state_object) refl

  marked-gone :
      (empty : Bool) (addr : ℕ) (u : Txn env) (entry : Entry slot_tree.Tree)
      → is_removed env empty entry ≡ true
      → radix.get (of_address addr) u.txn ≡ some (mark_deleted env entry)
      → get_state_object env addr u ≡ none
  unfolding get_state_object
  marked-gone empty addr u (object obj) r e = rw (e, get_state_object) refl
  marked-gone empty addr u (logs l) r e = absurd (true≢false (sym r))
  marked-gone empty addr u (refund n) r e = absurd (true≢false (sym r))

  -- The state before the refunds are deleted.
  abbrev marked : Bool → Txn env → Txn env
  marked empty t = delete_listed env empty (radix.walk t.txn) t

  object-marked :
      (walks : IsWalk radix) (empty : Bool) (addr : ℕ) (t : Txn env)
      → get_state_object env addr (marked empty t)
        ≡ left_of env empty (radix.get (of_address addr) t.txn) (get_state_object env addr t)
  object-marked walks empty addr t = elim (Option-cases (radix.get (of_address addr) t.txn)) [
    | inl e ↦ rw e (
        same_lookup addr t (marked empty t) (
          get-Untouched empty (of_address addr) (radix.walk t.txn) t
            (Absent-Untouched empty (of_address addr) t (radix.walk t.txn) e (walks.sound t.txn))))
    | inr (entry, e) ↦
        let agrees =
          Stands-Agrees t (of_address addr) entry (radix.walk t.txn) e (walks.sound t.txn) in
        elim (Bool-cases (is_removed env empty entry)) [
          | inl r ↦
              rw (e, r)
                (marked-gone empty addr (marked empty t) entry r (
                  get-removed empty (of_address addr) entry (radix.walk t.txn) t agrees r
                    (walks.complete (of_address addr) entry t.txn e)))
          | inr r ↦
              rw (e, r)
                (same_lookup addr t (marked empty t) (
                  get-Untouched empty (of_address addr) (radix.walk t.txn) t
                    (Agrees-Untouched empty (of_address addr) entry (radix.walk t.txn) r agrees)))
        ]
  ]

  -- For trees that keep what is inserted and walks that list what a tree holds: CleanDeleteObjects removes
  -- exactly the accounts of the tree that destroyed themselves or, where asked, are empty, and the refund.
  pub clean_delete_objects-left :
      (walks : IsWalk radix) (empty : Bool) (addr : ℕ) (t : Txn env)
      → (get_state_object env addr (clean_delete_objects env empty t)
          ≡ left_of env empty (radix.get (of_address addr) t.txn) (get_state_object env addr t))
        × (get_refund env (clean_delete_objects env empty t) ≡ 0)
  unfolding clean_delete_objects get_refund
  clean_delete_objects-left walks empty addr t = (
    same_lookup addr (marked empty t) _ (
          trees.get-delete_other refund_index (of_address addr) (marked empty t).txn
            (refund_differs addr))
        ∙ object-marked walks empty addr t,
    ap (as_refund env) (trees.get-delete refund_index (marked empty t).txn),
  )
