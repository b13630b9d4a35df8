-- ===== src/Txn/Logs.antt =====
-- state/txn.go: the logs of snapshots, which share the arrays behind their slices.
use mainnet.Txn.{Log, LogSlice, LogArray, log_index, Entry, logs, Env, Txn}
use mainnet.Txn.Accounts.{snapshot, revert_to_snapshot, add_log, take_logs, insert_entry}
use mainnet.Txn.Slices.{as_logs, taken, cells_of, put_cell, append_log}
use mainnet.Txn.Trees.{IsTree}
use mainnet.Common.{
  ℕ, zero, suc, ◌+◌, ◌≤◌, ◌<◌, ◌≡◌, refl, sym, ap, ◌∙◌, subst, true, Option, some, List, [], ◌∷◌,
  ◌++◌, arith, ltb, length, get_elem?, set, get_elem?-set, get_elem?-append, get_elem?-append_last,
}

module _ (env : Env) (trees : IsTree env.radix) where
  length-put_cell :
      (n : ℕ) (log : Log) (cells : List Log)
      → n ≤ length cells
      → n + 1 ≤ length (put_cell env n log cells)
  length-put_cell zero log [] l = omega arith
  length-put_cell zero log (c ∷ cells) l = omega arith
  length-put_cell (suc n) log [] l = absurd (omega (arith, l))
  length-put_cell (suc n) log (c ∷ cells) l =
      omega (arith, length-put_cell n log cells (omega (arith, l)))

  taken-before :
      (n : ℕ) (log : Log) (cells : List Log)
      → n ≤ length cells
      → taken env n (put_cell env n log cells) ≡ taken env n cells
  taken-before zero log cells l = refl
  taken-before (suc n) log [] l = absurd (omega (arith, l))
  taken-before (suc n) log (c ∷ cells) l =
      ap (λ (k : List Log). c ∷ k) (taken-before n log cells (omega (arith, l)))

  taken-after :
      (n : ℕ) (log : Log) (cells : List Log)
      → n ≤ length cells
      → taken env (suc n) (put_cell env n log cells) ≡ taken env n cells ++ log ∷ []
  taken-after zero log [] l = refl
  taken-after zero log (c ∷ cells) l = refl
  taken-after (suc n) log [] l = absurd (omega (arith, l))
  taken-after (suc n) log (c ∷ cells) l =
      ap (λ (k : List Log). c ∷ k) (taken-after n log cells (omega (arith, l)))

  -- A slice of logs in the tree, in an array that has room behind it.
  pub record HasRoom (t : Txn env) (s : LogSlice) (a : LogArray) : Type 0 where
    pub entry : env.radix.get log_index t.txn ≡ some (logs s)
    pub array_there : get_elem? t.arrays s.array ≡ some a
    pub room : s.held < a.cap
    pub written : s.held ≤ length a.cells

  -- The state after a log was added in the array that is there.
  abbrev added : Log → Txn env → LogSlice → LogArray → Txn env
  added log t s a = record (insert_entry env log_index (logs (record s { held = s.held + 1 })) t) {
    arrays = set t.arrays s.array (record a { cells = put_cell env s.held log a.cells });
  }

  append_in_place :
      (log : Log) (arrays : List LogArray) (s : LogSlice) (a : LogArray)
      → get_elem? arrays s.array ≡ some a
      → s.held < a.cap
      → append_log env s log arrays ≡ (
        record s { held = s.held + 1 },
        set arrays s.array (record a { cells = put_cell env s.held log a.cells }),
      )
  unfolding append_log
  append_in_place log arrays s a f l =
      let room : ltb s.held a.cap ≡ true = ground (arith, l) in rw (f, room, append_log) refl

  add_log_in_place :
      (log : Log) (t : Txn env) (s : LogSlice) (a : LogArray)
      → HasRoom t s a
      → add_log env log t ≡ added log t s a
  unfolding add_log
  add_log_in_place log t s a h =
      ap
        (λ (o : Option (Entry env.slot_tree.Tree)).
          let p = append_log env (as_logs env t.arrays o) log t.arrays in
          record (insert_entry env log_index (logs p.0) t) { arrays = p.1 })
        h.entry
      ∙ ap
          (λ (p : LogSlice × List LogArray). record (insert_entry env log_index (logs p.0) t) {
            arrays = p.1;
          })
          (append_in_place log t.arrays s a h.array_there h.room)

  take_logs_found :
      (t : Txn env) (s : LogSlice) (a : LogArray)
      → env.radix.get log_index t.txn ≡ some (logs s)
      → get_elem? t.arrays s.array ≡ some a
      → (take_logs env t).0 ≡ taken env s.held a.cells
  unfolding take_logs
  take_logs_found t s a e f = rw (e, take_logs) (ap (λ o. taken env s.held (cells_of env o)) f)

  revert_found :
      (t : Txn env) (id : ℕ) (tree : env.radix.Tree)
      → get_elem? t.snapshots id ≡ some tree
      → revert_to_snapshot env id t ≡ some (record t { txn = tree })
  unfolding revert_to_snapshot
  revert_found t id tree e = rw (e, revert_to_snapshot) refl

  in_range :
      (arrays : List LogArray) (i : ℕ) (a : LogArray)
      → get_elem? arrays i ≡ some a
      → i < length arrays
  in_range [] i a e = ground (arith, e)
  in_range (b ∷ arrays) zero a e = omega arith
  in_range (b ∷ arrays) (suc i) a e = omega (arith, in_range arrays i a e)

  -- What Logs takes after a log was added in place is what was there, and the log.
  take_logs-added :
      (log : Log) (t v : Txn env) (s : LogSlice) (a : LogArray)
      → HasRoom t s a
      → env.radix.get log_index v.txn ≡ some (logs (record s { held = s.held + 1 }))
      → v.arrays ≡ (added log t s a).arrays
      → (take_logs env v).0 ≡ taken env s.held a.cells ++ log ∷ []
  take_logs-added log t v s a h e same =
      let a' : LogArray = record a { cells = put_cell env s.held log a.cells } in
      take_logs_found v (record s { held = s.held + 1 }) a' e
        (ap (λ l. get_elem? l s.array) same
          ∙ get_elem?-set t.arrays s.array a' (in_range t.arrays s.array a h.array_there))
      ∙ ap (λ n. taken env n a'.cells) {x = s.held + 1} {y = suc s.held} (omega arith)
      ∙ taken-after s.held log a.cells h.written

  -- What the logs are, from the second snapshot on.
  abbrev Mixed : Txn env → Log → Log → Txn env → Type 0
  Mixed t x y t₂ =
      let old = (take_logs env t).0 in
      let t₃ = (snapshot env t₂).1 in
      (u v : Txn env) × (revert_to_snapshot env (snapshot env t).0 t₃ ≡ some u)
      × (revert_to_snapshot env (snapshot env t₂).0 (add_log env y u) ≡ some v)
      × ((take_logs env t₂).0 ≡ old ++ x ∷ [])
      × ((take_logs env u).0 ≡ old)
      × ((take_logs env v).0 ≡ old ++ y ∷ [])

  added-Mixed :
      (t : Txn env) (s : LogSlice) (a : LogArray) (x y : Log)
      → HasRoom t s a
      → HasRoom (record t { snapshots = t.snapshots ++ t.txn ∷ [] }) s a
      → Mixed t x y (added x (record t { snapshots = t.snapshots ++ t.txn ∷ [] }) s a)
  unfolding snapshot
  added-Mixed t s a x y h h₁ =
      let t₁ : Txn env = record t { snapshots = t.snapshots ++ t.txn ∷ [] } in
      let t₂ = added x t₁ s a in
      let u : Txn env = record t₂ { snapshots = t₂.snapshots ++ t₂.txn ∷ []; txn = t.txn } in
      let a₁ : LogArray = record a { cells = put_cell env s.held x a.cells } in
      let there = get_elem?-set t.arrays s.array a₁ (in_range t.arrays s.array a h.array_there) in
      let hu : HasRoom u s a₁ = record {
        entry = h.entry;
        array_there = there;
        room = h.room;
        written = omega (arith, length-put_cell s.held x a.cells h.written);
      } in
      let w = added y u s a₁ in
      let v : Txn env = record w { txn = t₂.txn } in
      let old = sym (take_logs_found t s a h.entry h.array_there) in
      let before = taken-before s.held x a.cells h.written ∙ old in
      let one = get_elem?-append_last t.snapshots t.txn in
      let entry = trees.get-insert log_index (logs (record s { held = s.held + 1 })) t.txn in
      (
        u,
        v,
        revert_found (snapshot env t₂).1 (length t.snapshots) t.txn
            (get_elem?-append t₂.snapshots (t₂.txn ∷ []) (length t.snapshots) t.txn one),
        ap (revert_to_snapshot env (length t₂.snapshots)) (add_log_in_place y u s a₁ hu)
            ∙ revert_found w (length t₂.snapshots) t₂.txn
                (get_elem?-append_last t₂.snapshots t₂.txn),
        take_logs-added x t₁ t₂ s a h₁ entry refl ∙ ap (λ l. l ++ x ∷ []) old,
        take_logs_found u s a₁ h.entry there ∙ before,
        take_logs-added y u v s a₁ hu entry refl ∙ ap (λ l. l ++ y ∷ []) before,
      )

  -- Let the slice of logs have room in its array, as append leaves it. A snapshot, a log, a second snapshot, a
  -- revert to the first one, another log and a revert to the second one: the logs are then the old ones and
  -- the other log, where they were the old ones and the first log when the second snapshot was taken. The revert
  -- to the first one brings back the old ones.
  pub revert_to_snapshot-mixes_logs :
      (t : Txn env) (s : LogSlice) (a : LogArray) (x y : Log)
      → HasRoom t s a
      → let old = (take_logs env t).0 in
        let (one, t₁) = snapshot env t in
        let t₂ = add_log env x t₁ in
        let (two, t₃) = snapshot env t₂ in
        (u v : Txn env) × (revert_to_snapshot env one t₃ ≡ some u)
        × (revert_to_snapshot env two (add_log env y u) ≡ some v)
        × ((take_logs env t₂).0 ≡ old ++ x ∷ [])
        × ((take_logs env u).0 ≡ old)
        × ((take_logs env v).0 ≡ old ++ y ∷ [])
  unfolding snapshot
  revert_to_snapshot-mixes_logs t s a x y h =
      let t₁ : Txn env = record t { snapshots = t.snapshots ++ t.txn ∷ [] } in
      let h₁ : HasRoom t₁ s a = record {
        entry = h.entry;
        array_there = h.array_there;
        room = h.room;
        written = h.written;
      } in
      subst (λ w. Mixed t x y w) (sym (add_log_in_place x t₁ s a h₁)) (added-Mixed t s a x y h h₁)
