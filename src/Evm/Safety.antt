-- ===== src/Evm/Safety.antt =====
-- The words that an instruction pops are there: nothing reads a nil pointer.
pub mod Plain
pub mod Memory
pub mod Changes
pub mod Rounds
use mainnet.Evm.{Error, out_of_gas, gas_uint_overflow, nil_dereference, Vm}
use mainnet.Evm.Machine.{
  halt, exit, consume_gas, push, pop, grow, allocate_memory, get2, slice, memory_cost, words,
  resized,
}
use mainnet.Common.{
  ℕ, zero, suc, ◌+◌, ◌-◌, ◌*◌, ◌/◌, ◌%◌, ◌^◌, ◌≤◌, ◌<◌, ◌≡◌, refl, sym, ap, ◌∙◌, subst, ◌≢◌, ◌↔◌,
  ◌⊎◌, inl, inr, Bool, true, false, not, ◌&&◌, ◌||◌, Option, none, some, List, [], ◌∷◌, ◌++◌, map,
  arith, ltb, leb, ◌==◌, if◌then◌else◌, ==_iff, ==_refl, Bool-cases, Option-cases, same, same_iff,
  bytes_equal, bytes_equal_refl, eq_of_bytes_equal, length, get_elem?, set, drop, erase_at,
  length-append, length-erase_at, keep, count_if, All, length-keep, count_if-append, count_if-nil,
  get_elem?-total, count_if-keep, All-keep, All-map, All-append, All-drop, All-get_elem?, Result,
  ok, err, ◌>>=◌, ◌>>◌, ensure, or_fail, Result-cases, bind-ok, ensure-ok, or_fail-ok, all_below,
  all_below-holds, get_elem?-set, get_elem?-set_other, length-set, All-set,
}

abbrev pub reads_nil : Option Error → Bool
reads_nil (some nil_dereference) = true
reads_nil _ = false

module _ {World : Type 0} where
  -- No pop from an empty stack was read.
  pub data NoNil (c : Vm World) : Type 0 where
    clean : reads_nil c.error ≡ false → NoNil c

  pub kept : {c d : Vm World} → NoNil c → d.error ≡ c.error → NoNil d
  kept (clean h) e = clean (ap reads_nil e ∙ h)

  -- With n words on the stack.
  abbrev pub SafeWith : ℕ → (Vm World → Vm World) → Type 0
  SafeWith n next = (c : Vm World) → n ≤ length c.stack → NoNil c → NoNil (next c)

  pub branch-NoNil :
      {x y : Vm World} (b : Bool) → NoNil x → NoNil y → NoNil (elim b [ true ↦ x | false ↦ y ])
  branch-NoNil true h k = h
  branch-NoNil false h k = k

  pub if-NoNil : {x y : Vm World} (b : Bool) → NoNil x → NoNil y → NoNil (if b then x else y)
  if-NoNil true h k = h
  if-NoNil false h k = k

  pub option-NoNil :
      {A : Type 0} {x : Vm World} {y : A → Vm World} (o : Option A)
      → NoNil x
      → ((a : A) → NoNil (y a))
      → NoNil (elim o [ none ↦ x | some a ↦ y a ])
  option-NoNil none h k = h
  option-NoNil (some a) h k = k a

  pub list-NoNil :
      {x : Vm World} {y : ℕ → List ℕ → Vm World} (s : List ℕ)
      → NoNil x
      → ((a : ℕ) (rest : List ℕ) → NoNil (y a rest))
      → NoNil (elim s [ [] ↦ x | a ∷ rest ↦ y a rest ])
  list-NoNil [] h k = h
  list-NoNil (a ∷ rest) h k = k a rest

  pub pop-Safe :
      (n : ℕ) (next : ℕ → Vm World → Vm World)
      → ((a : ℕ) → SafeWith n (next a))
      → SafeWith (suc n) (λ c. pop c next)
  unfolding pop
  pop-Safe n next h c l e = stacked c.stack l
    where
      stacked :
          (s : List ℕ)
          → suc n ≤ length s
          → NoNil (elim s [
            | [] ↦ exit nil_dereference c
            | v ∷ rest ↦ next v (record c { stack = rest })
          ])
      stacked [] k = absurd (omega (arith, k))
      stacked (v ∷ rest) k = h v (record c { stack = rest }) (omega (arith, k)) (kept e refl)

  pub consume_gas-Safe :
      (n amount : ℕ) (next : Vm World → Vm World)
      → SafeWith n next
      → SafeWith n (λ c. consume_gas amount c next)
  unfolding consume_gas
  consume_gas-Safe n amount next h c l e =
      branch-NoNil (ltb c.gas amount) (clean refl) (h _ l (kept e refl))

  pub grow-Safe :
      (n new_size : ℕ) (next : Vm World → Vm World)
      → SafeWith n next
      → SafeWith n (λ c. grow new_size c next)
  unfolding grow
  grow-Safe n new_size next h c l e =
      branch-NoNil (ltb (length c.memory) new_size)
        (consume_gas-Safe n _ _ (λ d l e. h (resized (words new_size * 32) d) l (kept e refl))
          (record c { last_gas_cost = memory_cost (words new_size) }) l (kept e refl))
        (h c l e)

  pub allocate_memory-Safe :
      (n offset size : ℕ) (next : Vm World → Vm World)
      → SafeWith n next
      → SafeWith n (λ c. allocate_memory offset size c next)
  unfolding allocate_memory
  allocate_memory-Safe n offset size next h c l e =
      branch-NoNil (leb (2 ^ 64) offset || leb (2 ^ 64) size) (clean refl) (
        branch-NoNil (size == 0) (h c l e) (
          branch-NoNil (ltb 0xffffffffe0 offset || ltb 0xffffffffe0 size) (clean refl)
            (grow-Safe n (offset + size) next h c l e)))

  pub get2-Safe :
      (n offset size : ℕ) (next : List ℕ → Vm World → Vm World)
      → ((bytes : List ℕ) → SafeWith n (next bytes))
      → SafeWith n (λ c. get2 offset size c next)
  unfolding get2
  get2-Safe n offset size next h c l e = branch-NoNil (size == 0) (h [] c l e) (
      allocate_memory-Safe n offset size (λ d. next (slice offset size d.memory) d)
        (λ d. h (slice offset size d.memory) d) c l e)
