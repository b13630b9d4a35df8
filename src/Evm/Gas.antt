-- ===== src/Evm/Gas.antt =====
-- The gas that an instruction takes, composed from the parts of the machine.
pub mod Plain
pub mod Memory
pub mod Changes
pub mod Calls
pub mod Rounds
use mainnet.Evm.{Error, out_of_gas, gas_uint_overflow, slice_out_of_range, Frame, Vm}
use mainnet.Evm.Machine.{
  halt, exit, consume_gas, push, pop, grow, allocate_memory, get2, slice, memory_cost, words,
  resized,
}
use mainnet.Common.{
  ℕ, zero, suc, ◌+◌, ◌-◌, ◌*◌, ◌/◌, ◌%◌, ◌^◌, ◌≤◌, ◌<◌, ◌≡◌, refl, sym, ap, ◌∙◌, subst, ◌≢◌, ◌↔◌,
  ◌⊎◌, inl, inr, Bool, true, false, not, ◌&&◌, ◌||◌, Option, none, some, List, [], ◌∷◌, ◌++◌, map,
  arith, ltb, leb, ◌==◌, if◌then◌else◌, ==_iff, ==_refl, Bool-cases, Option-cases, same, same_iff,
  bytes_equal, bytes_equal_refl, eq_of_bytes_equal, length, get_elem?, set, drop, erase_at,
  length-append, length-erase_at, keep, count_if, All, length-keep, count_if-append, count_if-nil,
  get_elem?-total, count_if-keep, All-keep, All-map, All-append, All-drop, All-get_elem?, Result,
  ok, err, ◌>>=◌, ◌>>◌, ensure, or_fail, Result-cases, bind-ok, ensure-ok, or_fail-ok,
}

sub_add : (g amount : ℕ) → ltb g amount ≡ false → g - amount + amount ≡ g
sub_add g amount e = ground (arith, e)

pub if-positive : (b : Bool) (m n : ℕ) → 1 ≤ m → 1 ≤ n → 1 ≤ (if b then m else n)
if-positive true m n h k = h
if-positive false m n h k = k

module _ {World : Type 0} where
  -- The machine has stopped with no more gas than before, or it has paid.
  pub data Paid (n gas : ℕ) (d : Vm World) : Type 0 where
    halted : d.stopped ≡ true → d.gas ≤ gas → Paid n gas d
    paid : d.gas + n ≤ gas → Paid n gas d

  abbrev pub Pays : ℕ → (Vm World → Vm World) → Type 0
  Pays n next = (c : Vm World) → Paid n c.gas (next c)

  pub branch-Paid :
      {n gas : ℕ} {x y : Vm World} (b : Bool)
      → Paid n gas x
      → Paid n gas y
      → Paid n gas (elim b [ true ↦ x | false ↦ y ])
  branch-Paid true h k = h
  branch-Paid false h k = k

  pub if-Paid :
      {n gas : ℕ} {x y : Vm World} (b : Bool)
      → Paid n gas x
      → Paid n gas y
      → Paid n gas (if b then x else y)
  if-Paid true h k = h
  if-Paid false h k = k

  pub option-Paid :
      {n gas : ℕ} {A : Type 0} {x : Vm World} {y : A → Vm World} (o : Option A)
      → Paid n gas x
      → ((a : A) → Paid n gas (y a))
      → Paid n gas (elim o [ none ↦ x | some a ↦ y a ])
  option-Paid none h k = h
  option-Paid (some a) h k = k a

  pub list-Paid :
      {n gas : ℕ} {x : Vm World} {y : ℕ → List ℕ → Vm World} (s : List ℕ)
      → Paid n gas x
      → ((a : ℕ) (rest : List ℕ) → Paid n gas (y a rest))
      → Paid n gas (elim s [ [] ↦ x | a ∷ rest ↦ y a rest ])
  list-Paid [] h k = h
  list-Paid (a ∷ rest) h k = k a rest

  -- What follows may give back what is taken.
  pub consume_gas-Gives :
      (n amount : ℕ) (c : Vm World) (next : Vm World → Vm World)
      → ((d : Vm World) → Paid n (d.gas + amount) (next d))
      → Paid n c.gas (consume_gas amount c next)
  unfolding consume_gas
  consume_gas-Gives n amount c next h = elim (Bool-cases (ltb c.gas amount)) [
    | inl e ↦ rw (e, consume_gas) (halted refl (omega arith))
    | inr e ↦
        rw (e, consume_gas)
          (subst
            (λ g.
              Paid n g (
                next
                  (record c { consumed = (c.consumed + amount) % 2 ^ 64; gas = c.gas - amount })))
            (sub_add c.gas amount e)
            (h (record c { consumed = (c.consumed + amount) % 2 ^ 64; gas = c.gas - amount })))
  ]

  Paid-shift : (n m gas : ℕ) (d : Vm World) → Paid n gas d → Paid (m + n) (gas + m) d
  Paid-shift n m gas d (halted s l) = halted s (omega (arith, l))
  Paid-shift n m gas d (paid l) = paid (omega (arith, l))

  pub consume_gas-Pays :
      (n amount : ℕ) (c : Vm World) (next : Vm World → Vm World)
      → Pays n next
      → Paid (amount + n) c.gas (consume_gas amount c next)
  consume_gas-Pays n amount c next h =
      consume_gas-Gives (amount + n) amount c next λ d. Paid-shift n amount d.gas (next d) (h d)

  -- At least some of what is taken.
  pub Paid-weaken : (m n gas : ℕ) (d : Vm World) → m ≤ n → Paid n gas d → Paid m gas d
  Paid-weaken m n gas d h (halted s l) = halted s l
  Paid-weaken m n gas d h (paid l) = paid (omega (arith, h, l))

  pub consume_gas-Paid :
      (n amount : ℕ) (c : Vm World) (next : Vm World → Vm World)
      → Pays n next
      → Paid n c.gas (consume_gas amount c next)
  consume_gas-Paid n amount c next h =
      Paid-weaken n (amount + n) c.gas (consume_gas amount c next) (omega arith)
        (consume_gas-Pays n amount c next h)

  pub pop-Pays :
      (n : ℕ) (c : Vm World) (next : ℕ → Vm World → Vm World)
      → ((a : ℕ) → Pays n (next a))
      → Paid n c.gas (pop c next)
  unfolding pop
  pop-Pays n c next h =
      list-Paid c.stack (halted refl (omega arith)) λ a rest. h a (record c { stack = rest })

  pub grow-Pays :
      (n new_size : ℕ) (c : Vm World) (next : Vm World → Vm World)
      → Pays n next
      → Paid n c.gas (grow new_size c next)
  unfolding grow
  grow-Pays n new_size c next h = elim (Bool-cases (ltb (length c.memory) new_size)) [
    | inr e ↦ rw (e, grow) (h c)
    | inl e ↦
        rw (e, grow)
          (consume_gas-Paid n _ (record c { last_gas_cost = memory_cost (words new_size) }) _
            (λ d. h (resized (words new_size * 32) d)))
  ]

  pub allocate_memory-Pays :
      (n offset size : ℕ) (c : Vm World) (next : Vm World → Vm World)
      → Pays n next
      → Paid n c.gas (allocate_memory offset size c next)
  unfolding allocate_memory
  allocate_memory-Pays n offset size c next h =
      elim (Bool-cases (leb (2 ^ 64) offset || leb (2 ^ 64) size)) [
        | inl e ↦ rw (e, allocate_memory) (halted refl (omega arith))
        | inr e ↦ elim (Bool-cases (size == 0)) [
          | inl g ↦ rw (e, g, allocate_memory) (h c)
          | inr g ↦ elim (Bool-cases (ltb 0xffffffffe0 offset || ltb 0xffffffffe0 size)) [
            | inl k ↦ rw (e, g, k, allocate_memory) (halted refl (omega arith))
            | inr k ↦ rw (e, g, k, allocate_memory) (grow-Pays n (offset + size) c next h)
          ]
        ]
      ]

  pub get2-Pays :
      (n offset size : ℕ) (c : Vm World) (next : List ℕ → Vm World → Vm World)
      → ((bytes : List ℕ) → Pays n (next bytes))
      → Paid n c.gas (get2 offset size c next)
  unfolding get2
  get2-Pays n offset size c next h = elim (Bool-cases (size == 0)) [
    | inl e ↦ rw (e, get2) (h [] c)
    | inr e ↦
        rw (e, get2)
          (allocate_memory-Pays n offset size c (λ d. next (slice offset size d.memory) d)
            (λ d. h (slice offset size d.memory) d))
  ]

  -- More gas to begin with.
  pub Paid-more : (n g gas : ℕ) (d : Vm World) → g + n ≤ gas → Paid 0 g d → Paid n gas d
  Paid-more n g gas d h (halted s l) = halted s (omega (arith, h, l))
  Paid-more n g gas d h (paid l) = paid (omega (arith, h, l))

  -- What keeps the gas pays nothing.
  pub keeps : (c d : Vm World) → d.gas ≡ c.gas → Paid 0 c.gas d
  keeps c d e = paid (omega (arith, e))

  -- What stops the machine has paid.
  pub stops : (n : ℕ) (c d : Vm World) → d.stopped ≡ true → d.gas ≡ c.gas → Paid n c.gas d
  stops n c d s e = halted s (omega (arith, e))
