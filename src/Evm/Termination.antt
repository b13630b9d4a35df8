-- ===== src/Evm/Termination.antt =====
-- state/runtime/evm/state.go and evm.go: the machine stops on every code.
use mainnet.Evm.{Contract, Forks, Frame, Host, Vm}
use mainnet.Evm.Gas.{halted, paid}
use mainnet.Evm.Gas.Changes.{KeepsGas}
use mainnet.Evm.Gas.Rounds.{round-Pays}
use mainnet.Evm.Run.{round, run_loop, initial, frame, run}
use mainnet.Common.{
  ℕ, zero, suc, ◌+◌, ◌≤◌, ◌<◌, ◌≡◌, refl, sym, ap, ◌∙◌, inl, inr, true, false, arith, Bool-cases,
}

module _ (host : Host) (f : Frame) (keeps_gas : KeepsGas host) (fork : f.config.eip150 ≡ true) where
  open host use {State}

  suc_add : (m n : ℕ) → suc m + n ≡ suc (m + n)
  suc_add m n = omega arith

  stays_stopped : (fuel : ℕ) (c : Vm State) → c.stopped ≡ true → run_loop host f fuel c ≡ c
  unfolding run_loop
  stays_stopped zero c s = refl
  stays_stopped (suc fuel) c s =
      ap (λ b. elim b [ true ↦ c | false ↦ run_loop host f fuel (round host f c) ]) s

  goes_on :
      (fuel : ℕ) (c : Vm State)
      → c.stopped ≡ false
      → run_loop host f (suc fuel) c ≡ run_loop host f fuel (round host f c)
  unfolding run_loop
  goes_on fuel c s = ap (λ b. elim b [ true ↦ c | false ↦ run_loop host f fuel (round host f c) ]) s

  -- With more rounds than gas the loop ends, with no more gas than at its start.
  run_loop-stops :
      (fuel : ℕ) (c : Vm State)
      → c.gas < fuel
      → ((run_loop host f fuel c).stopped ≡ true) × ((run_loop host f fuel c).gas ≤ c.gas)
  unfolding run_loop
  run_loop-stops zero c h = absurd (omega (arith, h))
  run_loop-stops (suc fuel) c h = elim (Bool-cases c.stopped) [
    | inl s ↦ rw (stays_stopped (suc fuel) c s) (s, omega arith)
    | inr s ↦ rw (goes_on fuel c s) (elim (round-Pays host f keeps_gas fork c) [
      | halted t l ↦ rw (stays_stopped fuel (round host f c) t) (t, l)
      | paid l ↦
          let (t, m) = run_loop-stops fuel (round host f c) (omega (arith, h, l)) in
          (t, omega (arith, l, m))
    ])
  ]

  run_loop-add :
      (m n : ℕ) (c : Vm State) → run_loop host f (m + n) c ≡ run_loop host f n (run_loop host f m c)
  unfolding run_loop
  run_loop-add zero n c = ap (λ k. run_loop host f k c) (omega arith)
  run_loop-add (suc m) n c =
      ap (λ k. run_loop host f k c) (suc_add m n) ∙ elim (Bool-cases c.stopped) [
        | inl s ↦
            rw (stays_stopped (suc m) c s)
              (stays_stopped (suc (m + n)) c s ∙ sym (stays_stopped n c s))
        | inr s ↦ rw (goes_on m c s, goes_on (m + n) c s) (run_loop-add m n (round host f c))
      ]

-- What a run ends in: it has stopped, with no more gas than it had, and more rounds change nothing.
pub record Settled (host : Host) (c : Contract) (world : host.State) (config : Forks) : Type 0 where
  pub stopped : (run host c world config).stopped ≡ true
  pub gas : (run host c world config).gas ≤ c.gas
  pub stays :
      (rounds : ℕ)
      → run_loop host (frame c config) (c.gas + 1 + rounds) (initial c.gas world)
        ≡ run host c world config

-- With EIP150, and a host whose calls leave at most the gas that they are given: the loop of the machine
-- stops on every code within as many rounds as it has gas and one more, with no more gas than at its
-- start, and more rounds change nothing.
pub run-Settled :
    (host : Host) (c : Contract) (world : host.State) (config : Forks)
    → KeepsGas host
    → config.eip150 ≡ true
    → Settled host c world config
unfolding run
run-Settled host c world config keeps_gas fork =
    let f = frame c config in
    let start = initial c.gas world in
    let (stopped, gas) = run_loop-stops host f keeps_gas fork (c.gas + 1) start (omega arith) in
    record {
      stopped = stopped;
      gas = gas;
      stays = λ rounds.
          run_loop-add host f keeps_gas fork (c.gas + 1) rounds start
          ∙ stays_stopped host f keeps_gas fork rounds (run_loop host f (c.gas + 1) start) stopped;
    }
