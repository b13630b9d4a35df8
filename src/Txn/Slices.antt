-- ===== src/Txn/Slices.antt =====
-- state/txn.go: slices of logs, and append on them.
use mainnet.Txn.{LogSlice, LogArray, Log, Entry, logs, Env}
use mainnet.Common.{
  get_elem?, ◌+◌, ltb, ◌∷◌, ◌++◌, List, [], Option, none, some, true, false, zero, suc, set, ℕ, ◌+◌,
  true, false, Option, none, some, List, [], ◌∷◌, ◌++◌, ltb, length, get_elem?,
}

module _ (env : Env) where
  -- The slice of an entry, and a nil slice where there is none.
  abbrev pub as_logs : List LogArray → Option (Entry env.slot_tree.Tree) → LogSlice
  as_logs arrays (some (logs s)) = s
  as_logs arrays _ = record { array = length arrays; held = 0 }

  abbrev pub taken : ℕ → List Log → List Log
  taken zero cells = []
  taken (suc n) [] = []
  taken (suc n) (log ∷ cells) = log ∷ taken n cells

  abbrev pub cells_of : Option LogArray → List Log
  cells_of none = []
  cells_of (some a) = a.cells

  -- The logs of a slice.
  abbrev pub logs_in : List LogArray → LogSlice → List Log
  logs_in arrays s = taken s.held (cells_of (get_elem? arrays s.array))

  -- A write of a cell; the next one behind those that were written may be written, none further on.
  abbrev pub put_cell : ℕ → Log → List Log → List Log
  put_cell zero log [] = log ∷ []
  put_cell zero log (c ∷ cells) = log ∷ cells
  put_cell (suc n) log [] = []
  put_cell (suc n) log (c ∷ cells) = c ∷ put_cell n log cells

  -- append makes a new array with a copy of the logs,
  abbrev pub grown : LogSlice → Log → List LogArray → LogSlice × List LogArray
  grown s log arrays =
      let new : LogArray = record {
        cap = s.held + 1 + env.spare (s.held + 1);
        cells = logs_in arrays s ++ log ∷ [];
      } in
      (record { array = length arrays; held = s.held + 1 }, arrays ++ new ∷ [])

  -- or, where the array has room, writes the next cell of the array that is there.
  unfoldable pub append_log : LogSlice → Log → List LogArray → LogSlice × List LogArray
  append_log s log arrays = elim (get_elem? arrays s.array) [
    | none ↦ grown s log arrays
    | some a ↦ elim (ltb s.held a.cap) [
      | true ↦ (
        record s { held = s.held + 1 },
        set arrays s.array (record a { cells = put_cell s.held log a.cells }),
      )
      | false ↦ grown s log arrays
    ]
  ]
