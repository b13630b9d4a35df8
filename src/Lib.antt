-- ===== src/Lib.antt =====
-- ACryptoChain mainnet: the validators of the network, the votes that change them, the pool of
-- transactions that wait for a block, the groups in which they run, the virtual machine, the accounts that
-- a block changes, the trie that keeps them, and the rewards that a block pays.
--
-- The parts and their files:
-- - Common: shared tests, lists and Go's (value, error) results.
-- - Validators: the package validators. Validator is one validator (types.go, ecdsa.go, bls.go), Set a
--   validator set (set.go), Quorum the sizes of quorums and the proposer of a round (validators.go).
-- - Snapshot: Vote of validators/store/types.go and Snapshot of validators/store/snapshot/types.go,
--   the validator set at a block with the votes that are open.
-- - SnapshotStore: snapshotStore of the same file, the snapshots in order of their block numbers. Its
--   children hold sort.Search, the order of the list, find, deleteLower and putByNumber.
-- - Voting: SnapshotValidatorStore of validators/store/snapshot/snapshot.go and helper.go. ModifyHeader
--   (Voting/Candidates) writes the vote of this node into a header, ProcessHeader (Voting/Headers)
--   reads the votes of others from headers (Voting/Votes) and saves a snapshot where they change it.
--   A signer and the chain are the interfaces that the source takes, fields of Env.
-- - TxPool: TxPool of txpool/txpool.go, the transactions that wait, by sender and by hash. TxPool holds
--   AddTransaction, TxPool/Removal what takes transactions out; the other children prove what they keep.
-- - Queues: one account of txpool/account.go with its queues of txpool/queue.go, and in Queues/Gauge the
--   slots of txpool/slot_gauge.go. container/heap is the record Heap, its documented contract, which
--   Queues/Sorted fills by a sorted list.
-- - Parallel: parallel/parallel_executor.go, the groups of transactions that may run at the same time.
-- - Access: the state keys that executor.go expects a transaction to read and write, by which Parallel
--   groups. Access/Texts is about the texts of addresses that stand in the keys.
-- - Evm: the virtual machine of state/runtime/evm with the types of state/runtime/runtime.go. Evm/Words is
--   the arithmetic of instructions.go without the stack, Evm/Machine the gas, the stack and the memory of
--   state.go, Evm/Instructions the handlers (opAdd is op_add, and so on), Evm/Dispatch the tables of
--   opcodes.go and dispatch_table.go, Evm/Bitmap the jump destinations of bitmap.go, Evm/Run the loop of
--   state.go and Run of evm.go. The other children prove: Evm/Gas and Evm/Termination what a round costs,
--   Evm/Safety what it pops, Evm/Jumps, Evm/Powers and Evm/Results what their names say. The host, which
--   holds the state of the accounts and runs the contracts that are called, is the record Host.
-- - Txn: Txn of state/txn.go with the objects of state/state.go, the accounts that a block changes.
--   Txn/Accounts holds snapshots, balances, nonces, codes, refunds and logs, Txn/Slices append on logs,
--   Txn/Storage the words of contracts, the clean-up and Commit. go-immutable-radix is
--   the record Radix, and what is relied on of it the records IsTree and IsWalk, which Txn/Lists fills by lists.
-- - Trie: Txn of state/immutable-trie/trie.go, lookup, insertion and deletion in the trie of the state. Its
--   children are about insertion: Trie/Prefixes and Trie/Paths about keys, Trie/Inserting about the inserted
--   key, Trie/Others, with Trie/Leaving and Trie/Branching, about the other keys, Trie/Growing and
--   Trie/Keeping about the form of the trie. Insertion runs on fuel: Fits bounds the levels below a node.
-- - Nibbles: the keys of the trie, state/immutable-trie/encoding.go.
-- - Rewards: RewardCalculator of rewards/reward.go over the balances of a state.
--
-- sort.Sort is the record Sorting, of which only the order and the elements of its result are known, since it
-- is not stable; SnapshotStore/Order fills it. keccak, of which String() of an address asks for the capitals,
-- is an argument. The logs of a transaction are a slice of an array that snapshots share.
--
-- A struct is a record, an enumeration a data type, a slice a list, a pointer that may be nil an Option.
-- A method that changes its receiver returns the new one. An address is the number that its 20 bytes
-- spell, in Access the list of them. A uint64 is a natural number; where the code subtracts or adds
-- without a check the wrap-around at 2 ^ 64 is written out. Mutexes are left out: every method is
-- one step, as the lock makes it.
--
-- Loops over slices are recursions on lists. sort.Search and the search of findClosestSnapshotIndex run
-- on fuel: the length of the list, which halves in every round, so that the fuel never ends first.
-- The loops of prune and promote run on the length of the queue, since every round takes one transaction
-- out. The machine runs on its gas and one round more, since every round takes gas or stops it.
-- ProcessHeadersInRange takes as many rounds as the range has heights.
--
-- Not modelled: RLP and JSON coding, which third-party code does (the coding of a BLS validator is a
-- field of Env), logging, and the parts of the system that the manifest lists as left out: consensus
-- messages, the storage of the state, the network and the command line. Of the virtual machine the tracer is
-- left out, which only observes, and the capacity of the memory beyond its length: a slice that ends
-- behind the length is taken to panic. Of the trie the cached hashes and the epochs of nodes are left out, by
-- which nodes are written or changed in place, and a storage that fails.
pub mod Common
pub mod Validators
pub mod Snapshot
pub mod SnapshotStore
pub mod Voting
pub mod Rewards
pub mod TxPool
pub mod Queues
pub mod Parallel
pub mod Access
pub mod Nibbles
pub mod Evm
pub mod Txn
pub mod Trie
