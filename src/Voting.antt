-- ===== src/Voting.antt =====
-- SnapshotValidatorStore of validators/store/snapshot/snapshot.go, with helper.go: the proof of
-- authority votes that headers carry, and the snapshots that they make.
-- The chain (HeaderGetter) and the signers (SignerInterface) are the interfaces that the source takes.
-- A method that mutates the store returns the new state; where it can fail after a write, the state
-- comes back beside the error. Logging and locks are left out: each method is one step.
pub mod Types
pub mod Miner
pub mod Votes
pub mod Tally
pub mod Headers
pub mod Invariant
pub mod Ranges
pub mod Candidates
pub mod Proposals
mod Tests
