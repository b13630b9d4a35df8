-- ===== src/Validators.antt =====
-- The package validators: single validators, validator sets, and the quorum arithmetic on a set.
pub mod Validator
pub mod Set
pub mod Quorum
mod Tests
