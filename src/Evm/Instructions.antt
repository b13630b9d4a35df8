-- ===== src/Evm/Instructions.antt =====
-- state/runtime/evm/instructions.go: the instructions, one function for each.
pub mod Arithmetic
pub mod Context
pub mod Copying
pub mod Effects
pub mod Calls
pub mod Creation
