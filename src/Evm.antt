-- ===== src/Evm.antt =====
-- The EVM module (evm/types): the state database that the virtual machine runs on.
pub mod Table
pub mod AccessList
pub mod Dirties
pub mod StateObject
pub mod Journal
pub mod StateDb
pub mod Snapshot
pub mod Getters
pub mod Commit
pub mod Finalise
pub mod Registers
mod Tests
