-- ===== src/Staking.antt =====
-- The staking module (staking).
pub mod Delegator
pub mod Result
pub mod Store
pub mod Votes
pub mod Handlers
pub mod Delegation
pub mod Validators
pub mod Dispatch
pub mod Status
mod Tests
mod Examples
