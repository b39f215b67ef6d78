-- ===== src/Ledger.antt =====
-- `BalanceRuntime` of crates/runtime/src/lib.rs: private balances by account and asset, updated
-- through a confidential backend. Every operation is an action on the state behind the mutex.
pub mod State
pub mod Operations
pub mod Exchange
pub mod Value
pub mod Deposit
pub mod Withdrawal
pub mod Transfer
pub mod Atomic
pub mod Supply
pub mod History
pub mod Tests
