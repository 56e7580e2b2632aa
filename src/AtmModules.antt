-- ===== src/AtmModules.antt =====
-- packages/atm-modules/src/index.ts: the modules of a transaction over the runtime that they share.
pub mod Calls
pub mod Withdrawal
pub mod Deposit
pub mod Balance
pub mod Admin
pub mod Customer
pub mod Session
pub mod Simulated
pub mod Rules
pub mod Money
pub mod Statuses
pub mod Outcomes
pub mod Transfers
pub mod Conservation
mod Tests
