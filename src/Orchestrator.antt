-- ===== src/Orchestrator.antt =====
-- The payment orchestrator: crates/payment-orchestrator/src. It has its own database, in Store.
pub mod Store
pub mod Deposits
pub mod Custody
pub mod Tiered
pub mod Poller
pub mod Direct
pub mod Bridge
pub mod BscPayments
pub mod BscCredit
pub mod BscAddress
pub mod BscWatch
pub mod Life
