-- ===== src/Tests.antt =====
-- Runs of the handlers on a small treasury, and the theorems at those runs.
mod Sample
mod Minting
mod Paying
mod Chain
mod Edge
mod Requests
mod Roles
mod Sweeps
mod Arrivals
pub mod Deposits
mod Deciding
