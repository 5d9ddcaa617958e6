-- ===== src/Trader.antt =====
-- virtual-trader/trader.py: the generator of the second ledger, on the exchange's test network.
pub mod Plan
pub mod Ledger
pub mod Events
pub mod Cycle
pub mod Api
pub mod Reconcile
pub mod Main
mod Tests
