-- ===== src/Web.antt =====
-- The web front end: packages/web/src.
pub mod Engine
pub mod OrderBookTable
pub mod GlobalContext
pub mod ActiveOrderTable
pub mod Address
pub mod HistoryTable
pub mod BalanceTable
