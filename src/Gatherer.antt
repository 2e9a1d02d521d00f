-- ===== src/Gatherer.antt =====
-- The gatherer service: packages/gatherer/src.
pub mod Diff
pub mod Feed
pub mod Loop
pub mod Streamer
pub mod Orders
pub mod Balances
pub mod Worker
pub mod Candles
