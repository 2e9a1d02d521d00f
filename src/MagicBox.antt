-- ===== src/MagicBox.antt =====
-- The magicbox service: packages/magicbox/src.
pub mod Cache
pub mod OrderBooks
pub mod Orders
pub mod Reader
pub mod Grid
pub mod Adapter
pub mod Handlers
pub mod SpreadTrader
pub mod Worker
