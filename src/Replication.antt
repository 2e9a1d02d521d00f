-- ===== src/Replication.antt =====
-- From the gatherer's feed to the magicbox's cache: worker.ts of packages/gatherer and
-- datastream-service.ts of packages/magicbox, joined by the messages that the one writes and the
-- other reads in the order of writing.
pub mod Side
pub mod Sync
pub mod Orders
pub mod Workers
pub mod Candles
pub mod Tests
