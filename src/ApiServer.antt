-- ===== src/ApiServer.antt =====
-- The API server's configuration routes: packages/apiserver/src/routes.
pub mod Config
pub mod Datastreams
pub mod Exchanges
pub mod Status
