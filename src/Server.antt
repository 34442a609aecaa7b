-- ===== src/Server.antt =====
-- The server: its database and its vault, who a request is from, and the export of a key (server/).
pub mod Database
pub mod Vault
pub mod Auth
pub mod Origin
pub mod Dkg
pub mod Sign
pub mod AddDevice
pub mod Providers
pub mod Export
pub mod Tests
