-- ===== src/Tss.antt =====
-- utils/tss: the wallet's threshold signature actors, their message queues and their results.
pub mod PeerManager
pub mod Alice
pub mod Wallet
pub mod Signature
pub mod Service
pub mod Actors
pub mod Recovery
pub mod Tests
pub mod Connection
