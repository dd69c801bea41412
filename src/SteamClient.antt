-- ===== src/SteamClient.antt =====
-- The package steamclient: the connection to a CM server. Each child models one of its files.
pub mod Protocol
pub mod Mask
pub mod Message
pub mod Gc
pub mod Crypto
pub mod Tcp
pub mod Events
pub mod Session
pub mod Requests
