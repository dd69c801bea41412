-- ===== src/Tf2.antt =====
-- The package tf2: the session with the TF2 Game Coordinator. Each child models one of its files.
pub mod Wire
pub mod Item
pub mod Messages
pub mod Cache
pub mod Client
