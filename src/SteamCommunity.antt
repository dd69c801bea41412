-- ===== src/SteamCommunity.antt =====
-- The package steamcommunity: what it reads from the pages and the endpoints of the community site.
pub mod Texts
pub mod Http
pub mod Market
pub mod Inventory
pub mod Confirmation
