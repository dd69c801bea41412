-- ===== src/SteamApi.antt =====
-- steamapi: the calls of the Web API.
pub mod Json
pub mod Time
pub mod Descriptions
pub mod AssetClasses
