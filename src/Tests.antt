-- ===== src/Tests.antt =====
-- Concrete instances of the libraries that the program calls, runs at concrete inputs, and for each
-- result that has hypotheses an input where they hold.
pub mod Words
pub mod Codecs
mod Ids
mod Packets
mod Channels
mod Items
mod Sessions
mod Codes
mod Clients
mod Markets
mod Inventories
mod Confirmations
mod WebSessions
mod Classes
