-- ===== src/App.antt =====
-- app/src/app.rs: what the application does to the store when synchronised events arrive.
pub mod Blocks
pub mod FeedItem
pub mod Presence
pub mod Events
pub mod InterpSync
pub mod Migration
pub mod Docs
