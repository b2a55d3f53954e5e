-- ===== src/Cache.antt =====
-- The cache of tier1/src/cache: one entry type, its backends, and what stands in front of them.
pub mod Entry
pub mod Deadlines
pub mod Backend
pub mod Moka
pub mod Memory
pub mod Chain
pub mod Frontend
pub mod Pins
pub mod Store
