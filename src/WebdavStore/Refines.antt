-- ===== src/WebdavStore/Refines.antt =====
-- The definitions in a user's space as a map from ids.
pub mod Files
pub mod Ops
pub mod Listing
