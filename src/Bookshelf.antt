-- ===== src/Bookshelf.antt =====
-- The crate `bookshelf`: volumes of date-indexed artifacts in cloud storage.
pub mod Epoch
pub mod Expiration
pub mod Volume
pub mod Shelf
