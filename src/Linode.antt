-- ===== src/Linode.antt =====
-- services/linode/src/lib.rs: a client of Linode.
pub mod Types
pub mod Ttl
pub mod Pagination
pub mod Listing
pub mod Instances
pub mod SubDomains
pub mod Client
