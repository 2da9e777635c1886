-- ===== src/Octocat.antt =====
-- services/octocat/src/lib.rs and services/octocat/src/models/mod.rs: a client of GitHub for an
-- application.
pub mod Types
pub mod Token
pub mod Validity
pub mod App
