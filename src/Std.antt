-- ===== src/Std.antt =====
-- The parts of Rust's standard library that the crates build on.
pub mod Ord
pub mod Str
pub mod Text
pub mod HashMap
pub mod BTreeMap
pub mod Int
pub mod Num
pub mod Path
