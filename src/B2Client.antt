-- ===== src/B2Client.antt =====
-- The crate `b2-client`: a storage driver over the API of Backblaze B2. The service behind HTTP and
-- its state, JSON and the encodings are parameters.
pub mod Types
pub mod Errors
pub mod Application
pub mod Remote
pub mod Bucket
pub mod File
pub mod Download
pub mod Upload
pub mod Driver
pub mod Multi
