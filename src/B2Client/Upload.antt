-- ===== src/B2Client/Upload.antt =====
-- services/b2-client/src/upload.rs. Digest has the sums of the content, Uploader the calls of the API,
-- Single and Large the two ways to upload, and the rest what they do. A task that is spawned is run to
-- its end where it is spawned, so a permit of the semaphore is always free.
pub mod Digest
pub mod Uploader
pub mod Large
pub mod Single
pub mod Parts
pub mod Multipart
pub mod Pieces
pub mod Refused
