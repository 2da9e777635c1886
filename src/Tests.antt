-- ===== src/Tests.antt =====
-- Each theorem of the results applied to concrete data.
mod Data
mod Remote
mod Backblaze
mod Uploads
mod Epochs
mod Domains
mod Github
mod Retained
mod Books
mod Shelves
mod Stores
mod Client
mod Cache
