-- ===== src/Storage.antt =====
-- The crate `storage`: the client types over a driver (storage/src/lib.rs), the driver in memory, and
-- the storage that picks a driver by URI.
pub mod Contract
pub mod Memory
pub mod Multi
use emporium.Prelude.{String, List, Option, Result}
use emporium.Std.Path.{FilePath}
use emporium.StorageDriver.{Driver, Reader, Writer, Metadata, StorageError}
use emporium.StorageDriver.Uri.{UriDriver, driver_uri}

-- `Storage`
pub record Storage (S : Type 0) : Type 0 where
  pub driver : Driver S

-- `StorageBucket`
pub record StorageBucket (S : Type 0) : Type 0 where
  pub bucket : String
  pub driver : Driver S

module _ {S : Type 0} (storage : Storage S) where
  unfoldable pub name : String
  name = storage.driver.name

  unfoldable pub scheme : String
  scheme = storage.driver.scheme

  unfoldable pub bucket : String → StorageBucket S
  bucket b = record { bucket = b; driver = storage.driver }

  unfoldable pub metadata : String → FilePath → S → Result Metadata StorageError
  metadata = storage.driver.metadata

  unfoldable pub download : String → FilePath → Writer → S → Result Writer StorageError
  download = storage.driver.download

  unfoldable pub upload : String → FilePath → Reader → S → Result (Unit {0}) StorageError × S
  upload = storage.driver.upload

  unfoldable pub list : String → Option FilePath → S → Result (List FilePath) StorageError
  list = storage.driver.list

  unfoldable pub delete : String → FilePath → S → Result (Unit {0}) StorageError × S
  delete = storage.driver.delete

  unfoldable pub uri : UriDriver S
  uri = driver_uri storage.driver

module _ {S : Type 0} (b : StorageBucket S) where
  unfoldable pub bucket_metadata : FilePath → S → Result Metadata StorageError
  bucket_metadata remote = b.driver.metadata b.bucket remote

  unfoldable pub bucket_download : FilePath → Writer → S → Result Writer StorageError
  bucket_download remote = b.driver.download b.bucket remote

  unfoldable pub bucket_upload : FilePath → Reader → S → Result (Unit {0}) StorageError × S
  bucket_upload remote = b.driver.upload b.bucket remote

  unfoldable pub bucket_list : Option FilePath → S → Result (List FilePath) StorageError
  bucket_list prefix = b.driver.list b.bucket prefix

  unfoldable pub bucket_delete : FilePath → S → Result (Unit {0}) StorageError × S
  bucket_delete path = b.driver.delete b.bucket path
