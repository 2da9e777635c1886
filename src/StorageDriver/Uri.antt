-- ===== src/StorageDriver/Uri.antt =====
-- `Driver::parse_url` and `DriverUri` of storage-driver/src/driver.rs.
use emporium.Prelude.{
  String, Option, some, List, ◌∷◌, Result, ok, err, ◌>>=◌, ok_or, ◌==◌, string_eq, option_eq,
  if◌then◌else◌,
}
use mathlib.Core.Option.{get_or}
use emporium.Std.Path.{FilePath, root_dir}
use emporium.StorageDriver.{
  Driver, Reader, Writer, Metadata, StorageError, storage_error, invalid_scheme, missing_host,
}

-- `http::Uri`: the parts that are read. The components of its path begin with the root.
pub record Uri : Type 0 where
  pub scheme : Option String
  pub host : Option String
  pub path : FilePath

-- `path().trim_start_matches('/')`
unfoldable pub trim_root : FilePath → FilePath
trim_root (root_dir ∷ path) = path
trim_root path = path

-- The methods that take a URI. Those that change the state return it beside the result.
pub record UriDriver (S : Type 0) : Type 0 where
  pub delete : Uri → S → Result (Unit {0}) StorageError × S
  pub metadata : Uri → S → Result Metadata StorageError
  pub upload : Uri → Reader → S → Result (Unit {0}) StorageError × S
  pub download : Uri → Writer → S → Result Writer StorageError
  pub list : Uri → S → Result (List FilePath) StorageError

module _ {S : Type 0} (driver : Driver S) where
  unfoldable pub parse_url : Uri → Result (String × FilePath) StorageError
  unfolding trim_root
  parse_url url =
      if url.scheme == some driver.scheme
      then (do
        bucket ← ok_or url.host (storage_error driver.name missing_host)
        ok (bucket, trim_root url.path))
      else err (storage_error driver.name (invalid_scheme driver.scheme (get_or url.scheme "")))

  -- the macro `forward_uri!`, at a method that changes the state
  unfoldable pub forward :
      {A : Type 0}
      → Result (String × FilePath) StorageError
      → (String → FilePath → S → Result A StorageError × S)
      → S
      → Result A StorageError × S
  forward (ok (bucket, remote)) method s = method bucket remote s
  forward (err e) method s = (err e, s)

  -- `DriverUri`
  unfoldable pub driver_uri : UriDriver S
  unfolding forward
  driver_uri = record {
    delete = λ url. forward (parse_url url) driver.delete;
    metadata = λ url s. parse_url url >>= λ at. driver.metadata at.0 at.1 s;
    upload =
        λ url reader. forward (parse_url url) (λ bucket remote. driver.upload bucket remote reader);
    download = λ url writer s. parse_url url >>= λ at. driver.download at.0 at.1 writer s;
    list = λ url s. parse_url url >>= λ at. driver.list at.0 (some at.1) s;
  }
