-- ===== src/StorageDriver.antt =====
-- The crate `storage-driver`: the interface of a storage backend over an explicit state, the errors,
-- and the adaptor that takes URIs.
pub mod Uri
use emporium.Prelude.{
  ℕ, String, Bool, true, false, Option, none, some, List, [], ◌∷◌, ◌++◌, Result, ok, err,
  if◌then◌else◌,
}
use emporium.Std.Path.{FilePath}

abbrev pub Bytes : Type 0
Bytes = List ℕ

-- the causes of errors, in place of the texts of `eyre::Report`
pub data Report : Type 0 where
  bucket_not_found : String → Report
  path_not_found : FilePath → Report
  invalid_scheme : String → String → Report
  missing_host : Report
  driver_not_found : String → Report
  io_error : String → Report

-- `StorageError`
pub record StorageError : Type 0 where
  pub engine : String
  pub error : Report

-- `StorageError::new`, and `StorageError::with` partly applied
unfoldable pub storage_error : String → Report → StorageError
storage_error engine error = record { engine = engine; error = error }

-- `Metadata`; a time is a number
pub record Metadata : Type 0 where
  pub size : ℕ
  pub created : ℕ

-- A stream to read: what reading it to its end gives, the bytes or an I/O error.
abbrev pub Reader : Type 0
Reader = Result Bytes Report

-- A stream to write: the bytes written so far, and whether it takes more.
pub record Writer : Type 0 where
  pub written : Bytes
  pub accepts : Bool

-- `tokio::io::copy` into a writer, and the flush
unfoldable pub write_all : Writer → Bytes → Result Writer Report
write_all w bytes =
    if w.accepts then ok (record w { written = w.written ++ bytes }) else err (io_error "copy")

-- The trait `Driver`, with the state that its methods read and change.
pub record Driver (S : Type 0) : Type 0 where
  pub name : String
  pub scheme : String
  pub delete : String → FilePath → S → Result (Unit {0}) StorageError × S
  pub metadata : String → FilePath → S → Result Metadata StorageError
  pub upload : String → FilePath → Reader → S → Result (Unit {0}) StorageError × S
  pub download : String → FilePath → Writer → S → Result Writer StorageError
  pub list : String → Option FilePath → S → Result (List FilePath) StorageError

-- `impl Driver for Arc<D>`
unfoldable pub arc_driver : {S : Type 0} → Driver S → Driver S
arc_driver d = record {
  name = d.name;
  scheme = d.scheme;
  delete = λ bucket remote. d.delete bucket remote;
  metadata = λ bucket remote. d.metadata bucket remote;
  upload = λ bucket remote reader. d.upload bucket remote reader;
  download = λ bucket remote writer. d.download bucket remote writer;
  list = λ bucket prefix. d.list bucket prefix;
}
