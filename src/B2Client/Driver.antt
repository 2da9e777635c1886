-- ===== src/B2Client/Driver.antt =====
-- `Driver for B2Client` of services/b2-client/src/client.rs: a storage driver, whose actions are made
-- again once when the authorization has expired.
pub mod Renewal
use emporium.Prelude.{
  ℕ, String, Bool, true, false, Option, none, some, List, [], ◌∷◌, map, Result, ok, err, length,
}
use emporium.Prelude.Actions.{
  Action, Fault, failed, panicked, diverged, pure, fail, panic, unwrap, attempt, settle, map_fail,
  ◌>>=◌,
}
use emporium.Std.Path.{FilePath}
use emporium.Std.Path.Display.{to_text}
use emporium.StorageDriver.{Bytes, Metadata, Report, io_error, Reader, Writer, write_all}
use emporium.B2Client.Types.{Bucket, BucketId, FileInfo, by_name}
use emporium.B2Client.Errors.{
  B2Error, B2ErrorCode, expired_auth_token, B2RequestError, b2_error, AuthenticationErrorKind,
}
use emporium.B2Client.Remote.{Service, World, refresh_authorization}
use emporium.B2Client.Bucket.{b2_list_buckets, b2_list_file_names, get_bucket}
use emporium.B2Client.File.{delete_file, to_metadata}
use emporium.B2Client.Download.{b2_download_file_by_name}
use emporium.B2Client.Upload.Digest.{Reads}
use emporium.B2Client.Upload.Large.{Source, Job, on_world}
use emporium.B2Client.Upload.Single.{upload_reader, upload_file_from_disk}

-- the causes of a `StorageError` of this driver: an error of a request, with what was being done, the
-- number of files found where one was wanted, or an error of the stream
pub data DriverError : Type 0 where
  while_doing : String → B2RequestError → DriverError
  files_found : ℕ → FilePath → DriverError
  stream_error : String → DriverError

-- an error that says that the authorization has expired
unfoldable pub is_expired : Fault B2RequestError → Bool
is_expired (failed (b2_error error)) = elim error.code [ expired_auth_token ↦ true | _ ↦ false ]
is_expired _ = false

module _ {T A : Type 0} (refresh : Action T (Unit {0}) AuthenticationErrorKind)
    (method : Action T A B2RequestError) where
  -- the method again if the authorization was refreshed, and else the first result
  unfoldable pub after_refresh :
      Result A (Fault B2RequestError)
      → Result (Unit {0}) (Fault AuthenticationErrorKind)
      → Action T A B2RequestError
  after_refresh result (ok _) = method
  after_refresh result (err (failed _)) = settle result
  after_refresh result (err panicked) = settle (err panicked)
  after_refresh result (err diverged) = settle (err diverged)

  unfoldable pub renew : Result A (Fault B2RequestError) → Action T A B2RequestError
  unfolding after_refresh
  renew result t = let (r, u) = refresh t in after_refresh result r u

  -- whether the result calls for another authorization
  unfoldable pub renew_expired : Result A (Fault B2RequestError) → Action T A B2RequestError
  unfolding is_expired renew
  renew_expired (ok a) = pure a
  renew_expired (err fault) = elim (is_expired fault) [
    | true ↦ renew (err fault)
    | false ↦ settle (err fault)
  ]

  -- the macro `auth!`
  unfoldable pub auth : Action T A B2RequestError
  unfolding renew_expired
  auth t = let (r, u) = method t in renew_expired r u

-- `assert_eq!(buckets.len(), 1)` and `pop`
unfoldable pub the_bucket : {T : Type 0} → List Bucket → Action T Bucket DriverError
the_bucket (bucket ∷ []) = pure bucket
the_bucket _ = panic

-- the one file of a listing
unfoldable pub the_file :
    {T : Type 0} → ℕ → FilePath → List FileInfo → Action T FileInfo DriverError
the_file n remote (info ∷ []) = pure info
the_file n remote infos = fail (files_found n remote)

module _ {H S : Type 0} (env : Service H S) where
  -- an action of the client, with `auth!`
  unfoldable pub authorized :
      {A : Type 0} → Action (World S) A B2RequestError → Action (World S) A B2RequestError
  unfolding auth refresh_authorization
  authorized method = auth (refresh_authorization env) method

  -- the bucket of a name, not cached, as `metadata` and `list` find it
  unfoldable pub listed_bucket : String → Action (World S) Bucket DriverError
  unfolding authorized b2_list_buckets the_bucket
  listed_bucket bucket =
      map_fail (while_doing "list bucket") (authorized (b2_list_buckets env (by_name bucket) none))
      >>= the_bucket

  -- the files under a prefix
  unfoldable pub listed_files :
      BucketId → Option FilePath → Action (World S) (List FileInfo) DriverError
  unfolding authorized b2_list_file_names to_text
  listed_files bucket prefix = map_fail (while_doing "list files") (
      authorized (
        b2_list_file_names env bucket (elim prefix [ none ↦ none | some p ↦ some (to_text p) ])
          none))

  -- the cached bucket of a name
  unfoldable pub cached_bucket : String → Action (World S) BucketId DriverError
  unfolding authorized get_bucket
  cached_bucket bucket = do
    found ← map_fail (while_doing "get id") (authorized (get_bucket env bucket))
    pure found.bucket_id

  -- `Driver::metadata`
  unfoldable pub metadata : String → FilePath → Action (World S) Metadata DriverError
  unfolding listed_bucket listed_files the_file to_metadata
  metadata bucket remote = do
    found ← listed_bucket bucket
    infos ← listed_files found.bucket_id (some remote)
    info ← the_file (length infos) remote infos
    unwrap (to_metadata env.timestamp_millis info)

  -- `Driver::delete`
  unfoldable pub delete : String → FilePath → Action (World S) (Unit {0}) DriverError
  unfolding cached_bucket delete_file
  delete bucket remote = do
    id ← cached_bucket bucket
    map_fail (while_doing "delete") (delete_file env id remote)

  -- what a reader gives, and what it gives when it is read again
  unfoldable pub source_of : Reader → (Report → String) → Source
  source_of (ok bytes) text = record { bytes = bytes; broken = none }
  source_of (err e) text = record { bytes = []; broken = some (text e) }

  -- `refresh_authorization` in an upload
  unfoldable pub refresh_in_job : Action (Job S) (Unit {0}) AuthenticationErrorKind
  unfolding refresh_authorization
  refresh_in_job j = let (r, w) = refresh_authorization env j.world in (r, record j { world = w })

  -- an upload of a reader, with `auth!`, which reads the same reader when it is made again
  unfoldable pub upload_source :
      BucketId → Source → FilePath → Action (World S) (Unit {0}) B2RequestError
  unfolding auth refresh_in_job upload_reader
  upload_source id source remote w =
      let (r, j) =
        auth refresh_in_job (upload_reader env id remote none)
          (record { world = w; source = source }) in
      (r, j.world)

  -- `Driver::upload`
  unfoldable pub upload : String → FilePath → Source → Action (World S) (Unit {0}) DriverError
  unfolding cached_bucket upload_source
  upload bucket remote local = do
    id ← cached_bucket bucket
    map_fail (while_doing "upload") (upload_source id local remote)

  -- `Driver::upload_file`, of a file that is opened to be summed and again to be sent
  unfoldable pub upload_file :
      String → FilePath → Option Reads → Option Source → Action (World S) (Unit {0}) DriverError
  unfolding cached_bucket authorized upload_file_from_disk
  upload_file bucket remote first second = do
    id ← cached_bucket bucket
    map_fail (while_doing "upload")
        (authorized (upload_file_from_disk env id first second remote none))

  -- the stream copied to the writer, and the flush
  unfoldable pub copy_stream : Result Bytes String → Writer → Action (World S) Writer DriverError
  unfolding write_all
  copy_stream (err e) local = fail (stream_error e)
  copy_stream (ok bytes) local = elim (write_all local bytes) [
    | ok written ↦ pure written
    | err _ ↦ fail (stream_error "copy")
  ]

  -- `impl_download` and `Driver::download`
  unfoldable pub download : String → FilePath → Writer → Action (World S) Writer DriverError
  unfolding authorized b2_download_file_by_name copy_stream
  download bucket remote local = do
    stream ←
        map_fail (while_doing "open download stream")
          (authorized (b2_download_file_by_name env bucket remote))
    copy_stream stream local

  -- `Driver::list`
  unfoldable pub list : String → Option FilePath → Action (World S) (List String) DriverError
  unfolding listed_bucket listed_files to_text
  list bucket prefix = do
    found ← listed_bucket bucket
    infos ← listed_files found.bucket_id prefix
    pure (map (λ f. to_text f.file_name) infos)
