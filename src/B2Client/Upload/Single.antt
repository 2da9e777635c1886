-- ===== src/B2Client/Upload/Single.antt =====
-- Uploads of services/b2-client/src/upload.rs: which way a file goes, and the upload in one request
use emporium.Prelude.{
  ℕ, zero, suc, String, ◌&&◌, Option, none, some, [], ok, err, leb, ltb, if◌then◌else◌,
}
use emporium.Prelude.Actions.{Action, failed, pure, fail, panic, unwrap, attempt, ◌>>=◌}
use emporium.Std.Path.{FilePath}
use emporium.StorageDriver.{Bytes}
use emporium.B2Client.Types.{BucketId}
use emporium.B2Client.Errors.{B2RequestError, io, retries_exhausted}
use emporium.B2Client.Remote.{Service, World, large_file_size}
use emporium.B2Client.Upload.Digest.{Reads, digest, slice_reads}
use emporium.B2Client.Upload.Uploader.{B2Uploader, b2_upload_file, b2_get_upload_url}
use emporium.B2Client.Upload.Large.{
  Source, Job, on_world, or_again, sleep, count_parts, upload_large_file,
}

-- `read_to_end`
unfoldable pub read_to_end : {S : Type 0} → Action (Job S) Bytes B2RequestError
read_to_end j =
    let rest = record j { source = record j.source { bytes = [] } } in
    elim j.source.broken [ none ↦ (ok j.source.bytes, rest) | some e ↦ (err (failed (io e)), rest) ]

-- an action with a reader of its own
unfoldable pub with_source :
    {S A : Type 0} → Source → Action (Job S) A B2RequestError → Action (Job S) A B2RequestError
with_source source m j =
    let (r, k) = m (record { world = j.world; source = source }) in
    (r, record j { world = k.world })

module _ {H S : Type 0} (env : Service H S) where
  -- the attempts that are left
  unfoldable pub file_attempts :
      ℕ
      → B2Uploader
      → BucketId
      → Bytes
      → FilePath
      → Option String
      → ℕ
      → Bytes
      → Action (World S) (Unit {0}) B2RequestError
  unfolding b2_upload_file b2_get_upload_url or_again sleep
  file_attempts zero uploader bucket body filename content_type n sha = fail retries_exhausted
  file_attempts (suc left) uploader bucket body filename content_type n sha = do
    r ← attempt (b2_upload_file env uploader body filename content_type n sha)
    or_again tt
        (sleep env 2 >>= λ _. b2_get_upload_url env bucket >>= λ again.
          file_attempts left again bucket body filename content_type n sha)
        r

  -- the upload in one request
  unfoldable pub upload_single :
      BucketId → FilePath → Option String → ℕ → Bytes → Action (Job S) (Unit {0}) B2RequestError
  unfolding b2_get_upload_url read_to_end file_attempts
  upload_single bucket filename content_type n sha = do
    uploader ← on_world (b2_get_upload_url env bucket)
    body ← read_to_end
    λ j.
        on_world
          (file_attempts j.world.b2.uploads.retries uploader bucket body filename content_type n
            sha)
          j

  -- by the number of parts
  unfoldable pub upload_by_size :
      ℕ → BucketId → FilePath → Option String → ℕ → Bytes → Action (Job S) (Unit {0}) B2RequestError
  unfolding upload_large_file upload_single
  upload_by_size parts bucket filename content_type n sha =
      if leb large_file_size n && ltb 1 parts
      then upload_large_file env bucket filename content_type n
      else upload_single bucket filename content_type n sha

  -- `upload_inner`
  unfoldable pub upload_inner :
      BucketId → FilePath → Option String → ℕ → Bytes → Action (Job S) (Unit {0}) B2RequestError
  unfolding count_parts upload_by_size
  upload_inner bucket filename content_type n sha j =
      (count_parts n j.world.b2.client.authentication.recommended_part_size >>= λ parts.
      upload_by_size parts bucket filename content_type n sha)
        j

  -- the content that was read, uploaded
  unfoldable pub upload_buffer :
      BucketId → FilePath → Option String → Bytes → Action (Job S) (Unit {0}) B2RequestError
  unfolding digest slice_reads upload_inner with_source
  upload_buffer bucket filename content_type buffer = elim (digest env.sha1 (slice_reads buffer)) [
    | err e ↦ fail (io e)
    | ok sum ↦
        with_source (record { bytes = buffer; broken = none })
          (upload_inner bucket filename content_type sum.content_length sum.digest)
  ]

  -- `upload_reader`
  unfoldable pub upload_reader :
      BucketId → FilePath → Option String → Action (Job S) (Unit {0}) B2RequestError
  unfolding read_to_end upload_buffer
  upload_reader bucket filename content_type =
      read_to_end >>= upload_buffer bucket filename content_type

  -- `upload_file_from_disk`: the reads of the file that is opened first, and the second reader
  unfoldable pub upload_file_from_disk :
      BucketId
      → Option Reads
      → Option Source
      → FilePath
      → Option String
      → Action (World S) (Unit {0}) B2RequestError
  unfolding digest upload_inner
  upload_file_from_disk bucket first second remote content_type = do
    reads ← unwrap first
    sum ← elim (digest env.sha1 reads) [ ok sum ↦ pure sum | err _ ↦ panic ]
    source ← unwrap second
    λ w.
        let (r, j) =
          upload_inner bucket remote content_type sum.content_length sum.digest
            (record { world = w; source = source }) in
        (r, j.world)
