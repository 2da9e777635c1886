-- ===== src/B2Client/Upload/Large.antt =====
-- Uploads in parts, of services/b2-client/src/upload.rs, with the reader that they read
use emporium.Prelude.{
  ℕ, zero, suc, ◌+◌, ◌/◌, String, Bool, false, Option, none, some, List, [], ◌∷◌, map, Result, ok,
  err, ltb, nat_beq, length, take, drop, if◌then◌else◌,
}
use emporium.Prelude.Actions.{Action, Fault, failed, pure, fail, panic, attempt, settle, ◌>>=◌}
use emporium.Std.Path.{FilePath}
use emporium.StorageDriver.{Bytes}
use emporium.B2Client.Types.{BucketId, FileId, FileInfo}
use emporium.B2Client.Errors.{B2RequestError, b2_error, io, retries_exhausted}
use emporium.B2Client.Remote.{Service, World}
use emporium.B2Client.Upload.Digest.{FileDigest, digest, slice_reads}
use emporium.B2Client.Upload.Uploader.{
  B2Uploader, b2_upload_part, b2_get_upload_part_url, b2_start_large_file, b2_finish_large_file,
  b2_cancel_large_file,
}

-- what is left of a reader: its bytes, and the error that it gives after them, if it does
pub record Source : Type 0 where
  pub bytes : Bytes
  pub broken : Option String

-- an upload in progress
pub record Job (S : Type 0) : Type 0 where
  pub world : World S
  pub source : Source

-- an error that is worth another attempt
unfoldable pub is_unavailable : Fault B2RequestError → Bool
is_unavailable (failed (b2_error error)) = nat_beq error.status 503
is_unavailable _ = false

-- the outcome of a part's task
abbrev pub Outcome : Type 0
Outcome = Result FileDigest (Fault B2RequestError)

module _ {S : Type 0} where
  abbrev pub on_world :
      {A : Type 0} → Action (World S) A B2RequestError → Action (Job S) A B2RequestError
  on_world m j = let (r, w) = m j.world in (r, record j { world = w })

  -- up to `n` bytes of the reader, which may end or fail before
  unfoldable pub read_part : ℕ → Action (Job S) Bytes B2RequestError
  read_part n j = elim j.source.broken [
    | none ↦ (
      ok (take n j.source.bytes),
      record j { source = record j.source { bytes = drop n j.source.bytes } },
    )
    | some e ↦
        if ltb (length j.source.bytes) n
        then (err (failed (io e)), record j { source = record j.source { bytes = [] } })
        else (
          ok (take n j.source.bytes),
          record j { source = record j.source { bytes = drop n j.source.bytes } },
        )
  ]

-- `try_join_all` of tasks that have ended: their digests, or the first fault
unfoldable pub join_all : {T : Type 0} → List Outcome → Action T (List FileDigest) B2RequestError
join_all [] = pure []
join_all (outcome ∷ outcomes) = do d ← settle outcome; ds ← join_all outcomes; pure (d ∷ ds)

-- after an attempt: its value, another attempt where the service was not available, or the fault
unfoldable pub or_again :
    {T A : Type 0}
    → A
    → Action T A B2RequestError
    → Result (Unit {0}) (Fault B2RequestError)
    → Action T A B2RequestError
unfolding is_unavailable
or_again a again (ok _) = pure a
or_again a again (err fault) = if is_unavailable fault then again else settle (err fault)

-- the handle of a part, if there is one, in front of those of later parts
unfoldable pub push_handle : Option Outcome → List Outcome → List Outcome
push_handle none outcomes = outcomes
push_handle (some outcome) outcomes = outcome ∷ outcomes

-- `(content_length / part_size) + 1`, which panics at a part size of 0
unfoldable pub count_parts : {T : Type 0} → ℕ → ℕ → Action T ℕ B2RequestError
count_parts content_length zero = panic
count_parts content_length (suc n) = pure (content_length / suc n + 1)

module _ {H S : Type 0} (env : Service H S) where
  -- `tokio::time::sleep`, in seconds
  unfoldable pub sleep : ℕ → Action (World S) (Unit {0}) B2RequestError
  sleep seconds w = (ok tt, record w { remote = env.sleep seconds w.remote })

  -- the attempts of a part's task that are left, from the `attempt`th on
  unfoldable pub part_attempts :
      ℕ
      → ℕ
      → B2Uploader
      → FileId
      → ℕ
      → Bytes
      → FileDigest
      → Action (World S) FileDigest B2RequestError
  unfolding b2_upload_part sleep b2_get_upload_part_url or_again
  part_attempts zero k uploader file part buffer sum = fail retries_exhausted
  part_attempts (suc left) k uploader file part buffer sum = do
    r ← attempt (b2_upload_part env uploader buffer part sum.content_length sum.digest)
    or_again sum
        (sleep k >>= λ _. b2_get_upload_part_url env file >>= λ again.
          part_attempts left (suc k) again file part buffer sum)
        r

  -- the task that `upload_part_inner` spawns
  unfoldable pub part_task :
      B2Uploader → FileId → ℕ → Bytes → Action (World S) FileDigest B2RequestError
  unfolding digest slice_reads part_attempts
  part_task uploader file part buffer w = elim (digest env.sha1 (slice_reads buffer)) [
    | err e ↦ (err (failed (io e)), w)
    | ok sum ↦ part_attempts w.b2.uploads.retries 1 uploader file part buffer sum w
  ]

  -- the part that was read, unless it is empty
  unfoldable pub spawn_part : ℕ → FileId → Bytes → Action (Job S) (Option Outcome) B2RequestError
  unfolding b2_get_upload_part_url part_task
  spawn_part part file [] = pure none
  spawn_part part file (b ∷ buffer) = do
    uploader ← on_world (b2_get_upload_part_url env file)
    outcome ← on_world (attempt (part_task uploader file part (b ∷ buffer)))
    pure (some outcome)

  -- `upload_part_inner`
  unfoldable pub upload_part_inner :
      ℕ → ℕ → FileInfo → Action (Job S) (Option Outcome) B2RequestError
  unfolding read_part spawn_part
  upload_part_inner part part_size info = read_part part_size >>= spawn_part part info.file_id

  -- the loop over the parts: how many are left, and the number of the next
  unfoldable pub upload_parts : ℕ → ℕ → ℕ → FileInfo → Action (Job S) (List Outcome) B2RequestError
  unfolding upload_part_inner push_handle
  upload_parts zero part part_size info = pure []
  upload_parts (suc left) part part_size info = do
    handle ← upload_part_inner part part_size info
    handles ← upload_parts left (suc part) part_size info
    pure (push_handle handle handles)

  -- `upload_multipart_inner`
  unfoldable pub upload_multipart_inner :
      ℕ → FileInfo → ℕ → Action (Job S) (Unit {0}) B2RequestError
  unfolding count_parts upload_parts join_all b2_finish_large_file
  upload_multipart_inner part_size info content_length = do
    parts ← count_parts content_length part_size
    handles ← upload_parts parts 1 part_size info
    digests ← join_all handles
    on_world (b2_finish_large_file env info (map (λ d. d.digest) digests))

  -- the end of a large upload: a failed one is cancelled, whatever that gives
  unfoldable pub finish_or_cancel :
      FileInfo → Result (Unit {0}) (Fault B2RequestError) → Action (Job S) (Unit {0}) B2RequestError
  unfolding b2_cancel_large_file
  finish_or_cancel info (ok _) = pure tt
  finish_or_cancel info (err (failed error)) = do
    r ← attempt (on_world (b2_cancel_large_file env info))
    elim r [ ok _ ↦ fail error | err (failed _) ↦ fail error | err fault ↦ settle (err fault) ]
  finish_or_cancel info (err fault) = settle (err fault)

  -- `upload_large_file`
  unfoldable pub upload_large_file :
      BucketId → FilePath → Option String → ℕ → Action (Job S) (Unit {0}) B2RequestError
  unfolding b2_start_large_file upload_multipart_inner finish_or_cancel
  upload_large_file bucket filename content_type content_length = do
    info ← on_world (b2_start_large_file env bucket filename content_type)
    r ← λ j.
        attempt
          (upload_multipart_inner j.world.b2.client.authentication.recommended_part_size info
            content_length)
          j
    finish_or_cancel info r
