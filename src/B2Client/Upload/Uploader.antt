-- ===== src/B2Client/Upload/Uploader.antt =====
-- The calls of the API that upload, of services/b2-client/src/upload.rs. The client of a `B2Uploader`
-- is the client that made it, whose authorization it shares.
use emporium.Prelude.{ℕ, String, Option, none, some, List, [], ◌∷◌, ok}
use mathlib.Core.Option.{get_or}
use emporium.Prelude.Actions.{Action, pure, panic, unwrap, ◌>>=◌}
use emporium.Secret.{to_header}
use emporium.Std.Num.{to_decimal}
use emporium.Std.Path.{FilePath}
use emporium.Std.Path.Display.{to_text}
use emporium.StorageDriver.{Bytes}
use emporium.ApiClient.Http.{Http, Method, Request}
use emporium.ApiClient.Authentication.{authorization}
use emporium.ApiClient.Client.Builder.{RequestParts, header_of, with_body}
use emporium.B2Client.Types.{
  BucketId, BucketUploadInfo, BzMime, auto, mime, FileAction, FileId, FileInfo, upload, Body, bytes,
  upload_url, upload_part_url, start_large_file, finish_large_file, cancel_large_file,
}
use emporium.B2Client.Errors.{B2RequestError, deserialize}
use emporium.B2Client.Remote.{Service, World, ask, send}
use emporium.B2Client.Download.{built}

pub record B2Uploader : Type 0 where
  pub info : BucketUploadInfo

-- `assert!(matches!(info.action, Action::Upload))`
unfoldable pub assert_upload : {T : Type 0} → FileAction → Action T (Unit {0}) B2RequestError
assert_upload upload = pure tt
assert_upload _ = panic

-- `mime.map_or(BzMime::Auto, BzMime::Mime)`
unfoldable pub bz_mime : Option String → BzMime
bz_mime none = auto
bz_mime (some m) = mime m

module _ {H : Type 0} (http : Http H) where
  -- the headers of a builder, in order
  unfoldable pub with_headers : List (String × String) → RequestParts H → RequestParts H
  unfolding header_of
  with_headers [] p = p
  with_headers ((key, value) ∷ headers) p = with_headers headers (header_of http key value p)

  -- the request to the upload's URL: the upload's token, and headers
  unfoldable pub upload_request :
      BucketUploadInfo → List (String × String) → Bytes → Option String → Option (Request H Body)
  unfolding with_headers with_body built
  upload_request info headers content none = none
  upload_request info headers content (some token) =
      let parts : RequestParts H =
        ok (record { method = Method.post; uri = info.upload_url; headers = http.headers.empty }) in
      built (with_body (with_headers ((authorization, token) ∷ headers) parts) (bytes content))

module _ {H S : Type 0} (env : Service H S) where
  -- `B2Uploader::b2_upload_file`
  unfoldable pub b2_upload_file :
      B2Uploader
      → Bytes
      → FilePath
      → Option String
      → ℕ
      → Bytes
      → Action (World S) (Unit {0}) B2RequestError
  unfolding upload_request send deserialize assert_upload to_header to_text to_decimal
  b2_upload_file uploader file filename content_type content_length content_sha = do
    request ← unwrap (
        upload_request env.http uploader.info
          (("x-bz-file-name", env.percent_encode (to_text filename))
            ∷ ("content-type", get_or content_type "b2/x-auto")
            ∷ ("content-length", to_decimal content_length)
            ∷ ("x-bz-content-sha1", env.hex content_sha)
            ∷ [])
          file (to_header env.http.is_header_value uploader.info.authorization_token))
    response ← send env request
    info ← deserialize env.reading env.json.upload_file response
    assert_upload info.action

  -- `B2Uploader::b2_upload_part`, which does not look at the response
  unfoldable pub b2_upload_part :
      B2Uploader → Bytes → ℕ → ℕ → Bytes → Action (World S) (Unit {0}) B2RequestError
  unfolding upload_request send to_header to_decimal
  b2_upload_part uploader part part_number content_length content_sha = do
    request ← unwrap (
        upload_request env.http uploader.info
          (("content-length", to_decimal content_length)
            ∷ ("x-bz-part-number", to_decimal part_number)
            ∷ ("x-bz-content-sha1", env.hex content_sha)
            ∷ [])
          part (to_header env.http.is_header_value uploader.info.authorization_token))
    _ ← send env request
    pure tt

  -- `b2_get_upload_url`
  unfoldable pub b2_get_upload_url : BucketId → Action (World S) B2Uploader B2RequestError
  unfolding ask
  b2_get_upload_url bucket = do
    info ←
        ask env "b2_get_upload_url" (upload_url (record { bucket_id = bucket }))
          env.json.upload_info
    pure (record { info = info })

  -- `b2_get_upload_part_url`
  unfoldable pub b2_get_upload_part_url : FileId → Action (World S) B2Uploader B2RequestError
  unfolding ask
  b2_get_upload_part_url file = do
    info ←
        ask env "b2_get_upload_part_url" (upload_part_url (record { file_id = file }))
          env.json.upload_info
    pure (record { info = info })

  -- `b2_start_large_file`
  unfoldable pub b2_start_large_file :
      BucketId → FilePath → Option String → Action (World S) FileInfo B2RequestError
  unfolding ask bz_mime
  b2_start_large_file bucket filename content_type =
      ask env "b2_start_large_file"
        (start_large_file (record {
          bucket_id = bucket;
          file_name = filename;
          content_type = bz_mime content_type;
        }))
        env.json.file_info

  -- `b2_finish_large_file`
  unfoldable pub b2_finish_large_file :
      FileInfo → List Bytes → Action (World S) (Unit {0}) B2RequestError
  unfolding ask
  b2_finish_large_file info shas = do
    _ ←
        ask env "b2_finish_large_file"
          (finish_large_file (record { file_id = info.file_id; part_sha1_array = shas }))
          env.json.file_info
    pure tt

  -- `b2_cancel_large_file`
  unfoldable pub b2_cancel_large_file : FileInfo → Action (World S) (Unit {0}) B2RequestError
  unfolding ask
  b2_cancel_large_file info = do
    _ ←
        ask env "b2_cancel_large_file" (cancel_large_file (record { file_id = info.file_id }))
          env.json.file_info
    pure tt
