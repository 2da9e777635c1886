-- ===== src/B2Client/File.antt =====
-- services/b2-client/src/file.rs: the metadata of a file, deleting its versions, and MIME types
pub mod Mime
use emporium.Prelude.{
  ℕ, ◌^◌, ◌≡◌, String, Option, none, some, List, [], ◌∷◌, Result, ok, err, ltb, filterb, ◌==◌,
  list_eq, if◌then◌else◌,
}
use emporium.Prelude.Actions.{Action, pure, ◌>>=◌, ◌>>◌}
use emporium.Std.Path.{FilePath, component_eq}
use emporium.Std.Path.Display.{to_text}
use emporium.StorageDriver.{Metadata}
use emporium.B2Client.Types.{BucketId, FileId, FileInfo, FileDeleteRequest, file_delete}
use emporium.B2Client.Errors.{B2RequestError, handle_errors}
use emporium.B2Client.Remote.{Service, World, post_to}
use emporium.B2Client.Bucket.{b2_list_file_names}

-- `From<FileInfo> for Metadata`; a timestamp that is no `i64` or no time panics
unfoldable pub to_metadata : (ℕ → Option ℕ) → FileInfo → Option Metadata
to_metadata timestamp_millis info =
    if ltb info.upload_timestamp (2 ^ 63)
    then elim (timestamp_millis info.upload_timestamp) [
      | none ↦ none
      | some created ↦ some (record { size = info.content_length; created = created })
    ]
    else none

module _ {H S : Type 0} (env : Service H S) where
  -- `B2Client::b2_delete_file_version`
  unfoldable pub b2_delete_file_version :
      FilePath → FileId → Action (World S) (Unit {0}) B2RequestError
  unfolding post_to handle_errors
  b2_delete_file_version name id = do
    resp ←
        post_to env "b2_delete_file_version"
          (file_delete (record { file_name = name; file_id = id; bypass_governance = none }))
    _ ← handle_errors env.reading resp
    pure tt

  -- the deletions that are joined, in order, up to the first that fails
  unfoldable pub delete_versions : List FileInfo → Action (World S) (Unit {0}) B2RequestError
  unfolding b2_delete_file_version
  delete_versions [] = pure tt
  delete_versions (file ∷ files) = do
    _ ← b2_delete_file_version file.file_name file.file_id
    delete_versions files

  -- the files that were listed, less those of other names
  unfoldable pub delete_listed :
      FilePath → List FileInfo → Action (World S) (Unit {0}) B2RequestError
  unfolding delete_versions
  delete_listed name [] = pure tt
  delete_listed name (file ∷ files) =
      delete_versions (filterb (λ f. f.file_name == name) (file ∷ files))

  -- `B2Client::delete_file`
  unfoldable pub delete_file : BucketId → FilePath → Action (World S) (Unit {0}) B2RequestError
  unfolding b2_list_file_names delete_listed to_text
  delete_file bucket name =
      b2_list_file_names env bucket (some (to_text name)) (some "/") >>= delete_listed name
