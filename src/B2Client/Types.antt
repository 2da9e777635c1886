-- ===== src/B2Client/Types.antt =====
-- The values that b2-client sends and receives. The JSON of a value is the value.
use emporium.Prelude.{ℕ, String, Option, List}
use emporium.Std.Path.{FilePath}
use emporium.Secret.{Secret}
use emporium.ApiClient.Http.{Uri}

-- `BucketID` and `FileID`
pub record BucketId : Type 0 where
  pub text : String

pub record FileId : Type 0 where
  pub text : String

pub data BucketType : Type 0 where
  all_private all_public snapshot : BucketType

pub record Bucket : Type 0 where
  pub bucket_name : String
  pub bucket_id : BucketId
  pub bucket_type : BucketType

pub data SelectBucket : Type 0 where
  all : SelectBucket
  by_id : BucketId → SelectBucket
  by_name : String → SelectBucket

pub record BucketListBody : Type 0 where
  pub account_id : Secret
  pub bucket_id : Option BucketId
  pub bucket_name : Option String
  pub bucket_types : Option (List BucketType)

-- `BucketListResponse`
pub record BucketListResponse : Type 0 where
  pub buckets : List Bucket

pub record FileListBody : Type 0 where
  pub bucket_id : BucketId
  pub start_file_name : Option FilePath
  pub max_file_count : Option ℕ
  pub prefix : Option String
  pub delimiter : Option String

-- `Action` of file.rs and of upload.rs
pub data FileAction : Type 0 where
  start upload hide folder : FileAction

-- `BzMime`, with the type of the crate `mime` as its text
pub data BzMime : Type 0 where
  auto hide_marker : BzMime
  mime custom : String → BzMime

pub record FileInfo : Type 0 where
  pub account_id : Secret
  pub action : FileAction
  pub bucket_id : BucketId
  pub content_length : ℕ
  pub content_type : BzMime
  pub file_id : FileId
  pub file_name : FilePath
  pub upload_timestamp : ℕ

pub record FileListResponse : Type 0 where
  pub files : List FileInfo
  pub next_file_name : Option FilePath

pub record FileDeleteRequest : Type 0 where
  pub file_name : FilePath
  pub file_id : FileId
  pub bypass_governance : Option (Unit {0})

pub record GetUploadUrlBody : Type 0 where
  pub bucket_id : BucketId

pub record StartLargeFileBody : Type 0 where
  pub bucket_id : BucketId
  pub file_name : FilePath
  pub content_type : BzMime

pub record GetUploadPartUrlBody : Type 0 where
  pub file_id : FileId

pub record BucketUploadInfo : Type 0 where
  pub upload_url : Uri
  pub authorization_token : Secret

pub record UploadFileResponse : Type 0 where
  pub action : FileAction

-- the digest is a list of bytes
pub record FinishLargeFileBody : Type 0 where
  pub file_id : FileId
  pub part_sha1_array : List (List ℕ)

pub record CancelLargeFileBody : Type 0 where
  pub file_id : FileId

-- The values that are posted
pub data Posted : Type 0 where
  bucket_list : BucketListBody → Posted
  file_list : FileListBody → Posted
  file_delete : FileDeleteRequest → Posted
  upload_url : GetUploadUrlBody → Posted
  upload_part_url : GetUploadPartUrlBody → Posted
  start_large_file : StartLargeFileBody → Posted
  finish_large_file : FinishLargeFileBody → Posted
  cancel_large_file : CancelLargeFileBody → Posted

-- `hyperdriver::Body`, as far as it is sent
pub data Body : Type 0 where
  empty : Body
  json : Posted → Body
  bytes : List ℕ → Body
