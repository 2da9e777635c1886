-- ===== src/B2Client/Remote.antt =====
-- What the client of B2 holds (services/b2-client/src/client.rs), and what it calls: the service
-- behind HTTP with its state, JSON, the encodings and the clock.
use emporium.Prelude.{ℕ, ◌*◌, String, Option, List, [], Result, ok}
use emporium.Prelude.Actions.{Action, pure, unwrap, map_fail, ◌>>=◌}
use emporium.Std.HashMap.{HashMap}
use emporium.ApiClient.Http.{Http, Request, HttpResponse, ClientError}
use emporium.ApiClient.Response.{Response}
use emporium.ApiClient.Client.{ApiClient, new_with_inner_service, refresh_auth, execute}
use emporium.ApiClient.Authentication.{call}
use emporium.Echocache.{Cached}
use emporium.B2Client.Types.{
  Body, Posted, Bucket, BucketListResponse, FileListResponse, FileInfo, BucketUploadInfo,
  UploadFileResponse,
}
use emporium.B2Client.Errors.{
  Reading, B2RequestError, AuthenticationErrorKind, client_error, deserialize,
}
use emporium.B2Client.Application.{
  B2ApplicationKey, B2Authorization, authenticate, b2_authentication, post, fetch_authorization,
}

-- `B2_UPLOAD_RETRIES`, `B2_DEFAULT_CONCURRENCY` and `B2_LARGE_FILE_SIZE`
abbrev pub upload_retries : ℕ
upload_retries = 5

abbrev pub default_concurrency : ℕ
default_concurrency = 4

abbrev pub large_file_size : ℕ
large_file_size = 1024 * 1024 * 1024

pub record UploadSettings : Type 0 where
  pub concurrency : ℕ
  pub retries : ℕ

-- `UploadSettings::default`
unfoldable pub default_settings : UploadSettings
default_settings = record { concurrency = default_concurrency; retries = upload_retries }

abbrev pub BucketResult : Type 0
BucketResult = Result Bucket B2RequestError

pub record B2Client : Type 0 where
  pub client : ApiClient B2Authorization
  pub keys : B2ApplicationKey
  pub buckets : HashMap String (Cached BucketResult)
  pub uploads : UploadSettings

-- `serde_json::from_str` at the types that are read
pub record Json : Type 0 where
  pub bucket_list : String → Result BucketListResponse String
  pub file_list : String → Result FileListResponse String
  pub upload_info : String → Result BucketUploadInfo String
  pub upload_file : String → Result UploadFileResponse String
  pub file_info : String → Result FileInfo String
  pub authorization : String → Result B2Authorization String

-- The service and the libraries; `pages` bounds the pages of a listing that is followed.
pub record Service (H S : Type 0) : Type 0 where
  pub http : Http H
  pub serve : Request H Body → Action S (HttpResponse H) ClientError
  pub reading : Reading
  pub json : Json
  pub base64 : String → String
  pub percent_encode : String → String
  pub hex : List ℕ → String
  pub sha1 : List ℕ → List ℕ
  pub now : S → ℕ
  -- `Utc.timestamp_millis_opt(..).single()`
  pub timestamp_millis : ℕ → Option ℕ
  -- `mime::Mime::from_str`, and the text it is displayed with
  pub parse_mime : String → Option String
  pub sleep : ℕ → S → S
  pub pages : ℕ

-- a client and the service that it calls
pub record World (S : Type 0) : Type 0 where
  pub b2 : B2Client
  pub remote : S

-- `B2Client::from_client_and_authorization`
unfoldable pub from_client_and_authorization : B2Authorization → B2ApplicationKey → B2Client
unfolding new_with_inner_service default_settings
from_client_and_authorization authorization keys = record {
  client = new_with_inner_service authorization.api_url authorization;
  keys = keys;
  buckets = [];
  uploads = default_settings;
}

module _ {H S : Type 0} (env : Service H S) where
  -- `B2ApplicationKey::client`
  unfoldable pub key_client : B2ApplicationKey → Action S B2Client AuthenticationErrorKind
  unfolding fetch_authorization from_client_and_authorization
  key_client key = do
    auth ←
        fetch_authorization env.http env.base64 env.reading.from_utf8 env.json.authorization
          env.serve key
    pure (from_client_and_authorization auth key)

  -- an action of the service alone, as one of the client
  abbrev pub on_remote : {A E : Type 0} → Action S A E → Action (World S) A E
  on_remote m w = let (r, s) = m w.remote in (r, record w { remote = s })

  -- `self.client.execute(request).await?`
  unfoldable pub send : Request H Body → Action (World S) (Response H) B2RequestError
  unfolding execute authenticate
  send req w =
      on_remote
        (map_fail client_error (execute (b2_authentication env.http) env.serve w.b2.client req)) w

  -- a request of `B2Authorization::post`, executed
  unfoldable pub post_to : String → Posted → Action (World S) (Response H) B2RequestError
  unfolding send post
  post_to name value w = (unwrap (post env.http w.b2.client.authentication name value) >>= send) w

  -- and its response deserialized
  unfoldable pub ask :
      {D : Type 0}
      → String
      → Posted
      → (String → Result D String)
      → Action (World S) D B2RequestError
  unfolding post_to deserialize
  ask name value from_str = post_to name value >>= deserialize env.reading from_str

  -- `self.client.refresh_auth(auth)`
  unfoldable pub set_authorization : B2Authorization → World S → World S
  unfolding refresh_auth
  set_authorization auth w = record w {
    b2 = record w.b2 { client = refresh_auth auth w.b2.client };
  }

  -- `B2Client::refresh_authorization`; the service is the one that authenticates
  unfoldable pub refresh_authorization : Action (World S) (Unit {0}) AuthenticationErrorKind
  unfolding fetch_authorization call set_authorization authenticate
  refresh_authorization w =
      (on_remote (
            fetch_authorization env.http env.base64 env.reading.from_utf8 env.json.authorization
              (call (b2_authentication env.http) env.serve w.b2.client.authentication) w.b2.keys)
          >>= λ auth w'. (ok tt, set_authorization auth w'))
        w
