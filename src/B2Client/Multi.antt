-- ===== src/B2Client/Multi.antt =====
-- services/b2-client/src/multi.rs: one client for each bucket, authorized when it is first needed.
pub mod Authorizing
use emporium.Prelude.{
  ℕ, String, Option, none, some, List, [], ◌∷◌, Result, ok, err, ◌==◌, string_eq,
}
use emporium.Prelude.Actions.{Action, Fault, failed, pure, fail, map_fail, settle, ◌>>=◌}
use emporium.Std.Path.{FilePath}
use emporium.Std.HashMap.{HashMap, get, insert}
use emporium.StorageDriver.{Metadata, Writer}
use emporium.B2Client.Errors.{AuthenticationErrorKind, unauthorized_bucket}
use emporium.B2Client.Application.{B2ApplicationKey, B2Authorization, fetch_authorization}
use emporium.B2Client.Remote.{B2Client, Service, World, from_client_and_authorization}
use emporium.B2Client.Upload.Large.{Source}
use emporium.B2Client.Driver.{DriverError}
use emporium.B2Client.Driver

-- `B2BucketStatus`
pub data B2BucketStatus : Type 0 where
  authorized : B2Client → B2BucketStatus
  key : B2ApplicationKey → B2BucketStatus

abbrev pub Statuses : Type 0
Statuses = HashMap String B2BucketStatus

-- `B2MultiClient` and the service that it calls
pub record Clients (S : Type 0) : Type 0 where
  pub buckets : Statuses
  pub remote : S

-- the error of a key that could not be authorized, or of an action of the client
pub data MultiError : Type 0 where
  authorize_bucket_key : AuthenticationErrorKind → MultiError
  of_client : DriverError → MultiError

-- `B2MultiClient::new`, of a map of keys
unfoldable pub new_statuses : HashMap String B2ApplicationKey → Statuses
new_statuses [] = []
new_statuses ((bucket, k) ∷ keys) = (bucket, key k) ∷ new_statuses keys

-- the client of an authorization, which the map keeps
unfoldable pub keep_client :
    {S : Type 0}
    → String
    → B2ApplicationKey
    → Clients S
    → Result B2Authorization (Fault AuthenticationErrorKind) × S
    → Result B2Client (Fault AuthenticationErrorKind) × Clients S
unfolding from_client_and_authorization
keep_client bucket k c (err e, s) = (err e, record c { remote = s })
keep_client bucket k c (ok auth, s) =
    let client = from_client_and_authorization auth k in
    (ok client, record { buckets = insert bucket (authorized client) c.buckets; remote = s })

module _ {H S : Type 0} (env : Service H S) where
  -- the entry of a key: its authorization is fetched, and the client kept
  unfoldable pub authorize_key :
      String → B2ApplicationKey → Action (Clients S) B2Client AuthenticationErrorKind
  unfolding fetch_authorization keep_client
  authorize_key bucket k c = keep_client bucket k c (
      fetch_authorization env.http env.base64 env.reading.from_utf8 env.json.authorization env.serve
        k c.remote)

  -- the client of an entry of the map
  unfoldable pub client_of :
      String → Option B2BucketStatus → Action (Clients S) B2Client AuthenticationErrorKind
  unfolding authorize_key
  client_of bucket none = fail (unauthorized_bucket bucket)
  client_of bucket (some (authorized client)) = pure client
  client_of bucket (some (key k)) = authorize_key bucket k

  -- `get_bucket_client`
  unfoldable pub get_bucket_client : String → Action (Clients S) B2Client AuthenticationErrorKind
  unfolding client_of
  get_bucket_client bucket c = client_of bucket (get bucket c.buckets) c

  -- an action of a client, whose clone shares its authorization and its caches with the map's
  unfoldable pub run_client :
      {A : Type 0}
      → String
      → Action (World S) A DriverError
      → B2Client
      → Action (Clients S) A MultiError
  run_client bucket method client c =
      let (r, w) = map_fail of_client method (record { b2 = client; remote = c.remote }) in
      (r, record { buckets = insert bucket (authorized w.b2) c.buckets; remote = w.remote })

  -- the client of a bucket, and an action of it
  unfoldable pub with_client :
      {A : Type 0} → String → Action (World S) A DriverError → Action (Clients S) A MultiError
  unfolding get_bucket_client run_client
  with_client bucket method =
      map_fail authorize_bucket_key (get_bucket_client bucket) >>= run_client bucket method

  -- `Driver::metadata`, `delete`, `upload`, `download` and `list` of `B2MultiClient`
  unfoldable pub metadata : String → FilePath → Action (Clients S) Metadata MultiError
  unfolding with_client Driver.metadata
  metadata bucket remote = with_client bucket (Driver.metadata env bucket remote)

  unfoldable pub delete : String → FilePath → Action (Clients S) (Unit {0}) MultiError
  unfolding with_client Driver.delete
  delete bucket remote = with_client bucket (Driver.delete env bucket remote)

  unfoldable pub upload : String → FilePath → Source → Action (Clients S) (Unit {0}) MultiError
  unfolding with_client Driver.upload
  upload bucket remote local = with_client bucket (Driver.upload env bucket remote local)

  unfoldable pub download : String → FilePath → Writer → Action (Clients S) Writer MultiError
  unfolding with_client Driver.download
  download bucket remote local = with_client bucket (Driver.download env bucket remote local)

  unfoldable pub list : String → Option FilePath → Action (Clients S) (List String) MultiError
  unfolding with_client Driver.list
  list bucket prefix = with_client bucket (Driver.list env bucket prefix)
