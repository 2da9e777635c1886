-- ===== src/Octocat/Types.antt =====
-- The data of services/octocat/src/lib.rs and services/octocat/src/models/mod.rs, and what they call
-- of other crates. An instant is the nanoseconds since the first one that chrono has.
use emporium.Prelude.{ℕ, ◌*◌, String, Bool, Option, List, Result}
use emporium.Prelude.Actions.{Action}
use emporium.Std.Int.{ℤ}
use emporium.Secret.{Secret}
use emporium.ApiClient.Http.{Http, Uri, Request, HttpResponse, ClientError}

abbrev second : ℕ
second = 1000000000

-- `CLOCK_DRIFT_OFFSET_SECONDS` and `TOKEN_DURATION_SECONDS`
abbrev pub clock_drift_offset : ℕ
clock_drift_offset = 60 * second

abbrev pub token_duration : ℕ
token_duration = 300 * second

-- `ResponseError`
pub record ResponseError : Type 0 where
  pub status : ℕ
  pub body : String

-- `Error`, of the requests
pub data Error : Type 0 where
  request : ClientError → Error
  signature : String → Error
  serde : String → Error
  response : ResponseError → Error
  body : String → Error

-- `jaws::token::TokenSigningError` and `jaws::token::TokenFormattingError`
pub data TokenSigningError : Type 0 where
  signing : String → TokenSigningError
  serialization : String → TokenSigningError

pub data TokenFormattingError : Type 0 where
  serialization io : String → TokenFormattingError

-- the claims of a token that the source registers
pub record Claims : Type 0 where
  pub issuer : String
  pub issued_at : ℕ
  pub expiration : ℕ

-- `models::Account` and `models::Installation`
pub record Account : Type 0 where
  pub title : Option String
  pub id : ℤ
  pub login : String

pub record Installation : Type 0 where
  pub id : ℕ
  pub account : Account

-- `models::InstallationAccess`
pub record InstallationAccess : Type 0 where
  pub token : Secret
  pub expires_at : ℕ

-- `TokenCache`
pub record TokenCache : Type 0 where
  pub secret : Secret
  pub expires : ℕ

-- the `RwLock` of the cache, which a panic of its writer poisons
pub record Lock : Type 0 where
  pub poisoned : Bool
  pub cached : Option TokenCache

-- `GithubApp`; its key and its service are parameters
pub record GithubApp : Type 0 where
  pub app_id : String
  pub token : Lock

-- GitHub and the clock, whose state is an `R`, the signer with the application's key, and parsers
pub record Service (H R : Type 0) : Type 0 where
  pub http : Http H
  pub parse_uri : String → Option Uri
  pub now : R → ℕ
  -- the last instant that chrono has
  pub latest : ℕ
  pub sign : Claims → Result String TokenSigningError
  pub rendered : String → Result String TokenFormattingError
  pub send : Request H (Unit {0}) → Action R (HttpResponse H) ClientError
  pub from_utf8 : List ℕ → Result String String
  pub read_access : String → Result InstallationAccess String
  pub read_installation : String → Result Installation String
  pub read_installations : List ℕ → Result (List Installation) String

pub record World (R : Type 0) : Type 0 where
  pub app : GithubApp
  pub remote : R
